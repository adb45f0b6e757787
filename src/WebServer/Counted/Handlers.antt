-- ===== src/WebServer/Counted/Handlers.antt =====
-- What each handler counts.
use computer_service_system.Common.{
  ℕ, String, List, [], ◌∷◌, Bool, true, false, ◌≡◌, refl, sym, ap, negsuc, ◌⊎◌, inl, inr,
  if◌then◌else◌,
}
use computer_service_system.Exec.{ok, Result-cases, catching-ok}
use computer_service_system.Std.OrderedMap.{OrderedMap}
use computer_service_system.Std.HashMap.{Walk}
use computer_service_system.Metrics.Labels.{Labels}
use computer_service_system.Metrics.Counter.{Counter}
use computer_service_system.Metrics.Histogram.{Histogram}
use computer_service_system.Metrics.Registry.History.{Event, http_request, device_operation, run}
use computer_service_system.Metrics.Registry.Document.Events.{are_plain_events-All}
use computer_service_system.Database.{ServiceRecord}
use computer_service_system.Database.Write.{run_statement, add_service_record}
use computer_service_system.WebServer.{Platform, Server, Request, Response}
use computer_service_system.WebServer.Answers.{Dumps}
use computer_service_system.WebServer.Session.{login, read_login}
use computer_service_system.WebServer.Login.{attempt, login-IsAccount, login-malformed}
use computer_service_system.WebServer.Devices.{post_device}
use computer_service_system.WebServer.Blocked.{post_device-Keeps}
use computer_service_system.WebServer.Service.{post_service_history, read_record}
use computer_service_system.WebServer.Stored.{
  creation, post_service_history-answer, post_service_history-malformed,
}
use computer_service_system.WebServer.Files.{FileSystem}
use computer_service_system.WebServer.Routes.{
  Endpoint, scrape, index, file, check_db, log_in, log_out, list_devices, add_device, list_types,
  list_history, add_record, list_records, Crow, respond,
}
use computer_service_system.WebServer.Counted.{Counts, IsCounted, refusals, name_of, tries}
use computer_service_system.WebServer.Counted.Names.{attempt-plain, attempt-tried}
use computer_service_system.WebServer.Counted.Quiet.{read_record-Quiet}
use computer_service_system.WebServer.Counted.Simple.{
  test_db-Counts, logout-Counts, get_devices-Counts, get_service_types-Counts,
  get_service_history-Counts, get_service_records-Counts,
}

module _ (p : Platform) where
  open p.fl use {Double}
  open p.js use {Value}

  -- No exception leaves the insertion of a record.
  pub add_service_record-ok :
      (r : ServiceRecord Double) (w : p.db.World)
      → (b : Bool) × ((add_service_record p.db r w).0 ≡ ok b)
  unfolding run_statement
  add_service_record-ok r w = catching-ok _ false _

  module _ (dumps : Dumps p) (req : Request) (s : Server p) where
    login-Counts : Counts p log_in req s (login p req s)
    login-Counts = elim (Result-cases (read_login p req.body)) [
      | inl ((username, password), read) ↦
          elim (login-IsAccount p req s username password dumps read).0 [
            | inl (account, answers) ↦ record {
              code = 200;
              events = attempt p username true 200 req;
              answers = answers;
              counted = (200, refl, inl refl);
              refused = refl;
              plain = attempt-plain p req username true 200 (ap name_of read);
              tried = attempt-tried p req username true 200 (ap name_of read);
            }
            | inr (unknown, answers) ↦ record {
              code = 401;
              events = attempt p username false 401 req;
              answers = answers;
              counted = (401, refl, inl refl);
              refused = refl;
              plain = attempt-plain p req username false 401 (ap name_of read);
              tried = attempt-tried p req username false 401 (ap name_of read);
            }
          ]
      | inr (what, unread) ↦ record {
        code = 400;
        events = attempt p "unknown" false 400 req;
        answers = (login-malformed p req s what dumps unread).0;
        counted = (400, refl, inl refl);
        refused = refl;
        plain = attempt-plain p req "unknown" false 400 (ap name_of unread);
        tried = attempt-tried p req "unknown" false 400 (ap name_of unread);
      }
    ]

    abbrev blocked : List (Event Double)
    blocked =
        device_operation "create_blocked" (negsuc 0) false
        ∷ http_request "POST" "/api/devices" 403 (p.fl.thousandths 1)
        ∷ []

    post_device-Counts : Counts p add_device req s (post_device p req s)
    post_device-Counts = record {
      code = 403;
      events = blocked;
      answers = (post_device-Keeps p req s dumps).0;
      counted = (403, refl, inl refl);
      refused = refl;
      plain = λ named. are_plain_events-All blocked refl;
      tried = λ u b. refl;
    }

    post_service_history-Counts : Counts p add_record req s (post_service_history p req s)
    post_service_history-Counts = elim (Result-cases (read_record p req.body s).0) [
      | inl (r, e) ↦
          let (success, added) = add_service_record-ok r s.database in
          record {
            code = 200;
            events = creation p success (if success then 200 else 400) req;
            answers =
                (post_service_history-answer p req s r success dumps (λ i. (e i, quiet i)) added).0;
            counted = (if success then 200 else 400, refl, stored success);
            refused = refl;
            plain = λ named.
                are_plain_events-All (creation p success (if success then 200 else 400) req) refl;
            tried = λ u b. refl;
          }
      | inr (what, e) ↦ record {
        code = 400;
        events = creation p false 400 req;
        answers = (post_service_history-malformed p req s what dumps (λ i. (e i, quiet i))).0;
        counted = (400, refl, inl refl);
        refused = refl;
        plain = λ named. are_plain_events-All (creation p false 400 req) refl;
        tried = λ u b. refl;
      }
    ]
      where
        quiet : (read_record p req.body s).1 ≡ s
        quiet = read_record-Quiet p req.body s

        stored :
            (success : Bool)
            → let status : ℕ = if success then 200 else 400 in
              let code : ℕ = 200 in
              (status ≡ code) ⊎ ((add_record ≡ add_record) × (status ≡ 400) × (code ≡ 200))
        stored true = inl refl
        stored false = inr (refl, refl, refl)

    -- A page, or a scrape, which counts nothing.
    uncounted :
        (e : Endpoint) (page : Response)
        → IsCounted e page.code []
        → refusals e page.code ≡ 0
        → ((username : String) (success : Bool) → 0 ≡ tries p e req page.code username success)
        → Counts p e req s (ok page, s)
    unfolding run
    uncounted e page pages never none_tried = record {
      code = page.code;
      events = [];
      answers = (refl, refl);
      counted = pages;
      refused = sym never;
      plain = λ named. tt;
      tried = none_tried;
    }

    module _ (crow : Crow) (files : FileSystem) (wc : Walk (OrderedMap Labels (Counter Double)))
        (wh : Walk (OrderedMap Labels (Histogram Double))) where
      pub respond-Counts :
          (e : Endpoint) (arg : String) → Counts p e req s (respond p crow files wc wh e arg req s)
      unfolding respond
      respond-Counts scrape arg = uncounted scrape _ refl refl (λ u b. refl)
      respond-Counts index arg = uncounted index _ refl refl (λ u b. refl)
      respond-Counts file arg = uncounted file _ refl refl (λ u b. refl)
      respond-Counts check_db arg = test_db-Counts p dumps req s
      respond-Counts log_in arg = login-Counts
      respond-Counts log_out arg = logout-Counts p dumps req s
      respond-Counts list_devices arg = get_devices-Counts p dumps req s
      respond-Counts add_device arg = post_device-Counts
      respond-Counts list_types arg = get_service_types-Counts p dumps req s
      respond-Counts list_history arg = get_service_history-Counts p dumps req s
      respond-Counts add_record arg = post_service_history-Counts
      respond-Counts list_records arg = get_service_records-Counts p dumps req s
