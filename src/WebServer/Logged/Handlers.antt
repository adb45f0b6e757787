-- ===== src/WebServer/Logged/Handlers.antt =====
-- Each handler counts the requests that are due.
use computer_service_system.Common.{
  ℕ, String, List, [], ◌∷◌, ◌++◌, ◌∙◌, true, false, Option, none, some, ◌≡◌, refl, ap, inl, inr,
  negsuc, if◌then◌else◌,
}
use computer_service_system.Exec.{Result, ok, throws, Result-cases}
use computer_service_system.Std.OrderedMap.{OrderedMap}
use computer_service_system.Std.HashMap.{Walk}
use computer_service_system.Metrics.Labels.{Labels}
use computer_service_system.Metrics.Counter.{Counter}
use computer_service_system.Metrics.Histogram.{Histogram}
use computer_service_system.Metrics.Registry.History.{
  Event, http_request, db_operation, device_operation, apply, run,
}
use computer_service_system.WebServer.{Platform, Server, Request, Response, json_response}
use computer_service_system.WebServer.Answers.{code_of, Replies}
use computer_service_system.WebServer.Session.{login, test_db, logout}
use computer_service_system.WebServer.Devices.{get_devices, post_device, get_service_types}
use computer_service_system.WebServer.Service.{
  read_record, get_service_history, post_service_history, get_service_records,
}
use computer_service_system.WebServer.Login
use computer_service_system.WebServer.Login.{attempt, login-Outcome}
use computer_service_system.WebServer.Stored.{
  creation, post_service_history-Tells, post_service_history-Refuses,
}
use computer_service_system.WebServer.Reads.{listing}
use computer_service_system.WebServer.Files.{FileSystem}
use computer_service_system.WebServer.Routes.{
  Endpoint, scrape, index, file, check_db, log_in, log_out, list_devices, add_device, list_types,
  list_history, add_record, list_records, Crow, respond,
}
use computer_service_system.WebServer.Counted.{requests}
use computer_service_system.WebServer.Counted.Sequence.{requests-append}
use computer_service_system.WebServer.Counted.Quiet.{read_record-Quiet}
use computer_service_system.WebServer.Counted.Simple.{test_connection-ok}
use computer_service_system.WebServer.Counted.Handlers.{add_service_record-ok}
use computer_service_system.WebServer.Logged.{
  Once, Caught, IsDue, Logs, as_account, as_stranger, as_malformed, as_answered, as_unreadable,
}

module _ (p : Platform) (req : Request) (s : Server p) where
  open p.fl use {Double}
  open p.js use {Value, dump}

  -- A handler that has reported its events ends with a response of the status that it has counted.
  ends-Logs :
      (e : Endpoint) (method path : String) (status : ℕ) (events : List (Event Double)) (v : Value)
      (s' : Server p)
      → s'.metrics ≡ run p.fl events s.metrics
      → requests events ≡ (method, path, status) ∷ []
      → ((code : Option ℕ)
          → Once p method path status code (requests events)
          → IsDue p e req s code (requests events))
      → Logs p e req s (json_response p status v s')
  unfolding json_response
  ends-Logs e method path status events v s' reported once due = elim (Result-cases (dump v)) [
    | inl (body, sent) ↦
        rw sent (record {
          events = events;
          reported = reported;
          due = due (some status) (once, inl refl);
        })
    | inr (what, unsent) ↦
        rw unsent (record { events = events; reported = reported; due = due none (once, inr refl) })
  ]

  test_db-Logs : Logs p check_db req s (test_db p req s)
  unfolding test_db run apply
  test_db-Logs =
      let (connected, answered) = test_connection-ok p s.database in
      rw answered (
        ends-Logs check_db "GET" "/api/test-db" 200
          (http_request _ _ _ _ ∷ db_operation "test_connection" connected ∷ []) _ _ refl refl
          (λ code h. h))

  logout-Logs : Logs p log_out req s (logout p req s)
  unfolding logout run apply
  logout-Logs =
      ends-Logs log_out "POST" "/api/logout" 200
        (http_request _ _ _ _ ∷ db_operation "logout" true ∷ []) _ _ refl refl (λ code h. h)

  get_devices-Logs : Logs p list_devices req s (get_devices p req s)
  unfolding get_devices run apply
  get_devices-Logs =
      ends-Logs list_devices "GET" "/api/devices" 200 (listing p "/api/devices" "get_devices" req) _
        _ refl refl (λ code h. h)

  get_service_types-Logs : Logs p list_types req s (get_service_types p req s)
  unfolding get_service_types run apply
  get_service_types-Logs =
      ends-Logs list_types "GET" "/api/service-types" 200
        (listing p "/api/service-types" "get_service_types" req) _ _ refl refl (λ code h. h)

  get_service_history-Logs : Logs p list_history req s (get_service_history p req s)
  unfolding get_service_history run apply
  get_service_history-Logs =
      ends-Logs list_history "GET" "/api/service-history" 200
        (listing p "/api/service-history" "get_service_history" req) _ _ refl refl (λ code h. h)

  get_service_records-Logs : Logs p list_records req s (get_service_records p req s)
  unfolding get_service_records run apply
  get_service_records-Logs =
      ends-Logs list_records "GET" "/api/service-records" 200
        (listing p "/api/service-records" "get_service_records" req) _ _ refl refl (λ code h. h)

  post_device-Logs : Logs p add_device req s (post_device p req s)
  unfolding post_device run apply
  post_device-Logs =
      ends-Logs add_device "POST" "/api/devices" 403
        (device_operation "create_blocked" (negsuc 0) false
          ∷ http_request "POST" "/api/devices" 403 (p.fl.thousandths 1)
          ∷ [])
        _ _ refl refl (λ code h. h)

  -- A handler that catches: what was replied, and what is counted.
  Replies-Caught :
      (method path : String) (status code : ℕ) (v : Value) (es caught : List (Event Double))
      (after : Result Response × Server p)
      → requests es ≡ (method, path, status) ∷ []
      → requests caught ≡ (method, path, 400) ∷ []
      → Replies p code v es caught s after
      → (events : List (Event Double)) × (after.1.metrics ≡ run p.fl events s.metrics)
        × Caught p method path status code v (code_of after.0) (requests events)
  Replies-Caught method path status code v es caught after once again replies = elim replies [
    | inl (body, sent, answer, reported) ↦ (es, reported, inl (body, sent, once, ap code_of answer))
    | inr (what, unsent, (answer, reported)) ↦ (
      es ++ caught,
      reported,
      inr (what, unsent, requests-append es caught ∙ (λ i. once i ++ again i), ap code_of answer),
    )
  ]

  login-Logs : Logs p log_in req s (login p req s)
  login-Logs = elim (login-Outcome p req s).0 [
    | Login.let_in username password read account replies ↦
        let (events, reported, caught) =
          Replies-Caught "POST" "/api/login" 200 200 _ (attempt p username true 200 req)
            (attempt p "unknown" false 400 req) (login p req s) refl refl replies in
        record {
          events = events;
          reported = reported;
          due = as_account username password read account caught;
        }
    | Login.turned_away username password read stranger replies ↦
        let (events, reported, caught) =
          Replies-Caught "POST" "/api/login" 401 401 _ (attempt p username false 401 req)
            (attempt p "unknown" false 400 req) (login p req s) refl refl replies in
        record {
          events = events;
          reported = reported;
          due = as_stranger username password read stranger caught;
        }
    | Login.unreadable what unread (answer, reported) ↦ record {
      events = attempt p "unknown" false 400 req;
      reported = reported;
      due = as_malformed what unread (refl, ap code_of answer);
    }
  ]

  post_service_history-Logs : Logs p add_record req s (post_service_history p req s)
  post_service_history-Logs = elim (Result-cases (read_record p req.body s).0) [
    | inl (r, e) ↦
        let read : read_record p req.body s ≡ (ok r, s) =
          λ i. (e i, read_record-Quiet p req.body s i) in
        let (success, added) = add_service_record-ok p r s.database in
        let status : ℕ = if success then 200 else 400 in
        let (events, reported, caught) =
          Replies-Caught "POST" "/api/service-history" status 200 _ (creation p success status req)
            (creation p false 400 req) (post_service_history p req s) refl refl
            (post_service_history-Tells p req s r success read added).0 in
        record {
          events = events;
          reported = reported;
          due = as_answered r success read added caught;
        }
    | inr (what, e) ↦
        let unread : read_record p req.body s ≡ (throws what, s) =
          λ i. (e i, read_record-Quiet p req.body s i) in
        let (answer, reported) = (post_service_history-Refuses p req s what unread).0 in
        record {
          events = creation p false 400 req;
          reported = reported;
          due = as_unreadable what unread (refl, ap code_of answer);
        }
  ]

  module _ (crow : Crow) (files : FileSystem) (wc : Walk (OrderedMap Labels (Counter Double)))
      (wh : Walk (OrderedMap Labels (Histogram Double))) where
    pub respond-Logs :
        (e : Endpoint) (arg : String) → Logs p e req s (respond p crow files wc wh e arg req s)
    unfolding respond run
    respond-Logs scrape arg = record { events = []; reported = refl; due = refl }
    respond-Logs index arg = record { events = []; reported = refl; due = refl }
    respond-Logs file arg = record { events = []; reported = refl; due = refl }
    respond-Logs check_db arg = test_db-Logs
    respond-Logs log_in arg = login-Logs
    respond-Logs log_out arg = logout-Logs
    respond-Logs list_devices arg = get_devices-Logs
    respond-Logs add_device arg = post_device-Logs
    respond-Logs list_types arg = get_service_types-Logs
    respond-Logs list_history arg = get_service_history-Logs
    respond-Logs add_record arg = post_service_history-Logs
    respond-Logs list_records arg = get_service_records-Logs
