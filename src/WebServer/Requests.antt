-- ===== src/WebServer/Requests.antt =====
-- The server over any sequence of requests.
pub mod Tests
use text.Mathlib.TextEquality.{eq_iff}
use computer_service_system.Common.{
  ℕ, ◌+◌, ◌≤◌, zero, List, [], ◌∷◌, ◌++◌, String, Bool, ◌≡◌, refl, sym, ap, ◌∙◌, ◌⊎◌, inl, inr,
  true, false, arith, length, if◌then◌else◌, Option, none, some, Option-cases, str_eq, ◌&&◌,
}
use computer_service_system.Exec.{Result, Exec}
use computer_service_system.Std.OrderedMap.{OrderedMap}
use computer_service_system.Std.HashMap.{Walk}
use computer_service_system.Metrics.Labels.{Labels}
use computer_service_system.Metrics.Counter.{Counter}
use computer_service_system.Metrics.Histogram.{Histogram}
use computer_service_system.Metrics.Labels
use computer_service_system.Std.Text.{◌<<◌}
use computer_service_system.Std.Contains.{Contains}
use computer_service_system.Metrics.Registry.{Registry, empty}
use computer_service_system.Metrics.Registry.Start.{initialize}
use computer_service_system.Metrics.Registry.Lookup.{counter_at, value_at}
use computer_service_system.Metrics.Registry.Append.{run-append}
use computer_service_system.Metrics.Registry.History.{Event, initializes, apply, run}
use computer_service_system.Metrics.Registry.Exposition.{run-exposed}
use computer_service_system.Database.Atomic.{Transactional}
use computer_service_system.WebServer.{Platform, Server, Request, Response}
use computer_service_system.WebServer.Files.{FileSystem, begins, has_part, get_metrics}
use computer_service_system.WebServer.Routes.{
  Endpoint, scrape, index, file, check_db, log_in, log_out, list_devices, add_device, list_types,
  list_history, add_record, list_records, Rule, routes, In, Crow, Call, respond, dispatch, handle,
  handle_all,
}
use computer_service_system.WebServer.Effects.{Effects, Does, nothing, Effects-trans, Effects-more}
use computer_service_system.WebServer.Served.{
  test_db-Does, login-Does, logout-Does, post_device-Does, get_devices-Does, get_service_types-Does,
  get_service_history-Does, post_service_history-Does, get_service_records-Does,
}

-- A request that may insert a record.
abbrev pub inserts : Call → ℕ
inserts call = if str_eq call.method "POST" && str_eq call.url "/api/service-history" then 1 else 0

abbrev pub all_inserts : List Call → ℕ
all_inserts [] = 0
all_inserts (call ∷ calls) = inserts call + all_inserts calls

-- How many records a handler may insert.
abbrev budget : Endpoint → ℕ
budget add_record = 1
budget _ = 0

-- The one rule whose handler inserts.
inserting_rule :
    (r : Rule)
    → In r routes
    → (budget r.endpoint ≡ 0)
      ⊎ ((budget r.endpoint ≡ 1) × (r.path ≡ "/api/service-history") × (r.methods ≡ "POST" ∷ []))
unfolding routes
inserting_rule r h = ground arith

module _ (p : Platform) (t : Transactional p.db)
    (reads_only : (sql : String) (w : p.db.World)
      → begins sql "SELECT " ≡ true
      → t.pending (p.db.exec sql w).1 ≡ t.pending w)
    (crow : Crow) (files : FileSystem) (wc : Walk (OrderedMap Labels (Counter p.fl.Double)))
    (wh : Walk (OrderedMap Labels (Histogram p.fl.Double))) where
  respond-Does :
      (e : Endpoint) (arg : String) (req : Request)
      → Does p t (budget e) (respond p crow files wc wh e arg req)
  unfolding respond
  respond-Does scrape arg req = nothing p t
  respond-Does index arg req = nothing p t
  respond-Does file arg req = nothing p t
  respond-Does check_db arg req = test_db-Does p t reads_only req
  respond-Does log_in arg req = login-Does p t reads_only req
  respond-Does log_out arg req = logout-Does p t reads_only req
  respond-Does list_devices arg req = get_devices-Does p t reads_only req
  respond-Does add_device arg req = post_device-Does p t reads_only req
  respond-Does list_types arg req = get_service_types-Does p t reads_only req
  respond-Does list_history arg req = get_service_history-Does p t reads_only req
  respond-Does add_record arg req = post_service_history-Does p t reads_only req
  respond-Does list_records arg req = get_service_records-Does p t reads_only req

  In-one : (m n : String) → In m (n ∷ []) → m ≡ n
  In-one m n (inl e) = e
  In-one m n (inr h) = absurd h

  inserts_chosen :
      (call : Call) (r : Rule) (arg : String)
      → crow.choose routes call.method call.url ≡ some (r, arg)
      → budget r.endpoint ≤ inserts call
  inserts_chosen call r arg chosen =
      let (known, allowed) = crow.choose-In routes call.method call.url r arg chosen in
      elim (inserting_rule r known) [
        | inl harmless ↦ omega (arith, harmless)
        | inr (budgeted, path, methods) ↦
            let method : call.method ≡ "POST" = In-one call.method "POST" (rw methods at allowed) in
            let url : call.url ≡ "/api/service-history" =
              crow.choose-path routes call.method call.url r arg chosen
                (ap (λ s. has_part s "<") path ∙ no_parameter)
              ∙ path in
            ground (arith, eq_iff call.method "POST", eq_iff call.url "/api/service-history")
      ]
    where
      no_parameter : has_part "/api/service-history" "<" ≡ false
      no_parameter = unfold has_part in refl

  handle-Does : (call : Call) → Does p t (inserts call) (handle p crow files wc wh call)
  unfolding handle dispatch
  handle-Does call s = elim (Option-cases (crow.choose routes call.method call.url)) [
    | inl missed ↦
        rw missed (Effects-more p t {m = 0} {n = inserts call} (omega arith) (nothing p t s))
    | inr ((r, arg), chosen) ↦ rw chosen (
        Effects-more p t {m = budget r.endpoint} {n = inserts call}
          (inserts_chosen call r arg chosen) (respond-Does r.endpoint arg call.request s))
  ]

  -- After any sequence of requests, whatever rule Crow takes for each, and whatever is thrown: the
  -- registry is as after some sequence of events, and the committed tables are as before with some
  -- records inserted, no more of them than there were POST requests for "/api/service-history";
  -- nothing else has happened to either. It is supposed that PostgreSQL keeps what it promises of a
  -- transaction, that a SELECT changes nothing that its transaction sees, and that Crow takes only
  -- rules that allow the method and, where the path has no parameter, have the path of the request.
  pub handle_all-Effects :
      (calls : List Call) (s : Server p)
      → Effects p t (all_inserts calls) s (handle_all p crow files wc wh calls s)
  unfolding handle_all
  handle_all-Effects [] s = nothing p t s
  handle_all-Effects (call ∷ calls) s =
      Effects-trans p t (handle-Does call s)
        (handle_all-Effects calls (handle p crow files wc wh call s).1)

  -- After any sequence of requests to a server whose registry has seen any history, the answer to a
  -- scrape holds, for each counter that is there, the line with its base name, its labels and its
  -- value. What is supposed of PostgreSQL and of Crow is as for the effects of a sequence of
  -- requests.
  pub get_metrics-exposed :
      (start : List (Event p.fl.Double)) (calls : List Call) (s : Server p) (n : String)
      (l : Labels) (c : Counter p.fl.Double)
      → s.metrics ≡ run p.fl start empty
      → counter_at n l (handle_all p crow files wc wh calls s).metrics ≡ some c
      → let now : Registry p.fl.Double = (handle_all p crow files wc wh calls s).metrics in
        Contains
          (n << Labels.to_string l << " " << p.fl.fixed 0 (value_at p.fl n l now) << "\n")
          (get_metrics p.fl wc wh now).body
  get_metrics-exposed start calls s n l c started there =
      let e = handle_all-Effects calls s in
      let history : (handle_all p crow files wc wh calls s).metrics
          ≡ run p.fl (start ++ e.events) empty =
        e.reported ∙ ap (run p.fl e.events) started ∙ sym (run-append p.fl start e.events empty) in
      rw history (
        unfold get_metrics in
        run-exposed p.fl wc wh n l c (start ++ e.events) (rw history at there))
