-- ===== src/WebServer/Counted/Sequence.antt =====
-- The failed logins of any sequence of requests, and the number of its calls of the API.
use computer_service_system.Common.{
  ℕ, ◌+◌, String, List, [], ◌∷◌, ◌++◌, Option, none, some, ◌≡◌, refl, ap, ◌∙◌, length,
  length-append,
}
use computer_service_system.Std.OrderedMap.{OrderedMap}
use computer_service_system.Std.HashMap.{Walk}
use computer_service_system.Metrics.Labels.{Labels}
use computer_service_system.Metrics.Counter.{Counter}
use computer_service_system.Metrics.Histogram.{Histogram}
use computer_service_system.Metrics.Registry.History.{
  Event, initializes, http_request, db_operation, auth_attempt, device_operation, service_operation,
}
use computer_service_system.Metrics.Registry.Append.{hits-all_places}
use computer_service_system.WebServer.{Platform, Server, Request}
use computer_service_system.WebServer.Answers.{code_of, Dumps}
use computer_service_system.WebServer.Files.{FileSystem}
use computer_service_system.WebServer.Routes.{
  Endpoint, scrape, index, file, check_db, log_in, log_out, list_devices, add_device, list_types,
  list_history, add_record, list_records, Rule, routes, Crow, Call, dispatch, handle,
}
use computer_service_system.WebServer.Counted.{IsCounted, api_calls, requests, refusals, failures}
use computer_service_system.WebServer.Counted.Handlers.{respond-Counts}
use computer_service_system.WebServer.Counted.Trace.{events_of, all_events}

abbrev pub is_refused : Option (Rule × String) → Option ℕ → ℕ
is_refused (some (r, arg)) (some code) = refusals r.endpoint code
is_refused _ _ = 0

-- The number of what a call counts.
abbrev pub is_api_call : Option (Rule × String) → ℕ
is_api_call none = 0
is_api_call (some (r, arg)) = api_calls r.endpoint

counted-length :
    (e : Endpoint) (code : ℕ) (counted : List (String × String × ℕ))
    → IsCounted e code counted
    → length counted ≡ api_calls e
counted-length scrape code counted h = rw h refl
counted-length index code counted h = rw h refl
counted-length file code counted h = rw h refl
counted-length check_db code counted (status, h, agrees) = rw h refl
counted-length log_in code counted (status, h, agrees) = rw h refl
counted-length log_out code counted (status, h, agrees) = rw h refl
counted-length list_devices code counted (status, h, agrees) = rw h refl
counted-length add_device code counted (status, h, agrees) = rw h refl
counted-length list_types code counted (status, h, agrees) = rw h refl
counted-length list_history code counted (status, h, agrees) = rw h refl
counted-length add_record code counted (status, h, agrees) = rw h refl
counted-length list_records code counted (status, h, agrees) = rw h refl

pub requests-append :
    {Double : Type 0} (es es' : List (Event Double))
    → requests (es ++ es') ≡ requests es ++ requests es'
requests-append [] es' = refl
requests-append (initializes ∷ es) es' = requests-append es es'
requests-append (http_request method path status seconds ∷ es) es' =
    ap (λ rs. (method, path, status) ∷ rs) (requests-append es es')
requests-append (db_operation operation success ∷ es) es' = requests-append es es'
requests-append (auth_attempt username success ∷ es) es' = requests-append es es'
requests-append (device_operation operation device_id success ∷ es) es' = requests-append es es'
requests-append (service_operation operation record_id success ∷ es) es' = requests-append es es'

module _ (p : Platform) (crow : Crow) (files : FileSystem)
    (wc : Walk (OrderedMap Labels (Counter p.fl.Double)))
    (wh : Walk (OrderedMap Labels (Histogram p.fl.Double))) where
  open p.fl use {Double, thousandths}

  abbrev chosen : Call → Option (Rule × String)
  chosen call = crow.choose routes call.method call.url

  -- How many of the calls are logins that are not answered with 200.
  abbrev pub refused_logins : List Call → Server p → ℕ
  refused_logins [] s = 0
  refused_logins (call ∷ calls) s =
      let (r, s') = handle p crow files wc wh call s in
      is_refused (chosen call) (code_of r) + refused_logins calls s'

  abbrev pub all_api_calls : List Call → ℕ
  all_api_calls [] = 0
  all_api_calls (call ∷ calls) = is_api_call (chosen call) + all_api_calls calls

  module _ (dumps : Dumps p) where
    -- What one call counts.
    events_of-tally :
        (o : Option (Rule × String)) (req : Request) (s : Server p)
        → let events : List (Event Double) = events_of p crow files wc wh dumps o req s in
          let code : Option ℕ = code_of (dispatch p crow files wc wh o req s).0 in
          (failures events ≡ is_refused o code) × (length (requests events) ≡ is_api_call o)
    unfolding dispatch events_of
    events_of-tally none req s = (refl, refl)
    events_of-tally (some (r, arg)) req s =
        let c = respond-Counts p dumps req s crow files wc wh r.endpoint arg in
        (rw c.answers.0 c.refused, counted-length r.endpoint c.code (requests c.events) c.counted)

    -- What of the events of some calls counts their requests, and the failed logins.
    abbrev Tally : List Call → Server p → List (Event Double) → Type 0
    Tally calls s events =
        (failures events ≡ refused_logins calls s)
        × (length (requests events) ≡ all_api_calls calls)

    pub tally :
        (calls : List Call) (s : Server p)
        → Tally calls s (all_events p crow files wc wh dumps calls s)
    unfolding handle all_events
    tally [] s = (refl, refl)
    tally (call ∷ calls) s =
        let s' = (handle p crow files wc wh call s).1 in
        let own = events_of p crow files wc wh dumps (chosen call) call.request s in
        let rest = all_events p crow files wc wh dumps calls s' in
        let (own_refused, own_number) = events_of-tally (chosen call) call.request s in
        let (refused, number) = tally calls s' in
        (
          hits-all_places "auth_failures_total" [] own rest ∙ (λ i. own_refused i + refused i),
          ap length (requests-append own rest)
              ∙ length-append (requests own) (requests rest)
              ∙ (λ i. own_number i + number i),
        )
