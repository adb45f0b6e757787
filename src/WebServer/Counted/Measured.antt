-- ===== src/WebServer/Counted/Measured.antt =====
-- The durations that any sequence of requests leaves in the histogram.
use computer_service_system.Common.{
  suc, ◌+◌, ◌%◌, ◌^◌, List, [], ◌∷◌, ◌++◌, some, ◌≡◌, refl, ap, ◌∙◌, length, length-append,
}
use computer_service_system.Std.OrderedMap.{OrderedMap}
use computer_service_system.Std.HashMap.{Walk}
use computer_service_system.Metrics.Labels.{Labels}
use computer_service_system.Metrics.Counter.{Counter}
use computer_service_system.Metrics.Histogram.{Histogram}
use computer_service_system.Metrics.Registry.{empty}
use computer_service_system.Metrics.Registry.History.{
  Event, initializes, http_request, db_operation, auth_attempt, device_operation, service_operation,
  durations, run,
}
use computer_service_system.Metrics.Registry.Durations.{seen, duration_histogram, histogram-run}
use computer_service_system.WebServer.{Platform, Server}
use computer_service_system.WebServer.Answers.{Dumps}
use computer_service_system.WebServer.Files.{FileSystem}
use computer_service_system.WebServer.Routes.{Crow, Call, handle_all}
use computer_service_system.WebServer.Counted.{requests}
use computer_service_system.WebServer.Counted.Trace.{all_events, handle_all-history}
use computer_service_system.WebServer.Counted.Sequence.{requests-append, all_api_calls, tally}

-- Each request has one duration.
length-durations :
    {Double : Type 0} (es : List (Event Double)) → length (durations es) ≡ length (requests es)
length-durations [] = refl
length-durations (initializes ∷ es) = length-durations es
length-durations (http_request method path status seconds ∷ es) =
    ap (λ n. suc n) (length-durations es)
length-durations (db_operation operation success ∷ es) = length-durations es
length-durations (auth_attempt username success ∷ es) = length-durations es
length-durations (device_operation operation device_id success ∷ es) = length-durations es
length-durations (service_operation operation record_id success ∷ es) = length-durations es

module _ (p : Platform) (crow : Crow) (files : FileSystem)
    (wc : Walk (OrderedMap Labels (Counter p.fl.Double)))
    (wh : Walk (OrderedMap Labels (Histogram p.fl.Double))) (dumps : Dumps p) where
  open p.fl use {Double}

  -- After any sequence of requests to a server whose registry was initialized at its start and has
  -- seen any history, the duration histogram is there, and the number of its values is that of the
  -- requests of that history and, added to them, exactly the calls of the API, whatever they were
  -- answered; its count is that number modulo 2^64. It is supposed that every response can be
  -- written as JSON.
  pub api_calls-measured :
      (start : List (Event Double)) (calls : List Call) (s : Server p)
      → s.metrics ≡ run p.fl (initializes ∷ start) empty
      → (h : Histogram Double) × (duration_histogram p.fl
            (handle_all p crow files wc wh calls s).metrics
          ≡ some h)
        × (h.count ≡ (length (requests start) + all_api_calls p crow files wc wh calls) % 2 ^ 64)
        × (length h.values ≡ length (requests start) + all_api_calls p crow files wc wh calls)
  api_calls-measured start calls s started =
      let events = all_events p crow files wc wh dumps calls s in
      let total : length (durations (start ++ events))
          ≡ length (requests start) + all_api_calls p crow files wc wh calls =
        length-durations (start ++ events)
        ∙ ap length (requests-append start events)
        ∙ length-append (requests start) (requests events)
        ∙ ap (λ n. length (requests start) + n) (tally p crow files wc wh dumps calls s).1 in
      (
        seen p.fl (durations (start ++ events)),
        ap (duration_histogram p.fl)
              (handle_all-history p crow files wc wh dumps (initializes ∷ start) calls s started)
            ∙ histogram-run p.fl (start ++ events),
        ap (λ n. n % 2 ^ 64) total,
        total,
      )
