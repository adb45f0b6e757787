-- ===== src/WebServer/Counted/Trace.antt =====
-- The events that a sequence of requests reports, request by request.
use computer_service_system.Common.{
  String, List, [], ◌∷◌, ◌++◌, Option, none, some, ◌≡◌, refl, sym, ap, ◌∙◌,
}
use computer_service_system.Std.OrderedMap.{OrderedMap}
use computer_service_system.Std.HashMap.{Walk}
use computer_service_system.Metrics.Labels.{Labels}
use computer_service_system.Metrics.Counter.{Counter}
use computer_service_system.Metrics.Histogram.{Histogram}
use computer_service_system.Metrics.Registry.{empty}
use computer_service_system.Metrics.Registry.History.{Event, run}
use computer_service_system.Metrics.Registry.Append.{run-append}
use computer_service_system.WebServer.{Platform, Server, Request}
use computer_service_system.WebServer.Answers.{Dumps}
use computer_service_system.WebServer.Files.{FileSystem}
use computer_service_system.WebServer.Routes.{
  Rule, routes, Crow, Call, dispatch, handle, handle_all,
}
use computer_service_system.WebServer.Counted.Handlers.{respond-Counts}

module _ (p : Platform) (crow : Crow) (files : FileSystem)
    (wc : Walk (OrderedMap Labels (Counter p.fl.Double)))
    (wh : Walk (OrderedMap Labels (Histogram p.fl.Double))) (dumps : Dumps p) where
  open p.fl use {Double}

  -- The events of one request, and of all of them.
  unfoldable pub events_of : Option (Rule × String) → Request → Server p → List (Event Double)
  events_of none req s = []
  events_of (some (r, arg)) req s =
      (respond-Counts p dumps req s crow files wc wh r.endpoint arg).events

  unfoldable pub all_events : List Call → Server p → List (Event Double)
  all_events [] s = []
  all_events (call ∷ calls) s =
      events_of (crow.choose routes call.method call.url) call.request s
      ++ all_events calls (handle p crow files wc wh call s).1

  dispatch-events :
      (o : Option (Rule × String)) (req : Request) (s : Server p)
      → (dispatch p crow files wc wh o req s).1.metrics ≡ run p.fl (events_of o req s) s.metrics
  unfolding dispatch run events_of
  dispatch-events none req s = refl
  dispatch-events (some (r, arg)) req s =
      (respond-Counts p dumps req s crow files wc wh r.endpoint arg).answers.1

  pub handle_all-events :
      (calls : List Call) (s : Server p)
      → (handle_all p crow files wc wh calls s).metrics ≡ run p.fl (all_events calls s) s.metrics
  unfolding handle_all handle run all_events
  handle_all-events [] s = refl
  handle_all-events (call ∷ calls) s =
      let chosen = crow.choose routes call.method call.url in
      let rest = all_events calls (handle p crow files wc wh call s).1 in
      handle_all-events calls (handle p crow files wc wh call s).1
      ∙ ap (run p.fl rest) (dispatch-events chosen call.request s)
      ∙ sym (run-append p.fl (events_of chosen call.request s) rest s.metrics)

  -- The history of the registry goes on with the events of the calls.
  pub handle_all-history :
      (start : List (Event Double)) (calls : List Call) (s : Server p)
      → s.metrics ≡ run p.fl start empty
      → (handle_all p crow files wc wh calls s).metrics
        ≡ run p.fl (start ++ all_events calls s) empty
  handle_all-history start calls s started =
      handle_all-events calls s
      ∙ ap (run p.fl (all_events calls s)) started
      ∙ sym (run-append p.fl start (all_events calls s) empty)
