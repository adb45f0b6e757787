-- ===== src/WebServer/Counted/Scraped.antt =====
-- What a reader of "/metrics" sees after a sequence of requests.
use computer_service_system.Common.{String, List, [], ◌∷◌, ◌++◌, map, Option, none, some, ◌≡◌, All}
use computer_service_system.Std.OrderedMap.{OrderedMap}
use computer_service_system.Std.HashMap.{Walk}
use computer_service_system.Std.Lines.{lines}
use computer_service_system.Std.Held.{All-append}
use computer_service_system.Metrics.Labels.{Labels}
use computer_service_system.Metrics.Counter.{Counter}
use computer_service_system.Metrics.Histogram.{Histogram}
use computer_service_system.Metrics.Registry.{Registry, empty}
use computer_service_system.Metrics.Registry.History.{Event, run}
use computer_service_system.Metrics.Registry.Document.{show, document}
use computer_service_system.Metrics.Registry.Document.Plain.{IsLine}
use computer_service_system.Metrics.Registry.Document.Events.{PlainEvent}
use computer_service_system.Metrics.Registry.Document.Read.{run-lines}
use computer_service_system.WebServer.{Platform, Server, Request}
use computer_service_system.WebServer.Answers.{Dumps}
use computer_service_system.WebServer.Files.{FileSystem, get_metrics}
use computer_service_system.WebServer.Routes.{Rule, routes, Crow, Call, handle, handle_all}
use computer_service_system.WebServer.Counted.{named}
use computer_service_system.WebServer.Counted.Trace.{events_of, all_events, handle_all-history}
use computer_service_system.WebServer.Counted.Handlers.{respond-Counts}

module _ (p : Platform) (crow : Crow) (files : FileSystem)
    (wc : Walk (OrderedMap Labels (Counter p.fl.Double)))
    (wh : Walk (OrderedMap Labels (Histogram p.fl.Double))) where
  open p.fl use {Double}

  abbrev name_in : Option (Rule × String) → Request → String
  name_in none req = ""
  name_in (some (r, arg)) req = named p r.endpoint req

  -- The names that the logins among the calls are counted under hold no line feed.
  abbrev pub NamesAreLines : List Call → Type 0
  NamesAreLines calls =
      All (λ call. IsLine (name_in (crow.choose routes call.method call.url) call.request)) calls

  module _ (dumps : Dumps p) where
    events_of-plain :
        (o : Option (Rule × String)) (req : Request) (s : Server p)
        → IsLine (name_in o req)
        → All PlainEvent (events_of p crow files wc wh dumps o req s)
    unfolding events_of
    events_of-plain none req s line = tt
    events_of-plain (some (r, arg)) req s line =
        (respond-Counts p dumps req s crow files wc wh r.endpoint arg).plain line

    -- The events of the calls hold no line feed either.
    all_events-plain :
        (calls : List Call) (s : Server p)
        → NamesAreLines calls
        → All PlainEvent (all_events p crow files wc wh dumps calls s)
    unfolding all_events
    all_events-plain [] s lines_only = tt
    all_events-plain (call ∷ calls) s lines_only =
        All-append PlainEvent _ _
          (events_of-plain (crow.choose routes call.method call.url) call.request s lines_only.0)
          (all_events-plain calls (handle p crow files wc wh call s).1 lines_only.1)

    -- After any sequence of requests to a server whose registry has seen any history, a reader that
    -- takes the answer to a scrape apart at its line feeds gets exactly these lines, and no others:
    -- of each family its type, its help text if there is one, and one sample for each counter, or
    -- for each histogram one for each bucket, with the number of the values that do not exceed its
    -- bound modulo 2^64, then one for all values, the sum and the count; in the orders in which the
    -- containers are walked. It is supposed that no text of the history and no username of the
    -- logins holds a line feed, and that every response can be written as JSON.
    pub get_metrics-lines :
        (start : List (Event Double)) (calls : List Call) (s : Server p)
        → s.metrics ≡ run p.fl start empty
        → All PlainEvent start
        → NamesAreLines calls
        → let now : Registry Double = (handle_all p crow files wc wh calls s).metrics in
          lines (get_metrics p.fl wc wh now).body ≡ map show (document p.fl wc wh now)
    get_metrics-lines start calls s started before lines_only =
        let events = all_events p crow files wc wh dumps calls s in
        rw (handle_all-history p crow files wc wh dumps start calls s started) (
          unfold get_metrics in
          run-lines p.fl wc wh (start ++ events)
            (All-append PlainEvent start events before (all_events-plain calls s lines_only)))
