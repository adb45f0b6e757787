-- ===== src/WebServer/Logged/Sequence.antt =====
-- The requests that any sequence of calls counts.
use computer_service_system.Common.{
  ℕ, String, List, [], ◌∷◌, ◌++◌, Option, none, some, ◌≡◌, refl, sym, ap, ◌∙◌,
}
use computer_service_system.Std.OrderedMap.{OrderedMap}
use computer_service_system.Std.HashMap.{Walk}
use computer_service_system.Metrics.Labels.{Labels}
use computer_service_system.Metrics.Counter.{Counter}
use computer_service_system.Metrics.Histogram.{Histogram}
use computer_service_system.Metrics.Registry.History.{Event, run}
use computer_service_system.Metrics.Registry.Append.{run-append}
use computer_service_system.WebServer.{Platform, Server, Request}
use computer_service_system.WebServer.Answers.{code_of}
use computer_service_system.WebServer.Files.{FileSystem}
use computer_service_system.WebServer.Routes.{
  Rule, routes, Crow, Call, dispatch, handle, handle_all,
}
use computer_service_system.WebServer.Counted.{requests}
use computer_service_system.WebServer.Counted.Sequence.{requests-append}
use computer_service_system.WebServer.Logged.{IsDue}
use computer_service_system.WebServer.Logged.Handlers.{respond-Logs}

module _ (p : Platform) (crow : Crow) (files : FileSystem)
    (wc : Walk (OrderedMap Labels (Counter p.fl.Double)))
    (wh : Walk (OrderedMap Labels (Histogram p.fl.Double))) where
  open p.fl use {Double}

  abbrev chosen : Call → Option (Rule × String)
  chosen call = crow.choose routes call.method call.url

  -- What a call counts: as its handler does, and nothing where Crow found no rule.
  abbrev pub IsLogged :
      Option (Rule × String) → Request → Server p → Option ℕ → List (String × String × ℕ) → Type 0
  IsLogged none req s code counted = counted ≡ []
  IsLogged (some (r, arg)) req s code counted = IsDue p r.endpoint req s code counted

  -- The list of what the calls count, one after the other.
  abbrev pub Logged : List Call → Server p → List (String × String × ℕ) → Type 0
  Logged [] s counted = counted ≡ []
  Logged (call ∷ calls) s counted =
      let (r, s') = handle p crow files wc wh call s in
      (own : List (String × String × ℕ)) × (rest : List (String × String × ℕ)) × (counted
        ≡ own ++ rest)
      × IsLogged (chosen call) call.request s (code_of r) own
      × Logged calls s' rest

  dispatch-IsLogged :
      (o : Option (Rule × String)) (req : Request) (s : Server p)
      → let (r, s') = dispatch p crow files wc wh o req s in
        (events : List (Event Double)) × (s'.metrics ≡ run p.fl events s.metrics)
        × IsLogged o req s (code_of r) (requests events)
  unfolding dispatch run
  dispatch-IsLogged none req s = ([], refl, refl)
  dispatch-IsLogged (some (r, arg)) req s =
      let logs = respond-Logs p req s crow files wc wh r.endpoint arg in
      (logs.events, logs.reported, logs.due)

  -- The requests that any sequence of calls counts are those that were made, in their order,
  -- whatever rule Crow takes for each. A handler without a catch block counts its request once,
  -- with the method and the path of its route and its status, which is the code of the answer
  -- unless an exception leaves the handler. A login is counted with 200 if its name and password
  -- are those of an account, with 401 if they are others and with 400 if they cannot be read; a
  -- record with 200 if the database answers true, with 400 if it answers false and with 400 if it
  -- cannot be read. Either is answered with the status that it is counted with, but for a record
  -- that was read, which is answered with 200; if that reply cannot be written, the catch block
  -- counts the request again, with 400, and refuses it with 400; and no answer is given where the
  -- text of a refusal cannot be written. Pages, scrapes and calls without a rule are not counted.
  pub handle_all-Logged :
      (calls : List Call) (s : Server p)
      → (events : List (Event Double)) × ((handle_all p crow files wc wh calls s).metrics
          ≡ run p.fl events s.metrics)
        × Logged calls s (requests events)
  unfolding handle_all handle run
  handle_all-Logged [] s = ([], refl, refl)
  handle_all-Logged (call ∷ calls) s =
      let (own, reported, logged) = dispatch-IsLogged (chosen call) call.request s in
      let s' = (handle p crow files wc wh call s).1 in
      let (rest, reported', logged') = handle_all-Logged calls s' in
      (
        own ++ rest,
        reported' ∙ ap (run p.fl rest) reported ∙ sym (run-append p.fl own rest s.metrics),
        (requests own, requests rest, requests-append own rest, logged, logged'),
      )
