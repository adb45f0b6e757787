-- ===== src/WebServer/Counted/Attempts.antt =====
-- Who logged in, by the metrics.
use computer_service_system.Common.{ℕ, ◌+◌, String, List, [], ◌∷◌, Bool, Option, some}
use computer_service_system.Std.OrderedMap.{OrderedMap}
use computer_service_system.Std.HashMap.{Walk}
use computer_service_system.Metrics.Labels.{Labels}
use computer_service_system.Metrics.Counter.{Counter}
use computer_service_system.Metrics.Histogram.{Histogram}
use computer_service_system.WebServer.{Platform, Server, Request}
use computer_service_system.WebServer.Answers.{code_of}
use computer_service_system.WebServer.Files.{FileSystem}
use computer_service_system.WebServer.Routes.{Rule, routes, Crow, Call, handle}
use computer_service_system.WebServer.Counted.{tries}

module _ (p : Platform) (crow : Crow) (files : FileSystem)
    (wc : Walk (OrderedMap Labels (Counter p.fl.Double)))
    (wh : Walk (OrderedMap Labels (Histogram p.fl.Double))) (username : String)
    (success : Bool) where
  open p.fl use {Double, thousandths}

  abbrev is_try : Option (Rule × String) → Request → Option ℕ → ℕ
  is_try (some (r, arg)) req (some code) = tries p r.endpoint req code username success
  is_try _ req code = 0

  -- How many of the calls are logins under this name that are answered with 200, or that are not.
  abbrev pub logins : List Call → Server p → ℕ
  logins [] s = 0
  logins (call ∷ calls) s =
      let (r, s') = handle p crow files wc wh call s in
      is_try (crow.choose routes call.method call.url) call.request (code_of r) + logins calls s'
