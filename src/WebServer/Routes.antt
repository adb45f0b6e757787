-- ===== src/WebServer/Routes.antt =====
-- The routes that `setupRoutes` registers, and the handling of a request. Crow is not modelled: which
-- of the registered rules it takes for a request is a parameter, with what its guide says of it.
use computer_service_system.Common.{String, List, [], ◌∷◌, false, Option, none, some, ◌≡◌, ◌⊎◌}
use computer_service_system.Exec.{ok, Exec}
use computer_service_system.Std.OrderedMap.{OrderedMap}
use computer_service_system.Std.HashMap.{Walk}
use computer_service_system.Std.Contains.{Lacks}
use computer_service_system.Metrics.Labels.{Labels}
use computer_service_system.Metrics.Counter.{Counter}
use computer_service_system.Metrics.Histogram.{Histogram}
use computer_service_system.WebServer.{Platform, Server, Request, Response}
use computer_service_system.WebServer.Session.{test_db, login, logout}
use computer_service_system.WebServer.Devices.{get_devices, post_device, get_service_types}
use computer_service_system.WebServer.Service.{
  get_service_history, post_service_history, get_service_records,
}
use computer_service_system.WebServer.Files.{
  FileSystem, has_part, index_page, static_file, get_metrics,
}

-- The twelve handlers.
pub data Endpoint : Type 0 where
  scrape index file check_db log_in log_out list_devices add_device list_types : Endpoint
  list_history add_record list_records : Endpoint

-- CROW_ROUTE(app, path).methods(...); Crow's own choice for a rule without methods is GET.
pub record Rule : Type 0 where
  pub path : String
  pub methods : List String
  pub endpoint : Endpoint

abbrev rule : String → String → Endpoint → Rule
rule path method endpoint = record { path = path; methods = method ∷ []; endpoint = endpoint }

unfoldable pub routes : List Rule
routes =
    rule "/metrics" "GET" scrape
    ∷ rule "/" "GET" index
    ∷ rule "/<string>" "GET" file
    ∷ rule "/api/test-db" "GET" check_db
    ∷ rule "/api/login" "POST" log_in
    ∷ rule "/api/logout" "POST" log_out
    ∷ rule "/api/devices" "GET" list_devices
    ∷ rule "/api/devices" "POST" add_device
    ∷ rule "/api/service-types" "GET" list_types
    ∷ rule "/api/service-history" "GET" list_history
    ∷ rule "/api/service-history" "POST" add_record
    ∷ rule "/api/service-records" "GET" list_records
    ∷ []

abbrev pub In : {A : Type 0} → A → List A → Type 0
In x [] = ⊥
In x (y ∷ ys) = (x ≡ y) ⊎ In x ys

pub record Crow : Type 0 where
  -- the rule for a method and a URL, with the argument of its "<string>", if it has one
  pub choose : List Rule → String → String → Option (Rule × String)
  -- the answer where no rule fits
  pub miss : Response
  pub choose-In :
      (rules : List Rule) (method url : String) (r : Rule) (arg : String)
      → choose rules method url ≡ some (r, arg)
      → In r rules × In method r.methods
  -- a path without parameters stands for itself
  pub choose-path :
      (rules : List Rule) (method url : String) (r : Rule) (arg : String)
      → choose rules method url ≡ some (r, arg)
      → has_part r.path "<" ≡ false
      → url ≡ r.path
  -- a "<string>" takes a part of the path without a slash
  pub choose-arg :
      (rules : List Rule) (method url : String) (r : Rule) (arg : String)
      → choose rules method url ≡ some (r, arg)
      → Lacks b'/' arg

pub record Call : Type 0 where
  pub method : String
  pub url : String
  pub request : Request

module _ (p : Platform) (crow : Crow) (files : FileSystem)
    (wc : Walk (OrderedMap Labels (Counter p.fl.Double)))
    (wh : Walk (OrderedMap Labels (Histogram p.fl.Double))) where
  -- The handler of each route.
  unfoldable pub respond : Endpoint → String → Request → Exec (Server p) Response
  respond scrape arg req = λ s. (ok (get_metrics p.fl wc wh s.metrics), s)
  respond index arg req = λ s. (ok (index_page files), s)
  respond file arg req = λ s. (ok (static_file files arg), s)
  respond check_db arg req = test_db p req
  respond log_in arg req = login p req
  respond log_out arg req = logout p req
  respond list_devices arg req = get_devices p req
  respond add_device arg req = post_device p req
  respond list_types arg req = get_service_types p req
  respond list_history arg req = get_service_history p req
  respond add_record arg req = post_service_history p req
  respond list_records arg req = get_service_records p req

  unfoldable pub dispatch : Option (Rule × String) → Request → Exec (Server p) Response
  unfolding respond
  dispatch none req = λ s. (ok crow.miss, s)
  dispatch (some (r, arg)) req = respond r.endpoint arg req

  unfoldable pub handle : Call → Exec (Server p) Response
  unfolding dispatch
  handle call = dispatch (crow.choose routes call.method call.url) call.request

  -- A sequence of requests, one after the other; an exception that a handler lets out is answered by
  -- Crow and ends nothing.
  unfoldable pub handle_all : List Call → Server p → Server p
  unfolding handle
  handle_all [] s = s
  handle_all (call ∷ calls) s = handle_all calls (handle call s).1
