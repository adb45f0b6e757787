-- ===== src/WebServer.antt =====
-- src/webserver.cpp: the state that the handlers share, requests and responses. A handler is the
-- sequence of its calls on the registry, the logger and the database, each taken whole.
pub mod Files
pub mod Session
pub mod Devices
pub mod Service
pub mod Answers
pub mod Login
pub mod Stored
pub mod Reads
pub mod Start
pub mod Startup
pub mod Routes
pub mod Effects
pub mod Served
pub mod Requests
pub mod Counted
pub mod Logged
pub mod Shapes
pub mod Outage
pub mod Confined
pub mod Main
pub mod Tests
pub mod Blocked
use computer_service_system.Common.{
  ℕ, String, List, [], ◌∷◌, Bool, true, false, Option, none, some, ℤ, if◌then◌else◌, str_eq,
}
use computer_service_system.Exec.{Result, ok, throws, Exec, pure, lift, ◌>>=◌, ◌>>◌}
use computer_service_system.Std.Floating.{Floating}
use computer_service_system.Json.{Json}
use computer_service_system.Logger.{Host, Logger}
use computer_service_system.Database.{Pqxx}
use computer_service_system.Metrics.Registry.{Registry}
use computer_service_system.Metrics.Registry.Record.{record_http_request}

-- What the program runs on.
pub record Platform : Type 1 where
  pub fl : Floating
  pub host : Host
  pub db : Pqxx fl.Double
  pub js : Json fl.Double

pub record Server (p : Platform) : Type 0 where
  pub metrics : Registry p.fl.Double
  pub logger : Logger p.host.World
  pub database : p.db.World

-- A request, with the readings of the clocks that its handler makes: the milliseconds from its
-- start to its end, and `std::time(nullptr)`.
pub record Request : Type 0 where
  pub body : String
  pub remote_ip_address : String
  pub duration_ms : ℤ
  pub time : ℤ

-- `crow::response`; its code is 200 unless one is given.
pub record Response : Type 0 where
  pub code : ℕ
  pub headers : List (String × String)
  pub body : String

-- req.remote_ip_address.empty() ? "unknown" : req.remote_ip_address
abbrev pub client_ip : Request → String
client_ip req = if str_eq req.remote_ip_address "" then "unknown" else req.remote_ip_address

abbrev pub json_headers : List (String × String)
json_headers =
    ("Content-Type", "application/json; charset=utf-8") ∷ ("Access-Control-Allow-Origin", "*") ∷ []

module _ (p : Platform) where
  -- A call on the registry, on the logger and on the database.
  abbrev pub on_metrics : (Registry p.fl.Double → Registry p.fl.Double) → Exec (Server p) (Unit {0})
  on_metrics f s = (ok tt, record s { metrics = f s.metrics })

  abbrev pub on_logger : (Logger p.host.World → Logger p.host.World) → Exec (Server p) (Unit {0})
  on_logger f s = (ok tt, record s { logger = f s.logger })

  abbrev pub on_database : {A : Type 0} → (p.db.World → A × p.db.World) → Exec (Server p) A
  on_database f s = let (a, w) = f s.database in (ok a, record s { database = w })

  abbrev pub on_database_or_throw : {A : Type 0} → Exec p.db.World A → Exec (Server p) A
  on_database_or_throw f s = let (r, w) = f s.database in (r, record s { database = w })

  -- metrics.recordHttpRequest(method, path, status, duration_ms / 1000.0)
  abbrev pub count_request :
      String → String → ℕ → Request → Registry p.fl.Double → Registry p.fl.Double
  count_request method path status req =
      record_http_request p.fl method path status (p.fl.of_ms req.duration_ms)

  -- res.body = value.dump(), with the two headers of an API response
  unfoldable pub json_response : ℕ → p.js.Value → Exec (Server p) Response
  json_response code value = do
    body ← lift (p.js.dump value)
    pure (record { code = code; headers = json_headers; body = body })
