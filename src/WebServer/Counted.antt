-- ===== src/WebServer/Counted.antt =====
-- The requests that the registry counts, against the answers that the clients get.
pub mod Quiet
pub mod Names
pub mod Simple
pub mod Handlers
pub mod Sequence
pub mod Measured
pub mod Trace
pub mod Attempts
pub mod Scraped
pub mod Tests
use computer_service_system.Common.{
  ℕ, String, List, [], ◌∷◌, Bool, true, false, not, str_eq, ◌&&◌, Option, none, some, ◌==◌, ◌≡◌,
  ◌⊎◌, if◌then◌else◌, All,
}
use computer_service_system.Exec.{Result, ok, throws}
use computer_service_system.Metrics.Registry.Record.{auth_labels}
use computer_service_system.Metrics.Registry.History.{Event, http_request, hits, all_places}
use computer_service_system.WebServer.{Platform, Server, Request, Response}
use computer_service_system.Metrics.Registry.Document.Plain.{IsLine}
use computer_service_system.Metrics.Registry.Document.Events.{PlainEvent}
use computer_service_system.WebServer.Session.{read_login}
use computer_service_system.WebServer.Answers.{Answers}
use computer_service_system.WebServer.Routes.{
  Endpoint, scrape, index, file, check_db, log_in, log_out, list_devices, add_device, list_types,
  list_history, add_record, list_records,
}

-- The method and the path that a handler counts its requests under; the pages and the scrape are
-- not counted.
abbrev pub counted_as : Endpoint → Option (String × String)
counted_as scrape = none
counted_as index = none
counted_as file = none
counted_as check_db = some ("GET", "/api/test-db")
counted_as log_in = some ("POST", "/api/login")
counted_as log_out = some ("POST", "/api/logout")
counted_as list_devices = some ("GET", "/api/devices")
counted_as add_device = some ("POST", "/api/devices")
counted_as list_types = some ("GET", "/api/service-types")
counted_as list_history = some ("GET", "/api/service-history")
counted_as add_record = some ("POST", "/api/service-history")
counted_as list_records = some ("GET", "/api/service-records")

-- Method, path and status of the requests among some events, oldest first.
abbrev pub requests : {Double : Type 0} → List (Event Double) → List (String × String × ℕ)
requests [] = []
requests (http_request method path status seconds ∷ es) = (method, path, status) ∷ requests es
requests (_ ∷ es) = requests es

-- A request to this handler, answered with this code, is counted once, with the code as its status;
-- only a record that was not stored is counted with 400 and answered with 200.
abbrev pub IsCounted : Endpoint → ℕ → List (String × String × ℕ) → Type 0
IsCounted e code counted = elim (counted_as e) [
  | none ↦ counted ≡ []
  | some (method, path) ↦
      (status : ℕ) × (counted ≡ (method, path, status) ∷ [])
      × ((status ≡ code) ⊎ ((e ≡ add_record) × (status ≡ 400) × (code ≡ 200)))
]

-- One for a handler of the API.
abbrev pub api_calls : Endpoint → ℕ
api_calls e = elim (counted_as e) [ none ↦ 0 | some place ↦ 1 ]

-- Logins that are not answered with 200.
abbrev pub refusals : Endpoint → ℕ → ℕ
refusals log_in code = if code == 200 then 0 else 1
refusals _ code = 0

-- How often some events count among the failed logins.
abbrev pub failures : {Double : Type 0} → List (Event Double) → ℕ
failures es = hits "auth_failures_total" [] (all_places es)

-- The name that a login is counted under.
abbrev pub name_of : Result (String × String) → String
name_of (ok (username, password)) = username
name_of (throws what) = "unknown"

abbrev pub named : (p : Platform) → Endpoint → Request → String
named p log_in req = name_of (read_login p req.body)
named p _ req = ""

-- How often some events count among the logins of a name, with this success.
abbrev pub attempts : {Double : Type 0} → String → Bool → List (Event Double) → ℕ
attempts username success es =
    hits "auth_attempts_total" (auth_labels username success) (all_places es)

abbrev pub same_bool : Bool → Bool → Bool
same_bool true b = b
same_bool false b = not b

-- One for a login that is counted under the name, and is answered with 200 or is not.
abbrev pub tries : (p : Platform) → Endpoint → Request → ℕ → String → Bool → ℕ
tries p log_in req code username success =
    if str_eq (named p log_in req) username && same_bool (code == 200) success then 1 else 0
tries p _ req code username success = 0

-- What a handler answers and counts.
pub record Counts (p : Platform) (e : Endpoint) (req : Request) (s : Server p)
    (after : Result Response × Server p) : Type 0 where
  pub code : ℕ
  pub events : List (Event p.fl.Double)
  pub answers : Answers p code events s after
  pub counted : IsCounted e code (requests events)
  pub refused : failures events ≡ refusals e code
  pub plain : IsLine (named p e req) → All PlainEvent events
  pub tried :
      (username : String) (success : Bool)
      → attempts username success events ≡ tries p e req code username success
