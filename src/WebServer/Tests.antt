-- ===== src/WebServer/Tests.antt =====
-- The theorems on the handlers, on a concrete platform.
use computer_service_system.Common.{
  none, some, ℕ, String, refl, List, [], ◌∷◌, map, false, if◌then◌else◌, str_eq, pos,
}
use computer_service_system.Exec.{Result, ok, throws}
use computer_service_system.Std.Floating.{milli}
use computer_service_system.Json.{Json}
use computer_service_system.Database.{ServiceRecord}
use computer_service_system.Database.Tests.{book, book_transactions, started}
use computer_service_system.Logger.Tests.{desk, opened}
use computer_service_system.Metrics.Registry.{empty}
use computer_service_system.Metrics.Registry.History.{Event, http_request, db_operation}
use computer_service_system.WebServer.{Platform, Server, Request, Response}
use computer_service_system.WebServer.Session.{login, test_db}
use computer_service_system.WebServer.Devices.{get_devices, get_service_types}
use computer_service_system.WebServer.Service.{
  get_service_history, get_service_records, read_record, post_service_history,
}
use computer_service_system.WebServer.Answers.{Keeps}
use computer_service_system.WebServer.Login
use computer_service_system.WebServer.Login.{login-Outcome}
use computer_service_system.WebServer.Reads.{Lists, listing, listing_handlers-Lists}
use computer_service_system.WebServer.Files.{FileSystem}
use computer_service_system.WebServer.Outage.{Tells, outage-Tells}
use computer_service_system.WebServer.Stored
use computer_service_system.WebServer.Stored.{creation, post_service_history-Outcome}

-- Objects with texts for fields; a text is an object with one field. A few bodies can be parsed.
abbrev pub Fields : Type 0
Fields = List (String × String)

abbrev pub head_text : Fields → String
head_text [] = "null"
head_text ((key, text) ∷ v) = text

abbrev pub member : Fields → String → Fields
member [] key = []
member ((name, text) ∷ v) key =
    let rest = member v key in if str_eq name key then ("", text) ∷ [] else rest

abbrev pub parse_body : String → Result Fields
parse_body body =
    if str_eq body "admin"
    then ok (("username", "admin") ∷ ("password", "admin123") ∷ [])
    else if str_eq body "record"
    then ok (("service_date", "2025-01-02") ∷ ("notes", "cleaned") ∷ ("next_due_date", "") ∷ [])
    else if str_eq body "config"
    then ok (("database", "db") ∷ ("server", "8080") ∷ [])
    else throws "parse error"

abbrev pub toy_json : Json ℕ
toy_json = record {
  Value = Fields;
  parse = parse_body;
  at = λ v key. ok (member v key);
  get_string = λ v. ok (head_text v);
  get_int = λ v. ok (pos 3);
  get_double = λ v. ok 1500;
  object = map (λ f. (f.0, head_text f.1));
  array = λ vs. [];
  str = λ text. ("", text) ∷ [];
  int = λ n. ("", "3") ∷ [];
  double = λ d. ("", "1.5") ∷ [];
  bool = λ b. ("", if b then "true" else "false") ∷ [];
  dump = λ v. ok (head_text v);
}

abbrev pub toy : Platform
toy = record { fl = milli; host = desk; db = book; js = toy_json }

abbrev pub server : Server toy
server = record { metrics = empty; logger = opened; database = started }

abbrev pub request : String → Request
request body = record {
  body = body;
  remote_ip_address = "10.0.0.7";
  duration_ms = pos 4;
  time = pos 1700000000;
}

login-Outcome_example :
    Login.Outcome toy (request "admin") server
    × Keeps toy server (login toy (request "admin") server)
login-Outcome_example = login-Outcome toy (request "admin") server

abbrev cleaning : ServiceRecord ℕ
cleaning = record {
  id = pos 0;
  device_id = pos 3;
  service_id = pos 3;
  service_date = "2025-01-02";
  cost = 1500;
  notes = "cleaned";
  next_due_date = "";
}

post_service_history-Outcome_example :
    Stored.Outcome toy book_transactions (request "record") server
post_service_history-Outcome_example =
    post_service_history-Outcome toy book_transactions (request "record") server

-- A server that has lost its database.
abbrev lost : Server toy
lost = record server { database = record started { is_up = false } }

abbrev Told : List (String × String) → List (Event ℕ) → Result Response × Server toy → Type 0
Told v events after = Tells toy (λ v. (head_text v, refl)) 200 v events lost after

outage-Tells_example :
    let req : Request = request "record" in
    Told [] (listing toy "/api/devices" "get_devices" req) (get_devices toy req lost)
    × Told []
        (listing toy "/api/service-types" "get_service_types" req)
        (get_service_types toy req lost)
    × Told []
        (listing toy "/api/service-history" "get_service_history" req)
        (get_service_history toy req lost)
    × Told []
        (listing toy "/api/service-records" "get_service_records" req)
        (get_service_records toy req lost)
    × Told
        (("success", "false") ∷ [])
        (creation toy false 400 req)
        (post_service_history toy req lost)
    × Told
        (("database_connected", "false") ∷ ("timestamp", "3") ∷ [])
        (http_request "GET" "/api/test-db" 200 4 ∷ db_operation "test_connection" false ∷ [])
        (test_db toy req lost)
unfolding read_record
outage-Tells_example =
    outage-Tells toy (λ v. (head_text v, refl)) (request "record") lost "broken" cleaning refl refl

listing_handlers-Lists_example :
    Lists toy book_transactions "/api/devices" "get_devices"
      (request "")
      server
      (get_devices toy (request "") server)
    × Lists toy book_transactions "/api/service-types" "get_service_types"
        (request "")
        server
        (get_service_types toy (request "") server)
    × Lists toy book_transactions "/api/service-history" "get_service_history"
        (request "")
        server
        (get_service_history toy (request "") server)
    × Lists toy book_transactions "/api/service-records" "get_service_records"
        (request "")
        server
        (get_service_records toy (request "") server)
listing_handlers-Lists_example =
    listing_handlers-Lists toy book_transactions (request "") server (λ v. (head_text v, refl))
      (λ sql w is_select. refl)

abbrev pub one_file : FileSystem
one_file path = if str_eq path "config.json" then some "config" else none
