-- ===== src/WebServer/Counted/Simple.antt =====
-- What the handlers count that always answer with 200.
use computer_service_system.Common.{ℕ, String, List, [], ◌∷◌, Bool, true, false, ◌≡◌, refl, inl}
use computer_service_system.Exec.{ok, catching-ok}
use computer_service_system.Metrics.Registry.History.{Event, http_request, db_operation, apply, run}
use computer_service_system.Metrics.Registry.Document.Events.{
  are_plain_events, are_plain_events-All,
}
use computer_service_system.Database.{test_connection}
use computer_service_system.WebServer.{Platform, Server, Request, json_response}
use computer_service_system.WebServer.Answers.{Dumps}
use computer_service_system.WebServer.Session.{test_db, logout}
use computer_service_system.WebServer.Devices.{get_devices, get_service_types}
use computer_service_system.WebServer.Service.{get_service_history, get_service_records}
use computer_service_system.WebServer.Reads.{listing}
use computer_service_system.WebServer.Routes.{
  Endpoint, check_db, log_out, list_devices, list_types, list_history, list_records,
}
use computer_service_system.WebServer.Counted.{
  Counts, IsCounted, requests, failures, refusals, attempts, tries,
}

module _ (p : Platform) where
  open p.fl use {Double}
  open p.js use {Value}

  pub test_connection-ok : (w : p.db.World) → (b : Bool) × ((test_connection p.db w).0 ≡ ok b)
  unfolding test_connection
  test_connection-ok w = catching-ok _ false _

  -- A handler that counts its one request with the code of the answer, and no failed login.
  module _ (dumps : Dumps p) (req : Request) (s : Server p) where
    -- The handler ends with a response, after it has reported some events.
    answers-Counts :
        (e : Endpoint) (code : ℕ) (events : List (Event Double)) (v : Value) (s' : Server p)
        → s'.metrics ≡ run p.fl events s.metrics
        → IsCounted e code (requests events)
        → failures events ≡ refusals e code
        → are_plain_events events ≡ true
        → ((username : String) (success : Bool)
            → attempts username success events ≡ tries p e req code username success)
        → Counts p e req s (json_response p code v s')
    unfolding json_response
    answers-Counts e code events v s' reported counted refused plain tried =
        rw (dumps v).1 (record {
          code = code;
          events = events;
          answers = (refl, reported);
          counted = counted;
          refused = refused;
          plain = λ named. are_plain_events-All events plain;
          tried = tried;
        })

    pub test_db-Counts : Counts p check_db req s (test_db p req s)
    unfolding test_db run apply
    test_db-Counts =
        let (connected, answered) = test_connection-ok s.database in
        rw answered (
          answers-Counts check_db 200
            (http_request _ _ _ _ ∷ db_operation "test_connection" connected ∷ []) _ _ refl
            (200, refl, inl refl) refl refl (λ u b. refl))

    pub logout-Counts : Counts p log_out req s (logout p req s)
    unfolding logout run apply
    logout-Counts =
        answers-Counts log_out 200 (http_request _ _ _ _ ∷ db_operation "logout" true ∷ []) _ _ refl
          (200, refl, inl refl) refl refl (λ u b. refl)

    pub get_devices-Counts : Counts p list_devices req s (get_devices p req s)
    unfolding get_devices run apply
    get_devices-Counts =
        answers-Counts list_devices 200 (listing p "/api/devices" "get_devices" req) _ _ refl
          (200, refl, inl refl) refl refl (λ u b. refl)

    pub get_service_types-Counts : Counts p list_types req s (get_service_types p req s)
    unfolding get_service_types run apply
    get_service_types-Counts =
        answers-Counts list_types 200 (listing p "/api/service-types" "get_service_types" req) _ _
          refl (200, refl, inl refl) refl refl (λ u b. refl)

    pub get_service_history-Counts : Counts p list_history req s (get_service_history p req s)
    unfolding get_service_history run apply
    get_service_history-Counts =
        answers-Counts list_history 200 (listing p "/api/service-history" "get_service_history" req)
          _ _ refl (200, refl, inl refl) refl refl (λ u b. refl)

    pub get_service_records-Counts : Counts p list_records req s (get_service_records p req s)
    unfolding get_service_records run apply
    get_service_records-Counts =
        answers-Counts list_records 200 (listing p "/api/service-records" "get_service_records" req)
          _ _ refl (200, refl, inl refl) refl refl (λ u b. refl)
