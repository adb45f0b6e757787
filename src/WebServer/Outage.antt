-- ===== src/WebServer/Outage.antt =====
-- What the clients are told while the database cannot begin a transaction, as after its connection
-- is lost.
use computer_service_system.Common.{ℕ, String, List, [], ◌∷◌, false, ◌≡◌, refl}
use computer_service_system.Exec.{Result, ok, throws}
use computer_service_system.Database.{ServiceRecord, transaction, test_connection}
use computer_service_system.Database.Write.{run_statement}
use computer_service_system.Database.Read.{query, fetch}
use computer_service_system.Metrics.Registry.History.{Event, http_request, db_operation, apply, run}
use computer_service_system.WebServer.{
  Platform, Server, Request, Response, json_headers, json_response,
}
use computer_service_system.WebServer.Session.{test_db}
use computer_service_system.WebServer.Devices.{get_devices, get_service_types}
use computer_service_system.WebServer.Service.{
  get_service_history, post_service_history, get_service_records, read_record, store_record,
}
use computer_service_system.WebServer.Answers.{Dumps}
use computer_service_system.WebServer.Reads.{listing}
use computer_service_system.WebServer.Stored.{creation}

module _ (p : Platform) (dumps : Dumps p) where
  open p.js use {Value, object, array, bool, int}

  -- The handler answers with a value, leaves the registry as after these events, and has only tried
  -- to begin a transaction.
  abbrev pub Tells :
      ℕ → Value → List (Event p.fl.Double) → Server p → Result Response × Server p → Type 0
  Tells code v events s (r, s') =
      (r ≡ ok (record { code = code; headers = json_headers; body = (dumps v).0 }))
      × (s'.metrics ≡ run p.fl events s.metrics)
      × (s'.database ≡ (p.db.begin s.database).1)

  -- While the database cannot begin a transaction, the clients see no failure in the code: the four
  -- listings answer 200 with an empty array, and count a success of the database; a record that was
  -- read is answered with 200 and success false, counted as a failure with status 400; the test of
  -- the database says that it is not connected. It is supposed that every response can be written
  -- as JSON.
  pub outage-Tells :
      (req : Request) (s : Server p) (what : String) (r : ServiceRecord p.fl.Double)
      → (p.db.begin s.database).0 ≡ throws what
      → read_record p req.body s ≡ (ok r, s)
      → Tells 200 (array []) (listing p "/api/devices" "get_devices" req) s (get_devices p req s)
        × Tells 200
            (array [])
            (listing p "/api/service-types" "get_service_types" req)
            s
            (get_service_types p req s)
        × Tells 200
            (array [])
            (listing p "/api/service-history" "get_service_history" req)
            s
            (get_service_history p req s)
        × Tells 200
            (array [])
            (listing p "/api/service-records" "get_service_records" req)
            s
            (get_service_records p req s)
        × Tells 200
            (object (("success", bool false) ∷ []))
            (creation p false 400 req)
            s
            (post_service_history p req s)
        × Tells 200
            (object (("database_connected", bool false) ∷ ("timestamp", int req.time) ∷ []))
            (http_request "GET" "/api/test-db" 200 (p.fl.of_ms req.duration_ms)
              ∷ db_operation "test_connection" false
              ∷ [])
            s
            (test_db p req s)
  unfolding get_devices get_service_types get_service_history get_service_records
      post_service_history store_record test_db test_connection run_statement transaction fetch
      query json_response run apply
  outage-Tells req s what r refused read = (
    rw refused (rw (dumps _).1 (refl, refl, refl)),
    rw refused (rw (dumps _).1 (refl, refl, refl)),
    rw refused (rw (dumps _).1 (refl, refl, refl)),
    rw refused (rw (dumps _).1 (refl, refl, refl)),
    rw read (rw refused (rw (dumps _).1 (refl, refl, refl))),
    rw refused (rw (dumps _).1 (refl, refl, refl)),
  )
