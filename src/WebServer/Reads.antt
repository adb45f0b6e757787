-- ===== src/WebServer/Reads.antt =====
-- The four handlers that list a table.
use computer_service_system.Common.{String, List, [], ◌∷◌, true, ◌≡◌, refl}
use computer_service_system.Exec.{Result}
use computer_service_system.Database.Atomic.{Transactional}
use computer_service_system.Database.Kept.{fetch-committed}
use computer_service_system.Metrics.Registry.History.{Event, http_request, db_operation, apply, run}
use computer_service_system.WebServer.{Platform, Server, Request, Response, json_response}
use computer_service_system.WebServer.Devices.{get_devices, get_service_types}
use computer_service_system.WebServer.Service.{get_service_history, get_service_records}
use computer_service_system.WebServer.Files.{begins}
use computer_service_system.WebServer.Answers.{Answers, Dumps}

module _ (p : Platform) where
  -- What listing counts: a request with status 200 and a success of the database.
  abbrev pub listing : String → String → Request → List (Event p.fl.Double)
  listing path operation req =
      http_request "GET" path 200 (p.fl.of_ms req.duration_ms) ∷ db_operation operation true ∷ []

  abbrev pub Lists :
      Transactional p.db
      → String
      → String
      → Request
      → Server p
      → Result Response × Server p
      → Type 0
  Lists t path operation req s after =
      Answers p 200 (listing path operation req) s after
      × (t.committed after.1.database ≡ t.committed s.database)

  -- The four handlers that list a table answer with 200, count a request with status 200 and a
  -- success of the database, whether or not the database could be read, and leave the committed
  -- tables as they were. It is supposed that PostgreSQL keeps what it promises of a transaction,
  -- that every response can be written as JSON, and that a SELECT changes nothing that its
  -- transaction sees.
  pub listing_handlers-Lists :
      (t : Transactional p.db)
      → (req : Request) (s : Server p) → Dumps p
      → ((sql : String) (w : p.db.World)
          → begins sql "SELECT " ≡ true
          → t.pending (p.db.exec sql w).1 ≡ t.pending w)
      → Lists t "/api/devices" "get_devices" req s (get_devices p req s)
        × Lists t "/api/service-types" "get_service_types" req s (get_service_types p req s)
        × Lists t "/api/service-history" "get_service_history" req s (get_service_history p req s)
        × Lists t "/api/service-records" "get_service_records" req s (get_service_records p req s)
  unfolding get_devices get_service_types get_service_history get_service_records json_response run
      apply begins
  listing_handlers-Lists t req s dumps reads_only = (
    rw (dumps _).1 ((refl, refl), fetch-committed p.db t _ _ s.database (λ w. reads_only _ w refl)),
    rw (dumps _).1 ((refl, refl), fetch-committed p.db t _ _ s.database (λ w. reads_only _ w refl)),
    rw (dumps _).1 ((refl, refl), fetch-committed p.db t _ _ s.database (λ w. reads_only _ w refl)),
    rw (dumps _).1 ((refl, refl), fetch-committed p.db t _ _ s.database (λ w. reads_only _ w refl)),
  )
