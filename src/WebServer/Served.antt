-- ===== src/WebServer/Served.antt =====
-- What each handler does to the registry and to the tables.
use computer_service_system.Common.{ℕ, List, [], ◌∷◌, String, ◌≡◌, refl, ap, true, false, arith}
use computer_service_system.Exec.{Result, lift, ◌>>=◌}
use computer_service_system.Metrics.Registry.History.{
  Event, http_request, db_operation, auth_attempt, device_operation, service_operation, apply, run,
}
use computer_service_system.Database.{ServiceRecord, test_connection}
use computer_service_system.Database.Write.{add_service_record}
use computer_service_system.Database.Read.{
  get_all_devices, get_all_service_types, get_all_service_records, get_detailed_service_history,
}
use computer_service_system.Database.Atomic.{Transactional}
use computer_service_system.Database.Kept.{fetch-committed, test_connection-committed}
use computer_service_system.WebServer.{
  Platform, Server, Request, on_database_or_throw, json_response,
}
use computer_service_system.WebServer.Session.{
  test_db, login, logout, answer_login, reject_login, read_login,
}
use computer_service_system.WebServer.Devices.{get_devices, post_device, get_service_types}
use computer_service_system.WebServer.Service.{
  get_service_history, post_service_history, get_service_records, read_record, store_record,
  reject_record, field,
}
use computer_service_system.WebServer.Files.{begins}
use computer_service_system.WebServer.Effects.{
  Effects, Does, nothing, bind-Does, try_catch-Does, lift-Does, on_database-Does,
  on_database_or_throw-Does, add_service_record-Does, Effects-trans,
}

module _ (p : Platform) (t : Transactional p.db)
    (reads_only : (sql : String) (w : p.db.World)
      → begins sql "SELECT " ≡ true
      → t.pending (p.db.exec sql w).1 ≡ t.pending w) where
  open p.fl use {Double}
  open p.js use {Value, parse, at, get_string, get_int, get_double}

  json_response-Does : (code : ℕ) (v : Value) → Does p t 0 (json_response p code v)
  unfolding json_response
  json_response-Does code v =
      bind-Does p t (lift (p.js.dump v)) _ (lift-Does p t (p.js.dump v)) (λ body. nothing p t)

  -- A handler that reports some events, logs, and ends with a response.
  answers-Effects :
      (es : List (Event Double)) (code : ℕ) (v : Value) (s s' : Server p)
      → s'.metrics ≡ run p.fl es s.metrics
      → s'.database ≡ s.database
      → Effects p t 0 s (json_response p code v s').1
  answers-Effects es code v s s' metrics database =
      Effects-trans p t {m = 0} {n = 0}
        (record {
          events = es;
          records = [];
          reported = metrics;
          inserted = ap t.committed database;
          few = omega arith;
        })
        (json_response-Does code v s')

  pub test_db-Does : (req : Request) → Does p t 0 (test_db p req)
  unfolding test_db apply run
  test_db-Does req =
      bind-Does p t (on_database_or_throw p (test_connection p.db)) _
        (on_database_or_throw-Does p t (test_connection p.db) (test_connection-committed p.db t))
        (λ connected s.
          answers-Effects (http_request _ _ _ _ ∷ db_operation "test_connection" connected ∷ []) 200
            _ s _ refl refl)

  pub logout-Does : (req : Request) → Does p t 0 (logout p req)
  unfolding logout apply run
  logout-Does req s =
      answers-Effects (http_request _ _ _ _ ∷ db_operation "logout" true ∷ []) 200 _ s _ refl refl

  pub post_device-Does : (req : Request) → Does p t 0 (post_device p req)
  unfolding post_device apply run
  post_device-Does req s =
      answers-Effects (device_operation _ _ _ ∷ http_request _ _ _ _ ∷ []) 403 _ s _ refl refl

  reject_login-Does : (req : Request) (what : String) → Does p t 0 (reject_login p req what)
  unfolding reject_login apply run
  reject_login-Does req what s =
      answers-Effects (auth_attempt "unknown" false ∷ http_request _ _ _ _ ∷ []) 400 _ s _ refl refl

  answer_login-Does :
      (req : Request) (username password : String)
      → Does p t 0 (answer_login p req username password)
  unfolding answer_login apply run
  answer_login-Does req username password s =
      answers-Effects (auth_attempt username _ ∷ http_request _ _ _ _ ∷ []) _ _ s _ refl refl

  pub login-Does : (req : Request) → Does p t 0 (login p req)
  unfolding login
  login-Does req =
      try_catch-Does p t
        (λ s. (lift (read_login p req.body) >>= (λ c. answer_login p req c.0 c.1)) s)
        (reject_login p req)
        (bind-Does p t (lift (read_login p req.body)) (λ c. answer_login p req c.0 c.1)
          (lift-Does p t (read_login p req.body)) (λ c. answer_login-Does req c.0 c.1))
        (reject_login-Does req)

  reject_record-Does : (req : Request) (what : String) → Does p t 0 (reject_record p req what)
  unfolding reject_record apply run
  reject_record-Does req what s =
      answers-Effects (service_operation _ _ _ ∷ db_operation _ _ ∷ http_request _ _ _ _ ∷ []) 400 _
        s _ refl refl

  store_record-Does : (req : Request) (r : ServiceRecord Double) → Does p t 1 (store_record p req r)
  unfolding store_record apply run
  store_record-Does req r =
      bind-Does p t (on_database_or_throw p (add_service_record p.db r)) _
        (add_service_record-Does p t r)
        (λ success s.
          answers-Effects
            (service_operation _ _ success ∷ db_operation _ success ∷ http_request _ _ _ _ ∷ []) 200
            _ s _ refl refl)

  pub get_devices-Does : (req : Request) → Does p t 0 (get_devices p req)
  unfolding get_devices apply run begins
  get_devices-Does req s =
      Effects-trans p t
        (on_database-Does p t (get_all_devices p.fl p.db)
          (λ w. fetch-committed p.db t _ _ w (λ w. reads_only _ w refl)) s)
        (answers-Effects (http_request _ _ _ _ ∷ db_operation "get_devices" true ∷ []) 200 _ _ _
          refl refl)

  pub get_service_types-Does : (req : Request) → Does p t 0 (get_service_types p req)
  unfolding get_service_types apply run begins
  get_service_types-Does req s =
      Effects-trans p t
        (on_database-Does p t (get_all_service_types p.fl p.db)
          (λ w. fetch-committed p.db t _ _ w (λ w. reads_only _ w refl)) s)
        (answers-Effects (http_request _ _ _ _ ∷ db_operation "get_service_types" true ∷ []) 200 _ _
          _ refl refl)

  pub get_service_history-Does : (req : Request) → Does p t 0 (get_service_history p req)
  unfolding get_service_history apply run begins
  get_service_history-Does req s =
      Effects-trans p t
        (on_database-Does p t (get_detailed_service_history p.fl p.db p.js)
          (λ w. fetch-committed p.db t _ _ w (λ w. reads_only _ w refl)) s)
        (answers-Effects (http_request _ _ _ _ ∷ db_operation "get_service_history" true ∷ []) 200 _
          _ _ refl refl)

  pub get_service_records-Does : (req : Request) → Does p t 0 (get_service_records p req)
  unfolding get_service_records apply run begins
  get_service_records-Does req s =
      Effects-trans p t
        (on_database-Does p t (get_all_service_records p.fl p.db)
          (λ w. fetch-committed p.db t _ _ w (λ w. reads_only _ w refl)) s)
        (answers-Effects (http_request _ _ _ _ ∷ db_operation "get_service_records" true ∷ []) 200 _
          _ _ refl refl)

  field-Does :
      {A : Type 0} (get : Value → Result A) (body : Value) (key : String)
      → Does p t 0 (field p get body key)
  field-Does get body key =
      bind-Does p t (lift (at body key)) _ (lift-Does p t (at body key))
        (λ value. lift-Does p t (get value))

  read_record-Does : (text : String) → Does p t 0 (read_record p text)
  unfolding read_record
  read_record-Does text = bind-Does p t (lift (parse text)) _ (lift-Does p t (parse text)) (λ body.
      bind-Does p t (field p get_int body "device_id") _ (field-Does get_int body "device_id") (λ d.
        bind-Does p t (field p get_int body "service_id") _ (field-Does get_int body "service_id")
          (λ i.
            bind-Does p t (field p get_string body "service_date") _
              (field-Does get_string body "service_date")
              (λ date.
                bind-Does p t (field p get_double body "cost") _ (field-Does get_double body "cost")
                  (λ c.
                    bind-Does p t (field p get_string body "notes") _
                      (field-Does get_string body "notes")
                      (λ n.
                        bind-Does p t (field p get_string body "next_due_date") _
                          (field-Does get_string body "next_due_date") (λ due. nothing p t)))))))

  pub post_service_history-Does : (req : Request) → Does p t 1 (post_service_history p req)
  unfolding post_service_history
  post_service_history-Does req =
      try_catch-Does p t (read_record p req.body >>= store_record p req) (reject_record p req)
        (bind-Does p t (read_record p req.body) (store_record p req) (read_record-Does req.body)
          (store_record-Does req))
        (reject_record-Does req)
