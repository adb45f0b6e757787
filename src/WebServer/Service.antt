-- ===== src/WebServer/Service.antt =====
-- The handlers of "/api/service-history" and "/api/service-records".
use computer_service_system.Common.{String, [], ◌∷◌, true, false, map, pos, negsuc, if◌then◌else◌}
use computer_service_system.Exec.{Result, Exec, pure, lift, ◌>>=◌, ◌>>◌, try_catch}
use computer_service_system.Database.{ServiceRecord}
use computer_service_system.Database.Read.{get_all_service_records, get_detailed_service_history}
use computer_service_system.Database.Write.{add_service_record}
use computer_service_system.Metrics.Registry.Record.{record_db_operation, record_service_operation}
use computer_service_system.WebServer.{
  Platform, Server, Request, Response, on_metrics, on_database, on_database_or_throw, count_request,
  json_response,
}

module _ (p : Platform) where
  open p.fl use {Double}
  open p.js use {
    Value, parse, at, get_string, get_int, get_double, object, array, str, int, double, bool,
  }

  unfoldable pub get_service_history : Request → Exec (Server p) Response
  unfolding json_response
  get_service_history req = do
    history ← on_database p (get_detailed_service_history p.fl p.db p.js)
    on_metrics p (count_request p "GET" "/api/service-history" 200 req)
    on_metrics p (record_db_operation p.fl "get_service_history" true)
    json_response p 200 (array history)

  -- body[key].get<T>()
  abbrev pub field : {A : Type 0} → (Value → Result A) → Value → String → Exec (Server p) A
  field get body key = do value ← lift (at body key); lift (get value)

  -- The record of a request; it has no number of its own yet.
  unfoldable pub read_record : String → Exec (Server p) (ServiceRecord Double)
  read_record text = do
    body ← lift (parse text)
    device_id ← field get_int body "device_id"
    service_id ← field get_int body "service_id"
    service_date ← field get_string body "service_date"
    cost ← field get_double body "cost"
    notes ← field get_string body "notes"
    next_due_date ← field get_string body "next_due_date"
    pure (record {
      id = pos 0;
      device_id = device_id;
      service_id = service_id;
      service_date = service_date;
      cost = cost;
      notes = notes;
      next_due_date = next_due_date;
    })

  -- The rest of the `try` block. The response is made with no code of its own, so it has 200.
  unfoldable pub store_record : Request → ServiceRecord Double → Exec (Server p) Response
  unfolding json_response
  store_record req r = do
    success ← on_database_or_throw p (add_service_record p.db r)
    on_metrics p
        (record_service_operation p.fl "create" (if success then pos 1 else negsuc 0) success)
    on_metrics p (record_db_operation p.fl "add_service_record" success)
    on_metrics p (count_request p "POST" "/api/service-history" (if success then 200 else 400) req)
    json_response p 200 (object (("success", bool success) ∷ []))

  unfoldable pub reject_record : Request → String → Exec (Server p) Response
  unfolding json_response
  reject_record req what = do
    on_metrics p (record_service_operation p.fl "create" (negsuc 0) false)
    on_metrics p (record_db_operation p.fl "add_service_record" false)
    on_metrics p (count_request p "POST" "/api/service-history" 400 req)
    json_response p 400 (object (("success", bool false) ∷ ("error", str what) ∷ []))

  unfoldable pub post_service_history : Request → Exec (Server p) Response
  post_service_history req =
      try_catch (do r ← read_record req.body; store_record req r) (reject_record req)

  unfoldable pub service_record_json : ServiceRecord Double → Value
  service_record_json r = object (
      ("id", int r.id)
      ∷ ("device_id", int r.device_id)
      ∷ ("service_id", int r.service_id)
      ∷ ("service_date", str r.service_date)
      ∷ ("cost", double r.cost)
      ∷ ("notes", str r.notes)
      ∷ ("next_due_date", str r.next_due_date)
      ∷ [])

  unfoldable pub get_service_records : Request → Exec (Server p) Response
  unfolding json_response
  get_service_records req = do
    records ← on_database p (get_all_service_records p.fl p.db)
    on_metrics p (count_request p "GET" "/api/service-records" 200 req)
    on_metrics p (record_db_operation p.fl "get_service_records" true)
    json_response p 200 (array (map service_record_json records))
