-- ===== src/WebServer/Devices.antt =====
-- The handlers of "/api/devices" and "/api/service-types".
use computer_service_system.Common.{[], ◌∷◌, true, false, map, negsuc}
use computer_service_system.Exec.{Exec, ◌>>=◌, ◌>>◌}
use computer_service_system.Std.Text.{◌<<◌}
use computer_service_system.Logger.{warning}
use computer_service_system.Logger.Report.{log_device, write_in}
use computer_service_system.Database.{Device, ServiceType}
use computer_service_system.Database.Read.{get_all_devices, get_all_service_types}
use computer_service_system.Metrics.Registry.Record.{
  record_http_request, record_db_operation, record_device_operation,
}
use computer_service_system.WebServer.{
  Platform, Server, Request, Response, client_ip, on_metrics, on_logger, on_database, count_request,
  json_response,
}

module _ (p : Platform) where
  open p.js use {Value, object, array, str, int, double, bool}

  unfoldable pub device_json : Device → Value
  device_json d = object (
      ("id", int d.id)
      ∷ ("name", str d.name)
      ∷ ("model", str d.model)
      ∷ ("purchase_date", str d.purchase_date)
      ∷ ("status", str d.status)
      ∷ [])

  unfoldable pub get_devices : Request → Exec (Server p) Response
  unfolding json_response
  get_devices req = do
    devices ← on_database p (get_all_devices p.fl p.db)
    on_metrics p (count_request p "GET" "/api/devices" 200 req)
    on_metrics p (record_db_operation p.fl "get_devices" true)
    json_response p 200 (array (map device_json devices))

  -- Adding a device is blocked.
  unfoldable pub post_device : Request → Exec (Server p) Response
  unfolding json_response
  post_device req = do
    on_logger p (
        write_in p.host warning ("Blocked device creation attempt from IP: " << client_ip req)
          "webserver.cpp")
    on_logger p (log_device p.host (negsuc 0) "create_blocked" false)
    on_metrics p (record_device_operation p.fl "create_blocked" (negsuc 0) false)
    on_metrics p (record_http_request p.fl "POST" "/api/devices" 403 (p.fl.thousandths 1))
    json_response p 403
        (object (("success", bool false) ∷ ("error", str "Adding new devices is disabled") ∷ []))

  unfoldable pub service_type_json : ServiceType p.fl.Double → Value
  service_type_json type = object (
      ("id", int type.id)
      ∷ ("name", str type.name)
      ∷ ("recommended_interval_months", int type.recommended_interval_months)
      ∷ ("standard_cost", double type.standard_cost)
      ∷ [])

  unfoldable pub get_service_types : Request → Exec (Server p) Response
  unfolding json_response
  get_service_types req = do
    types ← on_database p (get_all_service_types p.fl p.db)
    on_metrics p (count_request p "GET" "/api/service-types" 200 req)
    on_metrics p (record_db_operation p.fl "get_service_types" true)
    json_response p 200 (array (map service_type_json types))
