-- ===== src/Logger/Report.antt =====
-- The reporting methods of `Logger` in src/logger.h: plain messages, messages with a context, and
-- one method for each kind of event, which goes to Loki too.
use computer_service_system.Common.{String, [], Bool, if◌then◌else◌, ℤ, str_eq}
use computer_service_system.Std.Text as Text
use computer_service_system.Std.Text.{◌<<◌}
use computer_service_system.Logger.{Host, Logger, LogLevel, info, warning, error, write}
use computer_service_system.Logger.Loki.{LokiLabels, add, send_to_loki}

abbrev pub success_text : Bool → String
success_text success = if success then "true" else "false"

-- What one report writes: the level of the line, the line, and the level and the labels for Loki.
pub record Report : Type 0 where
  pub level : LogLevel
  pub message : String
  pub loki_level : String
  pub labels : LokiLabels

-- " | details=" and the details, if there are any
abbrev pub details_text : String → String → String
details_text separator details =
    if str_eq details "" then "" else separator << "details=" << details

unfoldable pub request_report : String → String → String → ℤ → ℤ → Report
request_report ip method path status duration_ms = record {
  level = info;
  message =
      "HTTP Request: "
      << method
      << " "
      << path
      << " | IP: "
      << ip
      << " | Status: "
      << Text.to_string status
      << " | Duration: "
      << Text.to_string duration_ms
      << "ms";
  loki_level = "info";
  labels = add "method" method (add "endpoint" path (add "component" "webserver" []));
}

unfoldable pub auth_report : String → Bool → String → String → Report
auth_report username success ip details = record {
  level = if success then info else warning;
  message =
      "Auth attempt: user='"
      << username
      << "' "
      << "success="
      << success_text success
      << " ip="
      << ip
      << details_text " " details;
  loki_level = if success then "info" else "warning";
  labels =
      add "ip" ip
        (add "success" (success_text success) (add "user" username (add "component" "auth" [])));
}

unfoldable pub database_report : String → Bool → String → Report
database_report operation success details = record {
  level = if success then info else error;
  message =
      "DB operation: "
      << operation
      << " | success="
      << success_text success
      << details_text " | " details;
  loki_level = if success then "info" else "error";
  labels =
      add "success" (success_text success)
        (add "operation" operation (add "component" "database" []));
}

unfoldable pub device_report : ℤ → String → Bool → Report
device_report device_id operation success = record {
  level = if success then info else warning;
  message =
      "Device operation: "
      << operation
      << " | device_id="
      << Text.to_string device_id
      << " | success="
      << success_text success;
  loki_level = if success then "info" else "warning";
  labels =
      add "device_id" (Text.to_string device_id)
        (add "operation" operation (add "component" "device" []));
}

unfoldable pub service_report : ℤ → String → Bool → Report
service_report record_id operation success = record {
  level = if success then info else warning;
  message =
      "Service operation: "
      << operation
      << " | record_id="
      << Text.to_string record_id
      << " | success="
      << success_text success;
  loki_level = if success then "info" else "warning";
  labels =
      add "record_id" (Text.to_string record_id)
        (add "operation" operation (add "component" "service" []));
}

unfoldable pub lifecycle_report : String → String → Report
lifecycle_report event details = record {
  level = info;
  message = "Lifecycle event: " << event << details_text " | " details;
  loki_level = "info";
  labels = add "event" event (add "component" "lifecycle" []);
}

module _ (host : Host) where
  open host use {World}

  -- debug(message) and the like
  abbrev pub write_plain : LogLevel → String → Logger World → Logger World
  write_plain level message = write host level message

  -- debug(message, context) and the like
  unfoldable pub write_in : LogLevel → String → String → Logger World → Logger World
  write_in level message context = write host level (message << " [" << context << "]")

  -- The common end of the reporting methods: the answer of Loki is not looked at.
  unfoldable pub report : Report → Logger World → Logger World
  report r lg =
      let written = write host r.level r.message lg in
      if written.loki_format_enabled
      then (send_to_loki host r.loki_level r.message r.labels written).1
      else written

  abbrev pub log_request : String → String → String → ℤ → ℤ → Logger World → Logger World
  log_request ip method path status duration_ms =
      report (request_report ip method path status duration_ms)

  abbrev pub log_auth : String → Bool → String → String → Logger World → Logger World
  log_auth username success ip details = report (auth_report username success ip details)

  abbrev pub log_database : String → Bool → String → Logger World → Logger World
  log_database operation success details = report (database_report operation success details)

  abbrev pub log_device : ℤ → String → Bool → Logger World → Logger World
  log_device device_id operation success = report (device_report device_id operation success)

  abbrev pub log_service : ℤ → String → Bool → Logger World → Logger World
  log_service record_id operation success = report (service_report record_id operation success)

  abbrev pub log_lifecycle : String → String → Logger World → Logger World
  log_lifecycle event details = report (lifecycle_report event details)
