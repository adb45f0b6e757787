-- ===== src/Logger/Levels.antt =====
-- The level that a report gives to Loki, and the level of its line.
use computer_service_system.Common.{String, Bool, true, false, ℤ, ◌≡◌, refl}
use computer_service_system.Logger.Loki.{level_to_loki_string}
use computer_service_system.Logger.Report.{
  Report, request_report, auth_report, database_report, device_report, service_report,
  lifecycle_report,
}

-- The events that the reporting methods are called for.
data Occurrence : Type 0 where
  request : String → String → String → ℤ → ℤ → Occurrence
  auth : String → Bool → String → String → Occurrence
  database : String → Bool → String → Occurrence
  device : ℤ → String → Bool → Occurrence
  service : ℤ → String → Bool → Occurrence
  lifecycle : String → String → Occurrence

unfoldable report_of : Occurrence → Report
report_of (request ip method path status duration_ms) =
    request_report ip method path status duration_ms
report_of (auth username success ip details) = auth_report username success ip details
report_of (database operation success details) = database_report operation success details
report_of (device device_id operation success) = device_report device_id operation success
report_of (service record_id operation success) = service_report record_id operation success
report_of (lifecycle event details) = lifecycle_report event details

-- Each of the six reporting methods gives to Loki the level of its line, in the words of
-- `levelToLokiString`.
level_to_loki_string-report_of :
    (o : Occurrence) → level_to_loki_string (report_of o).level ≡ (report_of o).loki_level
unfolding level_to_loki_string report_of request_report auth_report database_report device_report
    service_report lifecycle_report
level_to_loki_string-report_of (request ip method path status duration_ms) = refl
level_to_loki_string-report_of (auth username true ip details) = refl
level_to_loki_string-report_of (auth username false ip details) = refl
level_to_loki_string-report_of (database operation true details) = refl
level_to_loki_string-report_of (database operation false details) = refl
level_to_loki_string-report_of (device device_id operation true) = refl
level_to_loki_string-report_of (device device_id operation false) = refl
level_to_loki_string-report_of (service record_id operation true) = refl
level_to_loki_string-report_of (service record_id operation false) = refl
level_to_loki_string-report_of (lifecycle event details) = refl
