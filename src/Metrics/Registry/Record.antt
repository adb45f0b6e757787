-- ===== src/Metrics/Registry/Record.antt =====
-- The methods of `MetricsRegistry` that record an event: `recordHttpRequest` and the like.
use computer_service_system.Common.{ℕ, String, [], Bool, if◌then◌else◌, ℤ}
use computer_service_system.Std.Floating.{Floating}
use computer_service_system.Std.Text
use computer_service_system.Metrics.Labels.{Labels, with_label}
use computer_service_system.Metrics.Registry.{
  Registry, get_counter, get_histogram, increment_at, observe_at,
}
use computer_service_system.Metrics.Registry.Start.{
  http_labels, http_help, duration_help, failures_help, duration_buckets,
}

-- success ? "true" : "false"
abbrev pub bool_text : Bool → String
bool_text success = if success then "true" else "false"

unfoldable pub db_labels : String → Bool → Labels
db_labels operation success =
    with_label "success" (bool_text success) (with_label "operation" operation [])

unfoldable pub auth_labels : String → Bool → Labels
auth_labels username success =
    with_label "success" (bool_text success) (with_label "username" username [])

-- The labels of device and of service operations, whose number has another name in each.
unfoldable pub numbered_labels : String → String → ℤ → Bool → Labels
numbered_labels number operation id success =
    with_label "success" (bool_text success)
      (with_label number (Text.to_string id) (with_label "operation" operation []))

module _ (fl : Floating) where
  open fl use {Double, thousandths}

  -- getCounter(name, help, labels).increment()
  unfoldable pub count : String → String → Labels → Registry Double → Registry Double
  count name help labels r =
      let (ref, r') = get_counter fl name help labels r in increment_at fl (thousandths 1000) ref r'

  unfoldable pub observe_duration : Double → Registry Double → Registry Double
  observe_duration seconds r =
      let (ref, r') =
        get_histogram fl "http_request_duration_seconds" duration_help (duration_buckets fl) [] r in
      observe_at fl seconds ref r'

  unfoldable pub record_http_request :
      String → String → ℕ → Double → Registry Double → Registry Double
  unfolding observe_duration
  record_http_request method path status seconds r =
      observe_duration seconds
        (count "http_requests_total" http_help (http_labels method path status) r)

  unfoldable pub record_db_operation : String → Bool → Registry Double → Registry Double
  record_db_operation operation success =
      count "db_operations_total" "Total number of database operations"
        (db_labels operation success)

  unfoldable pub record_auth_attempt : String → Bool → Registry Double → Registry Double
  record_auth_attempt username success r =
      let r' =
        count "auth_attempts_total" "Total number of authentication attempts"
          (auth_labels username success) r in
      if success then r' else count "auth_failures_total" failures_help [] r'

  unfoldable pub record_device_operation : String → ℤ → Bool → Registry Double → Registry Double
  record_device_operation operation device_id success =
      count "device_operations_total" "Total number of device operations"
        (numbered_labels "device_id" operation device_id success)

  unfoldable pub record_service_operation : String → ℤ → Bool → Registry Double → Registry Double
  record_service_operation operation record_id success =
      count "service_operations_total" "Total number of service operations"
        (numbered_labels "record_id" operation record_id success)
