-- ===== src/Metrics/Registry/History.antt =====
-- Histories of the registry: sequences of the calls by which the server changes it.
use computer_service_system.Common.{ℕ, suc, String, List, [], ◌∷◌, ◌++◌, Bool, if◌then◌else◌, ℤ}
use computer_service_system.Std.Ord.{string_ord, pair_ord, list_ord}
use computer_service_system.Std.Nested.{same_place}
use computer_service_system.Std.Floating.{Floating}
use computer_service_system.Metrics.Labels.{Labels}
use computer_service_system.Metrics.Registry.{Registry}
use computer_service_system.Metrics.Registry.Start.{initialize, http_labels}
use computer_service_system.Metrics.Registry.Record.{
  record_http_request, record_db_operation, record_auth_attempt, record_device_operation,
  record_service_operation, db_labels, auth_labels, numbered_labels,
}

pub data Event (Double : Type 0) : Type 0 where
  initializes : Event Double
  http_request : String → String → ℕ → Double → Event Double
  db_operation : String → Bool → Event Double
  auth_attempt : String → Bool → Event Double
  device_operation : String → ℤ → Bool → Event Double
  service_operation : String → ℤ → Bool → Event Double

-- The counters that an event is to count in: base name and labels of each.
abbrev pub places : {Double : Type 0} → Event Double → List (String × Labels)
places initializes = []
places (http_request method path status seconds) =
    ("http_requests_total", http_labels method path status) ∷ []
places (db_operation operation success) = ("db_operations_total", db_labels operation success) ∷ []
places (auth_attempt username success) =
    ("auth_attempts_total", auth_labels username success)
    ∷ (if success then [] else ("auth_failures_total", []) ∷ [])
places (device_operation operation device_id success) =
    ("device_operations_total", numbered_labels "device_id" operation device_id success) ∷ []
places (service_operation operation record_id success) =
    ("service_operations_total", numbered_labels "record_id" operation record_id success) ∷ []

-- How often a place stands in a list.
abbrev pub hits : String → Labels → List (String × Labels) → ℕ
hits n l [] = 0
hits n l ((n', l') ∷ ps) = if same_place n' l' n l then suc (hits n l ps) else hits n l ps

abbrev pub all_places : {Double : Type 0} → List (Event Double) → List (String × Labels)
all_places [] = []
all_places (e ∷ es) = places e ++ all_places es

-- The durations of the requests, oldest first.
abbrev pub durations : {Double : Type 0} → List (Event Double) → List Double
durations [] = []
durations (http_request method path status seconds ∷ es) = seconds ∷ durations es
durations (_ ∷ es) = durations es

module _ (fl : Floating) where
  open fl use {Double}

  unfoldable pub apply : Event Double → Registry Double → Registry Double
  apply initializes r = initialize fl r
  apply (http_request method path status seconds) r =
      record_http_request fl method path status seconds r
  apply (db_operation operation success) r = record_db_operation fl operation success r
  apply (auth_attempt username success) r = record_auth_attempt fl username success r
  apply (device_operation operation device_id success) r =
      record_device_operation fl operation device_id success r
  apply (service_operation operation record_id success) r =
      record_service_operation fl operation record_id success r

  -- Oldest event first.
  unfoldable pub run : List (Event Double) → Registry Double → Registry Double
  unfolding apply
  run [] r = r
  run (e ∷ es) r = run es (apply e r)
