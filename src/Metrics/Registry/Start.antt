-- ===== src/Metrics/Registry/Start.antt =====
-- `initialize` of src/metrics.h: the metrics that a scrape finds before the first request.
use computer_service_system.Common.{
  ℕ, String, List, [], ◌∷◌, true, if◌then◌else◌, map, pos, ◌≡◌, refl,
}
use computer_service_system.Std.Ord.{string_ord, pair_ord, list_ord}
use computer_service_system.Std.Nested
use computer_service_system.Std.OrderedMap
use computer_service_system.Std.HashMap
use computer_service_system.Std.Floating.{Floating, milli}
use computer_service_system.Std.Text
use computer_service_system.Metrics.Labels.{Labels, with_label}
use computer_service_system.Metrics.Counter
use computer_service_system.Metrics.Histogram
use computer_service_system.Metrics.Registry.{
  Registry, empty, get_counter_count, get_histogram_count,
}

-- for (const auto& x : xs) body
unfoldable pub for_each {ℓ κ} : {A : Type ℓ} {S : Type κ} → List A → (A → S → S) → S → S
for_each [] body s = s
for_each (x ∷ xs) body s = for_each xs body (body x s)

abbrev pub methods : List String
methods = "GET" ∷ "POST" ∷ "PUT" ∷ "DELETE" ∷ "PATCH" ∷ []

abbrev pub paths : List String
paths =
    "/" ∷ "/metrics" ∷ "/api/test-db" ∷ "/api/login" ∷ "/api/logout" ∷ "/api/devices"
    ∷ "/api/service-types" ∷ "/api/service-history" ∷ "/api/service-records" ∷ []

abbrev pub statuses : List ℕ
statuses = 200 ∷ 201 ∷ 400 ∷ 401 ∷ 403 ∷ 404 ∷ 500 ∷ []

-- labels["method"] = method; labels["path"] = path; labels["status"] = std::to_string(status)
unfoldable pub http_labels : String → String → ℕ → Labels
http_labels method path status =
    with_label "status" (Text.to_string (pos status))
      (with_label "path" path (with_label "method" method []))

abbrev pub http_help : String
http_help = "Total number of HTTP requests"

abbrev pub duration_help : String
duration_help = "HTTP request duration in seconds"

abbrev pub failures_help : String
failures_help = "Total number of authentication failures"

module _ (fl : Floating) where
  open fl use {Double, thousandths}

  -- {0.01, 0.025, 0.05, 0.1, 0.25, 0.5, 1.0, 2.5, 5.0, 10.0}
  unfoldable pub duration_buckets : List Double
  duration_buckets =
      map thousandths (10 ∷ 25 ∷ 50 ∷ 100 ∷ 250 ∷ 500 ∷ 1000 ∷ 2500 ∷ 5000 ∷ 10000 ∷ [])

  -- counters_[name].emplace(labels, Counter(name, help, labels))
  unfoldable pub emplace_counter : String → String → Labels → Registry Double → Registry Double
  emplace_counter name help labels r = record r {
    counters = Nested.emplace name labels (Counter.create fl name help labels) r.counters;
  }

  -- The body of the three nested loops.
  unfoldable pub register_request : String → String → ℕ → Registry Double → Registry Double
  unfolding emplace_counter
  register_request method path status =
      emplace_counter "http_requests_total" http_help (http_labels method path status)

  unfoldable pub register_requests : Registry Double → Registry Double
  unfolding for_each register_request
  register_requests = for_each methods λ method.
      for_each paths λ path. for_each statuses λ status. register_request method path status

  -- histograms_["http_request_duration_seconds"].emplace(Labels(), h)
  unfoldable pub emplace_duration : Registry Double → Registry Double
  emplace_duration r = record r {
    histograms =
        Nested.emplace "http_request_duration_seconds" []
          (Histogram.create fl "http_request_duration_seconds" duration_help duration_buckets [])
          r.histograms;
  }

  unfoldable pub initialize_helps : Registry Double → Registry Double
  initialize_helps r = record r {
    counter_helps =
        HashMap.assign "auth_failures_total" failures_help
          (HashMap.assign "http_requests_total" http_help r.counter_helps);
    histogram_helps =
        HashMap.assign "http_request_duration_seconds" duration_help r.histogram_helps;
  }

  unfoldable pub fill : Registry Double → Registry Double
  unfolding initialize_helps register_requests emplace_counter emplace_duration
  fill r = emplace_duration (
      emplace_counter "auth_failures_total" failures_help []
        (register_requests (initialize_helps r)))

  -- The second call changes nothing.
  unfoldable pub initialize : Registry Double → Registry Double
  unfolding fill
  initialize r = if r.initialized then r else record (fill r) { initialized = true }

initialize_counts :
    (get_counter_count milli (initialize milli empty) ≡ 316)
    × (get_histogram_count milli (initialize milli empty) ≡ 1)
unfolding initialize empty get_counter_count get_histogram_count http_labels Nested.total_size
    Nested.emplace HashMap.upsert OrderedMap.emplace OrderedMap.assign Text.to_string
initialize_counts = (refl, refl)
