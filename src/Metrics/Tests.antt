-- ===== src/Metrics/Tests.antt =====
-- The theorems on the metrics at a concrete history, and test runs of it.
use mathlib.Core.List.Perm
use computer_service_system.Common.{ℕ, ◌≡◌, refl, List, [], ◌∷◌, true, false, some, arith}
use computer_service_system.Std.Floating.{milli}
use computer_service_system.Std.OrderedMap
use computer_service_system.Std.OrderedMap.{OrderedMap}
use computer_service_system.Std.HashMap.{Walk}
use computer_service_system.Std.Text as Text
use computer_service_system.Std.Text.{◌<<◌}
use computer_service_system.Metrics.Labels
use computer_service_system.Metrics.Labels.{Labels, print_pairs, with_label}
use computer_service_system.Metrics.Labels.Distinct.{IsReadable, to_string-distinct}
use computer_service_system.Metrics.Histogram.{Histogram, bucket_counts, bucket_line, label_part}
use computer_service_system.Metrics.Histogram.Buckets.{
  Ascends, bucket_counts_lem, bucket_counts-Ascends,
}
use computer_service_system.Metrics.Histogram.Braces.{bucket_line_doubled}
use computer_service_system.Metrics.Registry.{empty}
use computer_service_system.Metrics.Registry.Start.{duration_buckets}
use computer_service_system.Metrics.Registry.Record.{auth_labels}
use computer_service_system.Metrics.Registry.Lookup.{value_at}
use computer_service_system.Metrics.Registry.History.{
  Event, initializes, http_request, db_operation, auth_attempt, run,
}
use computer_service_system.Metrics.Registry.Counting.{value_at-run-exact}
use computer_service_system.Metrics.Registry.Durations.{seen, duration_histogram, histogram-run}
use computer_service_system.Metrics.Registry.Invariant.{IsPlaced, run-IsPlaced, empty-IsPlaced}

abbrev logins : List (Event ℕ)
logins =
    auth_attempt "admin" true
    ∷ auth_attempt "eve" false
    ∷ initializes
    ∷ auth_attempt "admin" true
    ∷ auth_attempt "eve" false
    ∷ []

value_at-run-exact_example :
    value_at milli "auth_attempts_total" (auth_labels "admin" true) (run milli logins empty) ≡ 2000
unfolding auth_labels OrderedMap.assign
value_at-run-exact_example =
    value_at-run-exact milli "auth_attempts_total" (auth_labels "admin" true) logins (omega arith)

abbrev requests : List (Event ℕ)
requests =
    http_request "GET" "/api/devices" 200 7
    ∷ db_operation "get_devices" true
    ∷ http_request "POST" "/api/login" 401 30
    ∷ []

histogram-run_example :
    duration_histogram milli (run milli (initializes ∷ requests) empty)
    ≡ some (seen milli (7 ∷ 30 ∷ []))
histogram-run_example = histogram-run milli requests

abbrev two_requests : Histogram ℕ
two_requests = seen milli (7 ∷ 30 ∷ [])

bucket_counts_example :
    bucket_counts milli two_requests ≡ 1 ∷ 1 ∷ 2 ∷ 2 ∷ 2 ∷ 2 ∷ 2 ∷ 2 ∷ 2 ∷ 2 ∷ []
unfolding duration_buckets
bucket_counts_example = bucket_counts_lem milli two_requests

bucket_counts-Ascends_example : Ascends (bucket_counts milli two_requests) 2
bucket_counts-Ascends_example = bucket_counts-Ascends milli two_requests refl (omega arith)

bucket_line_doubled_example :
    bucket_line "d" (label_part (Labels.to_string (("m", "GET") ∷ []))) "+Inf" 2
    ≡ "d_bucket{le=\"+Inf\",m=\"GET\"}} 2\n"
unfolding print_pairs Text.to_string_ℕ
bucket_line_doubled_example = bucket_line_doubled "d" "+Inf" ("m", "GET") [] 2

run-IsPlaced_example : IsPlaced (run milli logins empty)
run-IsPlaced_example = run-IsPlaced milli logins empty-IsPlaced

-- A container that is walked in the order of insertion.
abbrev in_order {ℓ} : {V : Type ℓ} → Walk V
in_order = record { entries = λ m. m; entries-perm = λ m. Perm.refl m }

abbrev failed : List (Event ℕ)
failed = auth_attempt "eve" false ∷ []

-- Two labels, set in either order.
abbrev a_then_b : Labels
a_then_b = with_label "b" "2" (with_label "a" "1" [])

abbrev b_then_a : Labels
b_then_a = with_label "a" "1" (with_label "b" "2" [])

a_then_b-IsReadable : IsReadable a_then_b
unfolding OrderedMap.assign
a_then_b-IsReadable = ((refl, tt), (refl, tt), ((refl, tt), (refl, tt), tt))

b_then_a-IsReadable : IsReadable b_then_a
unfolding OrderedMap.assign
b_then_a-IsReadable = ((refl, tt), (refl, tt), ((refl, tt), (refl, tt), tt))

to_string-distinct_example : a_then_b ≡ b_then_a
unfolding OrderedMap.assign
to_string-distinct_example =
    to_string-distinct a_then_b b_then_a a_then_b-IsReadable b_then_a-IsReadable refl
