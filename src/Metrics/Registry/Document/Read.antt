-- ===== src/Metrics/Registry/Document/Read.antt =====
-- What a reader of a scrape sees after a history of events, whose texts hold no line feed.
use computer_service_system.Common.{
  String, List, [], ◌∷◌, map, ◌≡◌, refl, Bool, true, if◌then◌else◌, All, ◌&&◌, arith,
}
use computer_service_system.Std.Ord.{string_ord, pair_ord, list_ord}
use computer_service_system.Std.Floating.{Floating}
use computer_service_system.Std.OrderedMap.{OrderedMap}
use computer_service_system.Std.HashMap.{Walk}
use computer_service_system.Std.Lines.{lines, literal, one_line, one_line-Lacks}
use computer_service_system.Std.Held.{either, All-assign, Family-emplace}
use computer_service_system.Metrics.Labels.{Labels}
use computer_service_system.Metrics.Counter.{Counter}
use computer_service_system.Metrics.Histogram
use computer_service_system.Metrics.Histogram.{Histogram}
use computer_service_system.Metrics.Registry.{Registry, empty}
use computer_service_system.Metrics.Registry.Start.{
  initialize, fill, for_each, initialize_helps, register_requests, register_request,
  emplace_duration, methods, paths, statuses, http_labels, http_help, duration_help, failures_help,
}
use computer_service_system.Metrics.Registry.Record.{
  count, record_http_request, record_db_operation, record_auth_attempt, record_device_operation,
  record_service_operation, db_labels, auth_labels,
}
use computer_service_system.Metrics.Registry.Counting.{for_each_inv}
use computer_service_system.Metrics.Registry.Format.{format}
use computer_service_system.Metrics.Registry.History.{
  Event, initializes, http_request, db_operation, auth_attempt, device_operation, service_operation,
  apply, run,
}
use computer_service_system.Metrics.Registry.Document.{show, document}
use computer_service_system.Metrics.Registry.Document.Plain.{IsLine, PlainHistogram, IsPlain}
use computer_service_system.Metrics.Registry.Document.Separate.{lines-format}
use computer_service_system.Metrics.Registry.Document.Events.{PlainEvent}
use computer_service_system.Metrics.Registry.Document.Kept.{
  http_labels-PlainLabels, success_labels-PlainLabels, numbered_labels-PlainLabels, count-IsPlain,
  observe_duration-IsPlain, emplace_counter-IsPlain,
}

-- A loop over things of which something holds.
for_each-All {ℓ κ ι λ'} :
    {A : Type ℓ} {S : Type κ} (Q : A → Type λ') (P : S → Type ι) (body : A → S → S)
    → ((x : A) (s : S) → Q x → P s → P (body x s))
    → (xs : List A) (s : S) → All Q xs
    → P s
    → P (for_each xs body s)
unfolding for_each
for_each-All Q P body keep [] s h k = k
for_each-All Q P body keep (x ∷ xs) s h k =
    for_each-All Q P body keep xs (body x s) h.1 (keep x s h.0 k)

-- Every one of these texts.
abbrev all_lines : List String → Bool
all_lines [] = true
all_lines (s ∷ ss) = one_line s && all_lines ss

all_lines-All : (ss : List String) → all_lines ss ≡ true → All IsLine ss
all_lines-All [] h = tt
all_lines-All (s ∷ ss) h = (one_line-Lacks s (ground arith), all_lines-All ss (ground arith))

module _ (fl : Floating) where
  open fl use {Double}

  register_requests-IsPlain : {r : Registry Double} → IsPlain r → IsPlain (register_requests fl r)
  unfolding register_requests register_request
  register_requests-IsPlain {r} p =
      for_each-All IsLine IsPlain _
        (λ method s hm hs.
          for_each-All IsLine IsPlain _
            (λ path t hp ht.
              for_each_inv IsPlain _
                (λ status u hu.
                  emplace_counter-IsPlain fl "http_requests_total" http_help
                    (http_labels method path status) (literal "http_requests_total" refl).1
                    (http_labels-PlainLabels method path status hm hp) hu)
                statuses t ht)
            paths s (all_lines-All paths refl) hs)
        methods r (all_lines-All methods refl) p

  initialize_helps-IsPlain : {r : Registry Double} → IsPlain r → IsPlain (initialize_helps fl r)
  unfolding initialize_helps
  initialize_helps-IsPlain {r} p = record {
    counters = p.counters;
    histograms = p.histograms;
    counter_helps =
        All-assign IsLine "auth_failures_total" failures_help _ (literal failures_help refl).1 (
          All-assign IsLine "http_requests_total" http_help r.counter_helps
            (literal http_help refl).1 p.counter_helps);
    histogram_helps =
        All-assign IsLine "http_request_duration_seconds" duration_help r.histogram_helps
          (literal duration_help refl).1 p.histogram_helps;
  }

  emplace_duration-IsPlain : {r : Registry Double} → IsPlain r → IsPlain (emplace_duration fl r)
  unfolding emplace_duration Histogram.create
  emplace_duration-IsPlain {r} p =
      let name = (literal "http_request_duration_seconds" refl).1 in
      record {
        counters = p.counters;
        histograms =
            Family-emplace IsLine PlainHistogram "http_request_duration_seconds" [] _ r.histograms
              name (name, tt) p.histograms;
        counter_helps = p.counter_helps;
        histogram_helps = p.histogram_helps;
      }

  initialize-IsPlain : {r : Registry Double} → IsPlain r → IsPlain (initialize fl r)
  unfolding initialize fill
  initialize-IsPlain {r} p =
      let filled = emplace_duration-IsPlain (
        emplace_counter-IsPlain fl "auth_failures_total" failures_help []
          (literal "auth_failures_total" refl).1 tt
          (register_requests-IsPlain (initialize_helps-IsPlain p))) in
      either IsPlain r.initialized p (record {
        counters = filled.counters;
        histograms = filled.histograms;
        counter_helps = filled.counter_helps;
        histogram_helps = filled.histogram_helps;
      })

  apply-IsPlain :
      (e : Event Double) {r : Registry Double} → PlainEvent e → IsPlain r → IsPlain (apply fl e r)
  unfolding apply record_http_request record_db_operation record_auth_attempt
      record_device_operation record_service_operation db_labels auth_labels
  apply-IsPlain initializes h p = initialize-IsPlain p
  apply-IsPlain (http_request method path status seconds) h p =
      observe_duration-IsPlain fl seconds (
        count-IsPlain fl "http_requests_total" http_help _ (literal "http_requests_total" refl).1
          (literal http_help refl).1 (http_labels-PlainLabels method path status h.0 h.1) p)
  apply-IsPlain (db_operation operation success) h p =
      count-IsPlain fl "db_operations_total" _ _ (literal "db_operations_total" refl).1
        (literal "Total number of database operations" refl).1
        (success_labels-PlainLabels "operation" operation [] success (literal "operation" refl).1 h
          tt)
        p
  apply-IsPlain (auth_attempt username success) h p = failures success (
      count-IsPlain fl "auth_attempts_total" _ _ (literal "auth_attempts_total" refl).1
        (literal "Total number of authentication attempts" refl).1
        (success_labels-PlainLabels "username" username [] success (literal "username" refl).1 h tt)
        p)
    where
      failures :
          (success : Bool) {r : Registry Double}
          → IsPlain r
          → IsPlain (if success then r else count fl "auth_failures_total" failures_help [] r)
      failures success {r} p = either IsPlain success p (
          count-IsPlain fl "auth_failures_total" failures_help []
            (literal "auth_failures_total" refl).1 (literal failures_help refl).1 tt p)
  apply-IsPlain (device_operation operation device_id success) h p =
      count-IsPlain fl "device_operations_total" _ _ (literal "device_operations_total" refl).1
        (literal "Total number of device operations" refl).1
        (numbered_labels-PlainLabels "device_id" operation device_id success
          (literal "device_id" refl).1 h)
        p
  apply-IsPlain (service_operation operation record_id success) h p =
      count-IsPlain fl "service_operations_total" _ _ (literal "service_operations_total" refl).1
        (literal "Total number of service operations" refl).1
        (numbered_labels-PlainLabels "record_id" operation record_id success
          (literal "record_id" refl).1 h)
        p

  run-IsPlain :
      (es : List (Event Double)) {r : Registry Double}
      → All PlainEvent es
      → IsPlain r
      → IsPlain (run fl es r)
  unfolding run
  run-IsPlain [] h p = p
  run-IsPlain (e ∷ es) h p = run-IsPlain es h.1 (apply-IsPlain e h.0 p)

  empty-IsPlain : IsPlain {Double = Double} empty
  unfolding empty
  empty-IsPlain = record {
    counters = tt;
    histograms = tt;
    counter_helps = tt;
    histogram_helps = tt;
  }

  -- After any history of events whose methods, paths, operations and usernames hold no line feed, a
  -- reader that takes the text of a scrape apart at its line feeds gets exactly these lines, and no
  -- others: of each family its type, its help text if there is one, and one sample for each
  -- counter, or for each histogram one for each bucket, with the number of the values that do not
  -- exceed its bound modulo 2^64, then one for all values, the sum and the count; in the orders in
  -- which the containers are walked.
  pub run-lines :
      (wc : Walk (OrderedMap Labels (Counter Double)))
      (wh : Walk (OrderedMap Labels (Histogram Double))) (es : List (Event Double))
      → All PlainEvent es
      → lines (format fl wc wh (run fl es empty)) ≡ map show (document fl wc wh (run fl es empty))
  run-lines wc wh es h = lines-format fl wc wh (run fl es empty) (run-IsPlain es h empty-IsPlain)
