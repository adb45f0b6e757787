-- ===== src/Metrics/Registry/Durations.antt =====
-- The histogram `http_request_duration_seconds` after a history.
use mathlib.Core.List.{append-nil, append_assoc}
use computer_service_system.Common.{
  ◌%◌, ◌^◌, String, ◌≡◌, refl, sym, ap, ◌∙◌, List, [], ◌∷◌, ◌++◌, true, false, arith, inl, inr,
  Bool-cases, Option, none, some, length, length-append,
}
use mathlib.Core.List.{foldl, foldl-append}
use computer_service_system.Std.Ord.{string_ord, pair_ord, list_ord}
use computer_service_system.Std.Floating.{Floating}
use computer_service_system.Std.HashMap.{get_or}
use computer_service_system.Std.Nested
use computer_service_system.Std.HashMap
use computer_service_system.Std.Nested.{same_place, nested_find-emplace}
use computer_service_system.Metrics.Labels.{Labels}
use computer_service_system.Metrics.Histogram
use computer_service_system.Metrics.Histogram.{Histogram, next_u64}
use computer_service_system.Metrics.Registry.{Registry, empty}
use computer_service_system.Metrics.Registry.Start.{
  initialize, fill, initialize_helps, register_requests, register_request, emplace_counter,
  emplace_duration, methods, paths, statuses, http_labels, http_help, failures_help, duration_help,
  duration_buckets,
}
use computer_service_system.Metrics.Registry.Record.{
  count, observe_duration, record_http_request, record_db_operation, record_auth_attempt,
  record_device_operation, record_service_operation,
}
use computer_service_system.Metrics.Registry.Lookup.{
  histogram_at, histogram_at-observe_duration, histogram_at-count,
}
use computer_service_system.Metrics.Registry.Counting.{for_each_inv}
use computer_service_system.Metrics.Registry.History.{
  Event, initializes, http_request, db_operation, auth_attempt, device_operation, service_operation,
  durations, apply, run,
}

module _ (fl : Floating) where
  open fl use {Double, thousandths, add}

  -- The histogram that has seen the given durations, oldest first.
  abbrev pub seen : List Double → Histogram Double
  seen ds = record {
    sum = foldl add (thousandths 0) ds;
    count = length ds % 2 ^ 64;
    values = ds;
    name = "http_request_duration_seconds";
    help = duration_help;
    labels = [];
    buckets = duration_buckets fl;
  }

  abbrev pub duration_histogram : Registry Double → Option (Histogram Double)
  duration_histogram r = histogram_at "http_request_duration_seconds" [] r

  observe-seen :
      (d : Double) (ds : List Double) → Histogram.observe fl d (seen ds) ≡ seen (ds ++ d ∷ [])
  unfolding Histogram.observe
  observe-seen d ds = λ i. record {
    sum = sums i;
    count = counts i;
    values = ds ++ d ∷ [];
    name = "http_request_duration_seconds";
    help = duration_help;
    labels = [];
    buckets = duration_buckets fl;
  }
    where
      sums : add (foldl add (thousandths 0) ds) d ≡ foldl add (thousandths 0) (ds ++ d ∷ [])
      sums = sym (foldl-append add (thousandths 0) ds (d ∷ []))

      counts : next_u64 (length ds % 2 ^ 64) ≡ length (ds ++ d ∷ []) % 2 ^ 64
      counts = unfold next_u64 in omega (arith, length-append ds (d ∷ []))

  histogram-emplace_counter :
      (n help : String) (l : Labels) (r : Registry Double)
      → duration_histogram (emplace_counter fl n help l r) ≡ duration_histogram r
  unfolding histogram_at emplace_counter
  histogram-emplace_counter n help l r = refl

  histogram-register_requests :
      (r : Registry Double) → duration_histogram (register_requests fl r) ≡ duration_histogram r
  unfolding register_requests register_request
  histogram-register_requests r =
      let P : Registry Double → Type 0 = λ s. duration_histogram s ≡ duration_histogram r in
      for_each_inv P _
        (λ method s hs.
          for_each_inv P _
            (λ path t ht.
              for_each_inv P _
                (λ status u hu.
                  histogram-emplace_counter "http_requests_total" http_help
                    (http_labels method path status) u
                  ∙ hu)
                statuses t ht)
            paths s hs)
        methods r refl

  histogram-emplace_duration :
      (r : Registry Double)
      → duration_histogram (emplace_duration fl r) ≡ some (get_or (seen []) (duration_histogram r))
  unfolding histogram_at emplace_duration Histogram.create
  histogram-emplace_duration r =
      nested_find-emplace "http_request_duration_seconds" "http_request_duration_seconds" [] []
        (Histogram.create fl "http_request_duration_seconds" duration_help (duration_buckets fl) [])
        r.histograms

  histogram-helps :
      (r : Registry Double) → duration_histogram (initialize_helps fl r) ≡ duration_histogram r
  unfolding histogram_at initialize_helps
  histogram-helps r = refl

  histogram-empty : duration_histogram empty ≡ none
  unfolding histogram_at empty Nested.find HashMap.find
  histogram-empty = refl

  histogram-fill :
      (r : Registry Double)
      → duration_histogram (fill fl r) ≡ some (get_or (seen []) (duration_histogram r))
  unfolding fill
  histogram-fill r =
      histogram-emplace_duration _
      ∙ ap (λ o. some (get_or (seen []) o))
          (histogram-emplace_counter "auth_failures_total" failures_help [] _
            ∙ histogram-register_requests _
            ∙ histogram-helps r)

  -- `initialize` leaves the histogram there, with what it had seen before.
  histogram-initialize :
      (ds : List Double) (r : Registry Double)
      → duration_histogram r ≡ some (seen ds)
      → duration_histogram (initialize fl r) ≡ some (seen ds)
  unfolding initialize histogram_at
  histogram-initialize ds r h = elim (Bool-cases r.initialized) [
    | inl done ↦ rw done h
    | inr first ↦ rw first (histogram-fill r ∙ ap (λ o. some (get_or (seen []) o)) h)
  ]

  histogram-observe :
      (d : Double) (ds : List Double) (r : Registry Double)
      → duration_histogram r ≡ some (seen ds)
      → duration_histogram (observe_duration fl d r) ≡ some (seen (ds ++ d ∷ []))
  unfolding Histogram.create histogram_at
  histogram-observe d ds r h =
      histogram_at-observe_duration fl "http_request_duration_seconds" [] d r
      ∙ ap (λ o. some (Histogram.observe fl d (get_or (seen []) o))) h
      ∙ ap some (observe-seen d ds)

  keep : (ds : List Double) → some (seen ds) ≡ some (seen (ds ++ []))
  keep ds = ap (λ l. some (seen l)) (sym (append-nil ds))

  counted :
      (n help : String) (l : Labels) (ds : List Double) (r : Registry Double)
      → duration_histogram r ≡ some (seen ds)
      → duration_histogram (count fl n help l r) ≡ some (seen ds)
  counted n help l ds r h = histogram_at-count fl n "http_request_duration_seconds" help l [] r ∙ h

  histogram-apply :
      (e : Event Double) (ds : List Double) (r : Registry Double)
      → duration_histogram r ≡ some (seen ds)
      → duration_histogram (apply fl e r) ≡ some (seen (ds ++ durations (e ∷ [])))
  unfolding apply record_http_request record_db_operation record_auth_attempt
      record_device_operation record_service_operation
  histogram-apply initializes ds r h = histogram-initialize ds r h ∙ keep ds
  histogram-apply (http_request method path status seconds) ds r h =
      histogram-observe seconds ds _ (counted _ _ _ ds r h)
  histogram-apply (db_operation operation success) ds r h = counted _ _ _ ds r h ∙ keep ds
  histogram-apply (auth_attempt username true) ds r h = counted _ _ _ ds r h ∙ keep ds
  histogram-apply (auth_attempt username false) ds r h =
      counted _ _ _ ds _ (counted _ _ _ ds r h) ∙ keep ds
  histogram-apply (device_operation operation device_id success) ds r h =
      counted _ _ _ ds r h ∙ keep ds
  histogram-apply (service_operation operation record_id success) ds r h =
      counted _ _ _ ds r h ∙ keep ds

  durations-cons :
      (e : Event Double) (es : List (Event Double))
      → durations (e ∷ []) ++ durations es ≡ durations (e ∷ es)
  durations-cons (http_request method path status seconds) es = refl
  durations-cons _ es = refl

  histogram-run_from :
      (es : List (Event Double)) (ds : List Double) (r : Registry Double)
      → duration_histogram r ≡ some (seen ds)
      → duration_histogram (run fl es r) ≡ some (seen (ds ++ durations es))
  unfolding run
  histogram-run_from [] ds r h = h ∙ keep ds
  histogram-run_from (e ∷ es) ds r h =
      histogram-run_from es (ds ++ durations (e ∷ [])) (apply fl e r) (histogram-apply e ds r h)
      ∙ ap (λ l. some (seen l))
          (append_assoc ds (durations (e ∷ [])) (durations es)
            ∙ ap (λ l. ds ++ l) (durations-cons e es))

  -- Once `initialize` has run, as at the start of the server, the duration histogram has the values
  -- of all requests of the history in their order, their sum by repeated addition, their number
  -- modulo 2^64, and the ten buckets, whatever other events came between.
  pub histogram-run :
      (es : List (Event Double))
      → duration_histogram (run fl (initializes ∷ es) empty) ≡ some (seen (durations es))
  unfolding run apply
  histogram-run es = histogram-run_from es [] (initialize fl empty) at_start
    where
      not_yet : duration_histogram (initialize fl empty) ≡ duration_histogram (fill fl empty)
      not_yet = unfold initialize empty histogram_at in refl

      at_start : duration_histogram (initialize fl empty) ≡ some (seen [])
      at_start =
          not_yet ∙ histogram-fill empty ∙ ap (λ o. some (get_or (seen []) o)) histogram-empty
