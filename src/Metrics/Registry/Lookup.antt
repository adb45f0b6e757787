-- ===== src/Metrics/Registry/Lookup.antt =====
-- What each step of the registry does to every counter and every histogram of it.

use computer_service_system.Common.{
  String, ◌≡◌, refl, Bool, true, [], Option, none, some, ap, ◌∙◌, false, if◌then◌else◌, Bool-cases,
  inl, inr,
}
use computer_service_system.Std.Ord.{string_ord, pair_ord, list_ord}
use computer_service_system.Std.Floating.{Floating}
use computer_service_system.Std.HashMap.{get_or}
use computer_service_system.Std.Nested
use computer_service_system.Std.Nested.{same_place, find-update, find-find_or_create}
use computer_service_system.Metrics.Labels.{Labels}
use computer_service_system.Metrics.Counter
use computer_service_system.Metrics.Counter.{Counter}
use computer_service_system.Metrics.Histogram
use computer_service_system.Metrics.Histogram.{Histogram}
use computer_service_system.Metrics.Registry.{
  Registry, get_counter, get_histogram, increment_at, observe_at,
}
use computer_service_system.Metrics.Registry.Record.{count, observe_duration}
use computer_service_system.Metrics.Registry.Start.{duration_help, duration_buckets}

module _ {Double : Type 0} where
  unfoldable pub counter_at : String → Labels → Registry Double → Option (Counter Double)
  counter_at name labels r = Nested.find name labels r.counters

  unfoldable pub histogram_at : String → Labels → Registry Double → Option (Histogram Double)
  histogram_at name labels r = Nested.find name labels r.histograms

module _ (fl : Floating) where
  open fl use {Double, thousandths, add}

  abbrev pub value_or_zero : Option (Counter Double) → Double
  value_or_zero none = thousandths 0
  value_or_zero (some c) = c.value

  -- The value that a scrape shows, and 0 for a counter that is not there yet.
  unfoldable pub value_at : String → Labels → Registry Double → Double
  value_at name labels r = value_or_zero (counter_at name labels r)

  -- Counting at one place leaves every other counter as it was.
  pub counter_at-count :
      (n n' : String) (help : String) (l l' : Labels) (r : Registry Double)
      → counter_at n' l' (count fl n help l r) ≡ (
          if same_place n l n' l'
          then some (
              Counter.increment fl
                (thousandths 1000)
                (get_or (Counter.create fl n help l) (counter_at n' l' r)))
          else counter_at n' l' r)
  unfolding counter_at count get_counter increment_at
  counter_at-count n n' help l l' r =
      rw (find-update n n' l l' (Counter.increment fl (thousandths 1000)) _) (
        rw (find-find_or_create n n' l l' (Counter.create fl n help l) r.counters)
          (elim (Bool-cases (same_place n l n' l')) [ inl same ↦ rw same | inr other ↦ rw other ]))

  value_or_zero-increment :
      (b : Bool) (o : Option (Counter Double)) (n help : String) (l : Labels)
      → value_or_zero (
          if b
          then some
              (Counter.increment fl (thousandths 1000) (get_or (Counter.create fl n help l) o))
          else o)
        ≡ (if b then add (value_or_zero o) (thousandths 1000) else value_or_zero o)
  unfolding Counter.increment Counter.create
  value_or_zero-increment true none n help l = refl
  value_or_zero-increment true (some c) n help l = refl
  value_or_zero-increment false o n help l = refl

  -- Counting adds one at its own place, and nothing elsewhere.
  pub value_at-count :
      (n n' : String) (help : String) (l l' : Labels) (r : Registry Double)
      → value_at n' l' (count fl n help l r) ≡ (
          if same_place n l n' l'
          then add (value_at n' l' r) (thousandths 1000)
          else value_at n' l' r)
  unfolding value_at
  value_at-count n n' help l l' r =
      ap value_or_zero (counter_at-count n n' help l l' r)
      ∙ value_or_zero-increment (same_place n l n' l') (counter_at n' l' r) n help l

  pub counter_at-observe_duration :
      (n : String) (l : Labels) (seconds : Double) (r : Registry Double)
      → counter_at n l (observe_duration fl seconds r) ≡ counter_at n l r
  unfolding counter_at observe_duration get_histogram observe_at
  counter_at-observe_duration n l seconds r = refl

  -- Observing a duration leaves the counters alone.
  pub value_at-observe_duration :
      (n : String) (l : Labels) (seconds : Double) (r : Registry Double)
      → value_at n l (observe_duration fl seconds r) ≡ value_at n l r
  unfolding value_at counter_at observe_duration get_histogram observe_at
  value_at-observe_duration n l seconds r = refl

  -- The one histogram takes each duration.
  pub histogram_at-observe_duration :
      (n : String) (l : Labels) (seconds : Double) (r : Registry Double)
      → histogram_at n l (observe_duration fl seconds r) ≡ (
          if same_place "http_request_duration_seconds" [] n l
          then some (
              Histogram.observe fl seconds (
                get_or
                  (Histogram.create fl "http_request_duration_seconds" duration_help
                    (duration_buckets fl)
                    [])
                  (histogram_at n l r)))
          else histogram_at n l r)
  unfolding histogram_at observe_duration get_histogram observe_at
  histogram_at-observe_duration n l seconds r =
      rw (find-update "http_request_duration_seconds" n [] l (Histogram.observe fl seconds) _) (
        rw
          (find-find_or_create "http_request_duration_seconds" n [] l
            (Histogram.create fl "http_request_duration_seconds" duration_help (duration_buckets fl)
              [])
            r.histograms)
          (elim (Bool-cases (same_place "http_request_duration_seconds" [] n l)) [
            | inl same ↦ rw same
            | inr other ↦ rw other
          ]))

  -- Counting leaves the histograms alone.
  pub histogram_at-count :
      (n n' : String) (help : String) (l l' : Labels) (r : Registry Double)
      → histogram_at n' l' (count fl n help l r) ≡ histogram_at n' l' r
  unfolding histogram_at count get_counter increment_at
  histogram_at-count n n' help l l' r = refl
