-- ===== src/Metrics/Registry.antt =====
-- `MetricsRegistry` of src/metrics.h: its state, the lookups that create a missing metric, and the
-- updates through the references that they return. A reference is the pair of keys under which the
-- object stays stored; the containers never move or erase an entry.
pub mod Start
pub mod Record
pub mod Format
pub mod Lookup
pub mod History
pub mod Append
pub mod Counting
pub mod Durations
pub mod Invariant
pub mod Exposition
pub mod Document
pub mod Threads
pub mod Schedule
use computer_service_system.Common.{
  ℕ, ◌+◌, String, List, [], ◌∷◌, Bool, false, Option, none, some, if◌then◌else◌, str_eq, length,
}
use computer_service_system.Std.Ord.{string_ord, pair_ord, list_ord}
use computer_service_system.Std.Nested
use computer_service_system.Std.Nested.{Nested}
use computer_service_system.Std.HashMap
use computer_service_system.Std.HashMap.{HashMap}
use computer_service_system.Std.Floating.{Floating}
use computer_service_system.Metrics.Labels.{Labels}
use computer_service_system.Metrics.Counter
use computer_service_system.Metrics.Counter.{Counter}
use computer_service_system.Metrics.Histogram
use computer_service_system.Metrics.Histogram.{Histogram}

pub record Registry (Double : Type 0) : Type 0 where
  pub counters : Nested Labels (Counter Double)
  pub histograms : Nested Labels (Histogram Double)
  pub counter_helps : HashMap String
  pub histogram_helps : HashMap String
  pub initialized : Bool

-- Where a metric is stored: its base name and its labels.
pub record Ref : Type 0 where
  pub name : String
  pub labels : Labels

module _ {Double : Type 0} where
  -- The registry as its constructor leaves it.
  unfoldable pub empty : Registry Double
  empty = record {
    counters = [];
    histograms = [];
    counter_helps = [];
    histogram_helps = [];
    initialized = false;
  }

-- A help text is stored if one is given.
unfoldable pub store_help : String → String → HashMap String → HashMap String
store_help name help helps = if str_eq help "" then helps else HashMap.assign name help helps

module _ (fl : Floating) where
  open fl use {Double}

  unfoldable pub get_counter : String → String → Labels → Registry Double → Ref × Registry Double
  unfolding store_help
  get_counter name help labels r =
      let ref : Ref = record { name = name; labels = labels } in
      (
        ref,
        record r {
          counter_helps = store_help name help r.counter_helps;
          counters =
              Nested.find_or_create name labels (Counter.create fl name help labels) r.counters;
        },
      )

  unfoldable pub get_histogram :
      String → String → List Double → Labels → Registry Double → Ref × Registry Double
  unfolding store_help
  get_histogram name help buckets labels r =
      let ref : Ref = record { name = name; labels = labels } in
      (
        ref,
        record r {
          histogram_helps = store_help name help r.histogram_helps;
          histograms =
              Nested.find_or_create name labels (Histogram.create fl name help buckets labels)
                r.histograms;
        },
      )

  -- counter.increment(val)
  unfoldable pub increment_at : Double → Ref → Registry Double → Registry Double
  increment_at val ref r = record r {
    counters = Nested.update ref.name ref.labels (Counter.increment fl val) r.counters;
  }

  -- histogram.observe(value)
  unfoldable pub observe_at : Double → Ref → Registry Double → Registry Double
  observe_at value ref r = record r {
    histograms = Nested.update ref.name ref.labels (Histogram.observe fl value) r.histograms;
  }

  unfoldable pub get_counter_count : Registry Double → ℕ
  get_counter_count r = Nested.total_size r.counters

  unfoldable pub get_histogram_count : Registry Double → ℕ
  get_histogram_count r = Nested.total_size r.histograms
