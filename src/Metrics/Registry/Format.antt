-- ===== src/Metrics/Registry/Format.antt =====
-- `MetricsRegistry::format` of src/metrics.h: the text that a scrape gets. The two unordered
-- containers are walked in the orders that the parameters give.
use computer_service_system.Common.{String}
use computer_service_system.Std.OrderedMap.{OrderedMap}
use computer_service_system.Std.HashMap
use computer_service_system.Std.HashMap.{HashMap, Walk, get_or}
use computer_service_system.Std.Floating.{Floating}
use computer_service_system.Std.Text.{◌<<◌}
use computer_service_system.Std.Contains.{print_each}
use computer_service_system.Metrics.Labels.{Labels}
use computer_service_system.Metrics.Counter
use computer_service_system.Metrics.Counter.{Counter}
use computer_service_system.Metrics.Histogram
use computer_service_system.Metrics.Histogram.{Histogram}
use computer_service_system.Metrics.Registry.{Registry}

module _ (fl : Floating) where
  open fl use {Double}

  -- The lines of one base name: TYPE and HELP once, then each combination of labels.
  unfoldable pub format_counters :
      HashMap String → String × OrderedMap Labels (Counter Double) → String
  format_counters helps (name, inner) =
      Counter.format_type_help name (get_or "" (HashMap.find name helps)) "counter"
      << print_each (λ (e : Labels × Counter Double). Counter.format fl e.1) inner

  unfoldable pub format_histograms :
      HashMap String → String × OrderedMap Labels (Histogram Double) → String
  format_histograms helps (name, inner) =
      Histogram.format_type_help name (get_or "" (HashMap.find name helps))
      << print_each (λ (e : Labels × Histogram Double). Histogram.format fl e.1) inner

  module _ (wc : Walk (OrderedMap Labels (Counter Double)))
      (wh : Walk (OrderedMap Labels (Histogram Double))) where
    unfoldable pub format : Registry Double → String
    format r =
        print_each (format_counters r.counter_helps) (wc.entries r.counters)
        << print_each (format_histograms r.histogram_helps) (wh.entries r.histograms)
