-- ===== src/Metrics/Registry/Document/Kept.antt =====
-- The calls that find and change a metric keep the texts of the registry free of line feeds.
use computer_service_system.Common.{
  ℕ, ℤ, pos, String, [], refl, Bool, true, false, if◌then◌else◌, str_eq, All,
}
use computer_service_system.Std.Ord.{string_ord, pair_ord, list_ord}
use computer_service_system.Std.Floating.{Floating}
use computer_service_system.Std.HashMap.{HashMap}
use computer_service_system.Std.Text as Text
use computer_service_system.Std.Text.Digits.{to_string-Lacks}
use computer_service_system.Std.Lines.{literal}
use computer_service_system.Std.Held.{
  either, All-assign, All-ordered_assign, Family-update, Family-emplace, Family-find_or_create,
}
use computer_service_system.Metrics.Labels.{Labels, with_label}
use computer_service_system.Metrics.Counter
use computer_service_system.Metrics.Counter.{Counter}
use computer_service_system.Metrics.Histogram
use computer_service_system.Metrics.Histogram.{Histogram}
use computer_service_system.Metrics.Registry.{
  Registry, store_help, get_counter, get_histogram, increment_at, observe_at,
}
use computer_service_system.Metrics.Registry.Start.{emplace_counter, http_labels, duration_help}
use computer_service_system.Metrics.Registry.Record.{count, observe_duration, numbered_labels}
use computer_service_system.Metrics.Registry.Document.Plain.{
  IsLine, PlainLabels, PlainCounter, PlainHistogram, IsPlain,
}

with_label-PlainLabels :
    (key value : String) (l : Labels)
    → IsLine key
    → IsLine value
    → PlainLabels l
    → PlainLabels (with_label key value l)
with_label-PlainLabels key value l hk hv h =
    All-ordered_assign (λ e. IsLine e.0 × IsLine e.1) key value l (λ j w pair. (pair.0, hv))
      (hk, hv) h

bool_text-IsLine : (b : Bool) → IsLine (if b then "true" else "false")
bool_text-IsLine true = (literal "true" refl).1
bool_text-IsLine false = (literal "false" refl).1

pub http_labels-PlainLabels :
    (method path : String) (status : ℕ)
    → IsLine method
    → IsLine path
    → PlainLabels (http_labels method path status)
unfolding http_labels
http_labels-PlainLabels method path status hm hp =
    with_label-PlainLabels "status" _ _ (literal "status" refl).1 (to_string-Lacks (pos status)) (
      with_label-PlainLabels "path" path _ (literal "path" refl).1 hp
        (with_label-PlainLabels "method" method [] (literal "method" refl).1 hm tt))

-- The labels that end with the success of an operation.
pub success_labels-PlainLabels :
    (key value : String) (l : Labels) (success : Bool)
    → IsLine key
    → IsLine value
    → PlainLabels l
    → PlainLabels
        (with_label "success" (if success then "true" else "false") (with_label key value l))
success_labels-PlainLabels key value l success hk hv h =
    with_label-PlainLabels "success" _ _ (literal "success" refl).1 (bool_text-IsLine success)
      (with_label-PlainLabels key value l hk hv h)

pub numbered_labels-PlainLabels :
    (number operation : String) (id : ℤ) (success : Bool)
    → IsLine number
    → IsLine operation
    → PlainLabels (numbered_labels number operation id success)
unfolding numbered_labels
numbered_labels-PlainLabels number operation id success hn ho =
    success_labels-PlainLabels number (Text.to_string id) _ success hn (to_string-Lacks id)
      (with_label-PlainLabels "operation" operation [] (literal "operation" refl).1 ho tt)

store_help-IsLine :
    (name help : String) (helps : HashMap String)
    → IsLine help
    → All (λ e. IsLine e.1) helps
    → All (λ e. IsLine e.1) (store_help name help helps)
unfolding store_help
store_help-IsLine name help helps hh h =
    either (All (λ e. IsLine e.1)) (str_eq help "") h (All-assign IsLine name help helps hh h)

module _ (fl : Floating) where
  open fl use {Double, thousandths}

  increment-PlainCounter :
      (d : Double) (c : Counter Double) → PlainCounter c → PlainCounter (Counter.increment fl d c)
  unfolding Counter.increment
  increment-PlainCounter d c h = h

  observe-PlainHistogram :
      (d : Double) (h : Histogram Double)
      → PlainHistogram h
      → PlainHistogram (Histogram.observe fl d h)
  unfolding Histogram.observe
  observe-PlainHistogram d h plain = plain

  pub count-IsPlain :
      (n help : String) (l : Labels) {r : Registry Double}
      → IsLine n
      → IsLine help
      → PlainLabels l
      → IsPlain r
      → IsPlain (count fl n help l r)
  unfolding count get_counter increment_at Counter.create
  count-IsPlain n help l {r} hn hh hl p = record {
    counters =
        Family-update IsLine PlainCounter n l _ _ (increment-PlainCounter (thousandths 1000))
          (Family-find_or_create IsLine PlainCounter n l _ r.counters hn (hn, hl) p.counters);
    histograms = p.histograms;
    counter_helps = store_help-IsLine n help r.counter_helps hh p.counter_helps;
    histogram_helps = p.histogram_helps;
  }

  pub observe_duration-IsPlain :
      (d : Double) {r : Registry Double} → IsPlain r → IsPlain (observe_duration fl d r)
  unfolding observe_duration get_histogram observe_at Histogram.create
  observe_duration-IsPlain d {r} p =
      let name = (literal "http_request_duration_seconds" refl).1 in
      record {
        counters = p.counters;
        histograms =
            Family-update IsLine PlainHistogram "http_request_duration_seconds" [] _ _
              (observe-PlainHistogram d)
              (Family-find_or_create IsLine PlainHistogram "http_request_duration_seconds" [] _
                r.histograms name (name, tt) p.histograms);
        counter_helps = p.counter_helps;
        histogram_helps =
            store_help-IsLine _ duration_help r.histogram_helps (literal duration_help refl).1
              p.histogram_helps;
      }

  pub emplace_counter-IsPlain :
      (n help : String) (l : Labels) {r : Registry Double}
      → IsLine n
      → PlainLabels l
      → IsPlain r
      → IsPlain (emplace_counter fl n help l r)
  unfolding emplace_counter Counter.create
  emplace_counter-IsPlain n help l {r} hn hl p = record {
    counters = Family-emplace IsLine PlainCounter n l _ r.counters hn (hn, hl) p.counters;
    histograms = p.histograms;
    counter_helps = p.counter_helps;
    histogram_helps = p.histogram_helps;
  }
