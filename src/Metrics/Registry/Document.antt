-- ===== src/Metrics/Registry/Document.antt =====
-- The text of a scrape as a list of lines, each of which is a "# TYPE", a "# HELP" or a sample.
pub mod Printed
pub mod Plain
pub mod Separate
pub mod Kept
pub mod Events
pub mod Read
use text.Mathlib.TextLemmas.{append_assoc, nil-append}
use computer_service_system.Common.{
  ℕ, ◌%◌, ◌^◌, String, List, [], ◌∷◌, ◌++◌, map, ◌≡◌, refl, sym, ap, ◌∙◌, if◌then◌else◌, str_eq,
  inl, inr, Bool-cases,
}
use computer_service_system.Std.Floating.{Floating}
use computer_service_system.Std.OrderedMap.{OrderedMap}
use computer_service_system.Std.HashMap
use computer_service_system.Std.HashMap.{HashMap, Walk, get_or}
use computer_service_system.Std.Text as Text
use computer_service_system.Std.Text.{◌<<◌}
use computer_service_system.Std.Contains.{print_each}
use computer_service_system.Std.Lines.{unlines}
use computer_service_system.Metrics.Labels
use computer_service_system.Metrics.Labels.{Labels}
use computer_service_system.Metrics.Counter
use computer_service_system.Metrics.Counter.{Counter}
use computer_service_system.Metrics.Histogram
use computer_service_system.Metrics.Histogram.{Histogram, label_part, bucket_line, bucket_lines}
use computer_service_system.Metrics.Histogram.Buckets.{below, bucket_counts_lem}
use computer_service_system.Metrics.Registry.{Registry}
use computer_service_system.Metrics.Registry.Format.{format, format_counters, format_histograms}

pub data Line : Type 0 where
  type_of : String → String → Line
  help_of : String → String → Line
  -- the name, the labels as they are printed, and the value
  sample : String → String → String → Line

abbrev pub show : Line → String
show (type_of name kind) = "# TYPE " << name << " " << kind
show (help_of name help) = "# HELP " << name << " " << help
show (sample name labels value) = name << labels << " " << value

-- The lists of the entries, one after the other.
abbrev pub flat {ℓ κ} : {A : Type ℓ} {B : Type κ} → (A → List B) → List A → List B
flat f [] = []
flat f (x ∷ xs) = f x ++ flat f xs

-- The head of a family: its type, and its help text if there is one.
abbrev pub heading : String → String → String → List Line
heading name kind help = type_of name kind ∷ (if str_eq help "" then [] else help_of name help ∷ [])

abbrev pub bucket_sample : String → String → String → ℕ → Line
bucket_sample name part bound n =
    sample (name << "_bucket")
      ("{le=\"" << bound << "\"" << (if str_eq part "" then "" else "," << part) << "}")
      (Text.to_string_ℕ n)

abbrev pub text_of : List Line → String
text_of ls = unlines (map show ls)

module _ (fl : Floating) where
  open fl use {Double, fixed}

  abbrev pub counter_sample : Labels × Counter Double → Line
  counter_sample (l, c) = sample c.name (Labels.to_string c.labels) (fixed 0 c.value)

  -- A bucket holds the values that do not exceed its bound, counted modulo 2^64.
  abbrev pub bucket_samples : Histogram Double → List Double → List Line
  bucket_samples h bounds =
      map
        (λ b.
          bucket_sample h.name (label_part (Labels.to_string h.labels)) (fixed 4 b)
            (below fl b h.values % 2 ^ 64))
        bounds

  abbrev pub totals : Histogram Double → List Line
  totals h =
      let shown = Labels.to_string h.labels in
      bucket_sample h.name (label_part shown) "+Inf" h.count
      ∷ sample (h.name << "_sum") shown (fixed 6 h.sum)
      ∷ sample (h.name << "_count") shown (Text.to_string_ℕ h.count)
      ∷ []

  abbrev pub histogram_samples : Labels × Histogram Double → List Line
  histogram_samples (l, h) = bucket_samples h h.buckets ++ totals h

  abbrev pub counter_family :
      HashMap String → String × OrderedMap Labels (Counter Double) → List Line
  counter_family helps (name, inner) =
      heading name "counter" (get_or "" (HashMap.find name helps)) ++ map counter_sample inner

  abbrev pub histogram_family :
      HashMap String → String × OrderedMap Labels (Histogram Double) → List Line
  histogram_family helps (name, inner) =
      heading name "histogram" (get_or "" (HashMap.find name helps)) ++ flat histogram_samples inner

  module _ (wc : Walk (OrderedMap Labels (Counter Double)))
      (wh : Walk (OrderedMap Labels (Histogram Double))) where
    -- The families of the counters, then those of the histograms, as the containers are walked.
    abbrev pub document : Registry Double → List Line
    document r =
        flat (counter_family r.counter_helps) (wc.entries r.counters)
        ++ flat (histogram_family r.histogram_helps) (wh.entries r.histograms)
