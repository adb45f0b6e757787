-- ===== src/Metrics/Registry/Document/Printed.antt =====
-- `MetricsRegistry::format` of src/metrics.h prints the lines of the document.
use text.Mathlib.TextLemmas.{append_assoc, nil-append}
use computer_service_system.Common.{
  ℕ, ◌%◌, ◌^◌, String, List, [], ◌∷◌, ◌++◌, map, ◌≡◌, refl, sym, ap, ◌∙◌, str_eq, inl, inr,
  Bool-cases,
}
use computer_service_system.Std.Floating.{Floating}
use computer_service_system.Std.OrderedMap.{OrderedMap}
use computer_service_system.Std.HashMap
use computer_service_system.Std.HashMap.{HashMap, Walk, get_or}
use computer_service_system.Std.Text as Text
use computer_service_system.Std.Text.{◌<<◌}
use computer_service_system.Std.Contains.{print_each}
use computer_service_system.Std.Lines.{unlines}
use computer_service_system.Metrics.Labels
use computer_service_system.Metrics.Labels.{Labels}
use computer_service_system.Metrics.Counter
use computer_service_system.Metrics.Counter.{Counter}
use computer_service_system.Metrics.Histogram
use computer_service_system.Metrics.Histogram.{Histogram, label_part, bucket_line, bucket_lines}
use computer_service_system.Metrics.Histogram.Buckets.{below, bucket_counts_lem}
use computer_service_system.Metrics.Registry.{Registry}
use computer_service_system.Metrics.Registry.Format.{format, format_counters, format_histograms}
use computer_service_system.Metrics.Registry.Document.{
  Line, show, flat, heading, bucket_sample, text_of, counter_sample, bucket_samples, totals,
  histogram_samples, counter_family, histogram_family, document,
}

text_of-append : (ls ls' : List Line) → text_of (ls ++ ls') ≡ text_of ls << text_of ls'
unfolding unlines print_each
text_of-append [] ls' = sym (nil-append (text_of ls'))
text_of-append (l ∷ ls) ls' =
    ap (λ t. (show l << "\n") << t) (text_of-append ls ls')
    ∙ sym (append_assoc (show l << "\n") (text_of ls) (text_of ls'))

-- A loop that prints some lines for each entry.
text_of-flat {ℓ} :
    {A : Type ℓ} (f : A → String) (g : A → List Line) (xs : List A)
    → ((x : A) → f x ≡ text_of (g x))
    → print_each f xs ≡ text_of (flat g xs)
unfolding unlines print_each
text_of-flat f g [] h = refl
text_of-flat f g (x ∷ xs) h =
    (λ i. h x i << text_of-flat f g xs h i) ∙ sym (text_of-append (g x) (flat g xs))

counter_heading :
    (name help : String)
    → Counter.format_type_help name help "counter" ≡ text_of (heading name "counter" help)
unfolding Counter.format_type_help unlines print_each
counter_heading name help = elim (Bool-cases (str_eq help "")) [
  | inl none_given ↦ rw none_given (simp append_assoc)
  | inr given ↦ rw given (simp append_assoc)
]

histogram_heading :
    (name help : String)
    → Histogram.format_type_help name help ≡ text_of (heading name "histogram" help)
unfolding Histogram.format_type_help unlines print_each
histogram_heading name help = elim (Bool-cases (str_eq help "")) [
  | inl none_given ↦ rw none_given (simp (append_assoc, kind))
  | inr given ↦ rw given (simp (append_assoc, kind))
]
  where
    kind : (t : String) → (" histogram\n" << t) ≡ (" " << "histogram" << "\n" << t)
    kind t = append_assoc " " "histogram\n" t ∙ ap (λ u. " " << u) (append_assoc "histogram" "\n" t)

bucket_line-sample :
    (name part bound : String) (n : ℕ)
    → bucket_line name part bound n ≡ show (bucket_sample name part bound n) << "\n"
unfolding bucket_line
bucket_line-sample name part bound n = simp (append_assoc, bucket, brace)
  where
    bucket : (t : String) → ("_bucket{le=\"" << t) ≡ ("_bucket" << "{le=\"" << t)
    bucket t = append_assoc "_bucket" "{le=\"" t

    brace : (t : String) → ("} " << t) ≡ ("}" << " " << t)
    brace t = append_assoc "}" " " t

module _ (fl : Floating) where
  open fl use {Double, fixed}

  bucket_lines-samples :
      (h : Histogram Double) (bounds : List Double)
      → bucket_lines fl h.name
          (label_part (Labels.to_string h.labels))
          bounds
          (map (λ b. below fl b h.values % 2 ^ 64) bounds)
        ≡ text_of (bucket_samples fl h bounds)
  unfolding bucket_lines unlines print_each
  bucket_lines-samples h [] = refl
  bucket_lines-samples h (b ∷ bounds) = λ i.
      bucket_line-sample h.name (label_part (Labels.to_string h.labels)) (fixed 4 b)
        (below fl b h.values % 2 ^ 64) i
      << bucket_lines-samples h bounds i

  counter_format-samples :
      (inner : OrderedMap Labels (Counter Double))
      → print_each (λ (e : Labels × Counter Double). Counter.format fl e.1) inner
        ≡ text_of (map (counter_sample fl) inner)
  unfolding Counter.format unlines print_each
  counter_format-samples [] = refl
  counter_format-samples ((l, c) ∷ inner) = rw (counter_format-samples inner) (simp append_assoc)

  format-totals :
      (h : Histogram Double)
      → bucket_line h.name (label_part (Labels.to_string h.labels)) "+Inf" h.count
          << h.name
          << "_sum"
          << Labels.to_string h.labels
          << " "
          << fixed 6 h.sum
          << "\n"
          << h.name
          << "_count"
          << Labels.to_string h.labels
          << " "
          << Text.to_string_ℕ h.count
          << "\n"
        ≡ text_of (totals fl h)
  unfolding unlines print_each
  format-totals h =
      rw (bucket_line-sample h.name (label_part (Labels.to_string h.labels)) "+Inf" h.count)
        (simp append_assoc)

  histogram_format-samples :
      (e : Labels × Histogram Double) → Histogram.format fl e.1 ≡ text_of (histogram_samples fl e)
  unfolding Histogram.format
  histogram_format-samples (l, h) =
      rw (bucket_counts_lem fl h, bucket_lines-samples h h.buckets)
        (ap (λ t. text_of (bucket_samples fl h h.buckets) << t) (format-totals h)
          ∙ sym (text_of-append (bucket_samples fl h h.buckets) (totals fl h)))

  counter_family-text :
      (helps : HashMap String) (family : String × OrderedMap Labels (Counter Double))
      → format_counters fl helps family ≡ text_of (counter_family fl helps family)
  unfolding format_counters
  counter_family-text helps (name, inner) =
      let help = get_or "" (HashMap.find name helps) in
      (λ i. counter_heading name help i << counter_format-samples inner i)
      ∙ sym (text_of-append (heading name "counter" help) (map (counter_sample fl) inner))

  histogram_family-text :
      (helps : HashMap String) (family : String × OrderedMap Labels (Histogram Double))
      → format_histograms fl helps family ≡ text_of (histogram_family fl helps family)
  unfolding format_histograms
  histogram_family-text helps (name, inner) =
      let help = get_or "" (HashMap.find name helps) in
      (λ i.
        histogram_heading name help i
        << text_of-flat (λ (e : Labels × Histogram Double). Histogram.format fl e.1)
            (histogram_samples fl) inner histogram_format-samples i)
      ∙ sym (text_of-append (heading name "histogram" help) (flat (histogram_samples fl) inner))

  module _ (wc : Walk (OrderedMap Labels (Counter Double)))
      (wh : Walk (OrderedMap Labels (Histogram Double))) where
    pub format-document :
        (r : Registry Double) → format fl wc wh r ≡ unlines (map show (document fl wc wh r))
    unfolding format
    format-document r = (λ i. counters i << histograms i) ∙ sym (text_of-append _ _)
      where
        counters :
            print_each (format_counters fl r.counter_helps) (wc.entries r.counters)
            ≡ text_of (flat (counter_family fl r.counter_helps) (wc.entries r.counters))
        counters =
            text_of-flat (format_counters fl r.counter_helps) (counter_family fl r.counter_helps)
              (wc.entries r.counters) (counter_family-text r.counter_helps)

        histograms :
            print_each (format_histograms fl r.histogram_helps) (wh.entries r.histograms)
            ≡ text_of (flat (histogram_family fl r.histogram_helps) (wh.entries r.histograms))
        histograms =
            text_of-flat (format_histograms fl r.histogram_helps)
              (histogram_family fl r.histogram_helps) (wh.entries r.histograms)
              (histogram_family-text r.histogram_helps)
