-- ===== src/Metrics/Registry/Document/Separate.antt =====
-- The samples of a scrape, each on a line of its own.
use mathlib.Core.List.{Permᴰ}
use mathlib.Core.List as List
use mathlib.Core.Logic.{∥∥₁_elim}
use text.Mathlib.TextEquality.{IsScalar-prop}
use computer_service_system.Common.{String, List, [], ◌∷◌, map, ◌≡◌, refl, ap, ◌∙◌, All}
use computer_service_system.Std.Floating.{Floating}
use computer_service_system.Std.OrderedMap.{OrderedMap}
use computer_service_system.Std.HashMap
use computer_service_system.Std.HashMap.{HashMap, Walk, get_or}
use computer_service_system.Std.Text.{◌<<◌}
use computer_service_system.Std.Text.Digits.{to_string_ℕ-Lacks}
use computer_service_system.Std.Lines.{lines, lines-unlines, joined-Lacks, literal}
use computer_service_system.Std.Held.{All-Permᴰ, get_or-find, Family}
use computer_service_system.Metrics.Labels.{Labels}
use computer_service_system.Metrics.Counter.{Counter}
use computer_service_system.Metrics.Histogram.{Histogram}
use computer_service_system.Metrics.Registry.{Registry}
use computer_service_system.Metrics.Registry.Format.{format}
use computer_service_system.Metrics.Registry.Document.Printed.{format-document}
use computer_service_system.Metrics.Registry.Document.{
  show, flat, heading, counter_sample, bucket_samples, totals, histogram_samples, counter_family,
  histogram_family, document,
}
use computer_service_system.Metrics.Registry.Document.Plain.{
  IsLine, PlainCounter, PlainHistogram, IsPlain, AreLines, AreLines-append, AreLines-flat,
  heading-AreLines, sample-IsLine, bucket_sample-IsLine, to_string-IsLine, label_part-IsLine,
}

module _ (fl : Floating) where
  open fl use {Double, fixed, fixed-Lacks}

  bucket_samples-AreLines :
      (h : Histogram Double) (bounds : List Double)
      → PlainHistogram h
      → AreLines (bucket_samples fl h bounds)
  bucket_samples-AreLines h [] plain = tt
  bucket_samples-AreLines h (b ∷ bounds) plain = (
    bucket_sample-IsLine h.name _ (fixed 4 b) _ plain.0
        (label_part-IsLine _ (to_string-IsLine h.labels plain.1)) (fixed-Lacks 4 b),
    bucket_samples-AreLines h bounds plain,
  )

  totals-AreLines : (h : Histogram Double) → PlainHistogram h → AreLines (totals fl h)
  totals-AreLines h (hn, hl) = (
    bucket_sample-IsLine h.name _ "+Inf" h.count hn
        (label_part-IsLine _ (to_string-IsLine h.labels hl)) (literal "+Inf" refl).1,
    (
      sample-IsLine (h.name << "_sum") _ _ (joined-Lacks ((h.name, hn) ∷ literal "_sum" refl ∷ []))
          (to_string-IsLine h.labels hl) (fixed-Lacks 6 h.sum),
      (
        sample-IsLine (h.name << "_count") _ _
            (joined-Lacks ((h.name, hn) ∷ literal "_count" refl ∷ []))
            (to_string-IsLine h.labels hl) (to_string_ℕ-Lacks h.count),
        tt,
      ),
    ),
  )

  counter_samples-AreLines :
      (inner : OrderedMap Labels (Counter Double))
      → All (λ (e : Labels × Counter Double). PlainCounter e.1) inner
      → AreLines (map (counter_sample fl) inner)
  counter_samples-AreLines [] h = tt
  counter_samples-AreLines ((l, c) ∷ inner) h = (
    sample-IsLine c.name _ _ h.0.0 (to_string-IsLine c.labels h.0.1) (fixed-Lacks 0 c.value),
    counter_samples-AreLines inner h.1,
  )

  histogram_samples-AreLines :
      (inner : OrderedMap Labels (Histogram Double))
      → All (λ (e : Labels × Histogram Double). PlainHistogram e.1) inner
      → AreLines (flat (histogram_samples fl) inner)
  histogram_samples-AreLines inner h =
      AreLines-flat (λ e. PlainHistogram e.1) (histogram_samples fl) inner
        (λ e plain.
          AreLines-append (bucket_samples fl e.1 e.1.buckets) (totals fl e.1)
            (bucket_samples-AreLines e.1 e.1.buckets plain) (totals-AreLines e.1 plain))
        h

  counter_family-AreLines :
      (helps : HashMap String) (family : String × OrderedMap Labels (Counter Double))
      → All (λ e. IsLine e.1) helps
      → Family IsLine PlainCounter family
      → AreLines (counter_family fl helps family)
  counter_family-AreLines helps (name, inner) hh (hn, hi) =
      AreLines-append (heading name "counter" (get_or "" (HashMap.find name helps))) _
        (heading-AreLines name "counter" _ hn (literal "counter" refl).1
          (get_or-find IsLine "" name helps tt hh))
        (counter_samples-AreLines inner hi)

  histogram_family-AreLines :
      (helps : HashMap String) (family : String × OrderedMap Labels (Histogram Double))
      → All (λ e. IsLine e.1) helps
      → Family IsLine PlainHistogram family
      → AreLines (histogram_family fl helps family)
  histogram_family-AreLines helps (name, inner) hh (hn, hi) =
      AreLines-append (heading name "histogram" (get_or "" (HashMap.find name helps))) _
        (heading-AreLines name "histogram" _ hn (literal "histogram" refl).1
          (get_or-find IsLine "" name helps tt hh))
        (histogram_samples-AreLines inner hi)

  module _ (wc : Walk (OrderedMap Labels (Counter Double)))
      (wh : Walk (OrderedMap Labels (Histogram Double))) where
    -- A reader that takes the text of a scrape apart at its line feeds gets the document.
    pub lines-format :
        (r : Registry Double)
        → IsPlain r
        → lines (format fl wc wh r) ≡ map show (document fl wc wh r)
    lines-format r plain = ∥∥₁_elim (wc.entries-perm r.counters) text_lists λ pc.
        ∥∥₁_elim (wh.entries-perm r.histograms) text_lists λ ph.
          ap lines (format-document fl wc wh r)
          ∙ lines-unlines (map show (document fl wc wh r)) (
              AreLines-append (flat (counter_family fl r.counter_helps) (wc.entries r.counters))
                (flat (histogram_family fl r.histogram_helps) (wh.entries r.histograms))
                (AreLines-flat (Family IsLine PlainCounter) (counter_family fl r.counter_helps)
                  (wc.entries r.counters)
                  (λ f. counter_family-AreLines r.counter_helps f plain.counter_helps)
                  (All-Permᴰ (Family IsLine PlainCounter) pc plain.counters))
                (AreLines-flat (Family IsLine PlainHistogram)
                  (histogram_family fl r.histogram_helps) (wh.entries r.histograms)
                  (λ f. histogram_family-AreLines r.histogram_helps f plain.histogram_helps)
                  (All-Permᴰ (Family IsLine PlainHistogram) ph plain.histograms)))
      where
        text_lists : IsProp (lines (format fl wc wh r) ≡ map show (document fl wc wh r))
        text_lists =
            List.is_set (hlevel IsScalar-prop) (lines (format fl wc wh r))
              (map show (document fl wc wh r))
