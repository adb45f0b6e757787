-- ===== src/Metrics/Registry/Document/Plain.antt =====
-- Registries whose texts hold no line feed, and the lines that are made of such texts.

use Prim.Native.Char.{code}
use computer_service_system.Common.{
  ℕ, String, List, [], ◌∷◌, ◌++◌, map, refl, Bool, true, false, if◌then◌else◌, str_eq, All, ◌==◌,
}
use computer_service_system.Std.Text as Text
use computer_service_system.Std.Text.{◌<<◌}
use computer_service_system.Std.Text.Digits.{to_string_ℕ-Lacks}
use computer_service_system.Std.Contains.{Lacks}
use computer_service_system.Std.Lines.{joined-Lacks, literal}
use computer_service_system.Std.Held.{either, Family}
use computer_service_system.Metrics.Labels
use computer_service_system.Metrics.Labels.{Labels, print_pairs}
use computer_service_system.Metrics.Counter.{Counter}
use computer_service_system.Metrics.Histogram.{Histogram, label_part}
use computer_service_system.Metrics.Registry.{Registry}
use computer_service_system.Metrics.Registry.Document.{
  Line, sample, show, flat, heading, bucket_sample,
}

abbrev pub IsLine : String → Type 0
IsLine s = Lacks 10 s

abbrev pub PlainLabels : Labels → Type 0
PlainLabels l = All (λ (e : String × String). IsLine e.0 × IsLine e.1) l

abbrev pub PlainCounter : {Double : Type 0} → Counter Double → Type 0
PlainCounter c = IsLine c.name × PlainLabels c.labels

abbrev pub PlainHistogram : {Double : Type 0} → Histogram Double → Type 0
PlainHistogram h = IsLine h.name × PlainLabels h.labels

-- None of the texts of the registry holds a line feed.
pub record IsPlain {Double : Type 0} (r : Registry Double) : Type 0 where
  pub counters : All (Family IsLine PlainCounter) r.counters
  pub histograms : All (Family IsLine PlainHistogram) r.histograms
  pub counter_helps : All (λ e. IsLine e.1) r.counter_helps
  pub histogram_helps : All (λ e. IsLine e.1) r.histogram_helps

print_pairs-IsLine : (first : Bool) (l : Labels) → PlainLabels l → IsLine (print_pairs first l)
unfolding print_pairs
print_pairs-IsLine first [] h = tt
print_pairs-IsLine first ((key, value) ∷ l) h = joined-Lacks (
    (if first then "" else ",", either IsLine first {x = ""} {y = ","} tt (refl, tt))
    ∷ (key, h.0.0)
    ∷ literal "=\"" refl
    ∷ (value, h.0.1)
    ∷ literal "\"" refl
    ∷ (print_pairs false l, print_pairs-IsLine false l h.1)
    ∷ [])

pub to_string-IsLine : (l : Labels) → PlainLabels l → IsLine (Labels.to_string l)
unfolding Labels.to_string
to_string-IsLine [] h = tt
to_string-IsLine (p ∷ l) h = joined-Lacks (
    literal "{" refl
    ∷ (print_pairs true (p ∷ l), print_pairs-IsLine true (p ∷ l) h)
    ∷ literal "}" refl
    ∷ [])

pub label_part-IsLine : (s : String) → IsLine s → IsLine (label_part s)
unfolding label_part
label_part-IsLine String.[] h = tt
label_part-IsLine (String.◌∷◌ c s) h =
    either IsLine (code c == b'{') {x = s} {y = String.◌∷◌ c s} h.1 h

-- The lines of the document, as texts.
abbrev pub AreLines : List Line → Type 0
AreLines ls = All IsLine (map show ls)

pub AreLines-append : (ls ls' : List Line) → AreLines ls → AreLines ls' → AreLines (ls ++ ls')
AreLines-append [] ls' h k = k
AreLines-append (l ∷ ls) ls' h k = (h.0, AreLines-append ls ls' h.1 k)

pub AreLines-flat {ℓ κ} :
    {A : Type ℓ} (P : A → Type κ) (g : A → List Line) (xs : List A)
    → ((x : A) → P x → AreLines (g x))
    → All P xs
    → AreLines (flat g xs)
AreLines-flat P g [] each h = tt
AreLines-flat P g (x ∷ xs) each h =
    AreLines-append (g x) (flat g xs) (each x h.0) (AreLines-flat P g xs each h.1)

pub heading-AreLines :
    (name kind help : String)
    → IsLine name
    → IsLine kind
    → IsLine help
    → AreLines (heading name kind help)
heading-AreLines name kind help hn hk hh = (
  joined-Lacks (literal "# TYPE " refl ∷ (name, hn) ∷ literal " " refl ∷ (kind, hk) ∷ []),
  either AreLines (str_eq help "") tt
      (joined-Lacks (literal "# HELP " refl ∷ (name, hn) ∷ literal " " refl ∷ (help, hh) ∷ []), tt),
)

pub sample-IsLine :
    (name labels value : String)
    → IsLine name
    → IsLine labels
    → IsLine value
    → IsLine (show (sample name labels value))
sample-IsLine name labels value hn hl hv =
    joined-Lacks ((name, hn) ∷ (labels, hl) ∷ literal " " refl ∷ (value, hv) ∷ [])

pub bucket_sample-IsLine :
    (name part bound : String) (n : ℕ)
    → IsLine name
    → IsLine part
    → IsLine bound
    → IsLine (show (bucket_sample name part bound n))
bucket_sample-IsLine name part bound n hn hp hb =
    sample-IsLine (name << "_bucket") _ (Text.to_string_ℕ n)
      (joined-Lacks ((name, hn) ∷ literal "_bucket" refl ∷ []))
      (joined-Lacks (
        literal "{le=\"" refl
        ∷ (bound, hb)
        ∷ literal "\"" refl
        ∷ (
          if str_eq part "" then "" else "," << part,
          either IsLine (str_eq part "") {x = ""} {y = "," << part} tt
              (joined-Lacks (literal "," refl ∷ (part, hp) ∷ [])),
        )
        ∷ literal "}" refl
        ∷ []))
      (to_string_ℕ-Lacks n)
