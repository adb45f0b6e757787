-- ===== src/Metrics/Labels/Distinct.antt =====
-- Which sets of labels have the same text.
use Prim.Native.Char.{Char, code}
use text.Mathlib.TextLemmas.{
  append_assoc, nil-append, cons-append, append_cancel_left, head-eq_of_cons-eq, nil≢cons,
}
use computer_service_system.Common.{
  ℕ, String, [], ◌∷◌, Bool, true, false, ◌≡◌, refl, sym, ap, ◌∙◌, ◌==◌, if◌then◌else◌, arith,
}
use computer_service_system.Std.Text.{◌<<◌}
use computer_service_system.Std.Contains.{Lacks}
use computer_service_system.Metrics.Labels
use computer_service_system.Metrics.Labels.{Labels, print_pairs}

-- No name holds an equals sign, and no value a quote.
abbrev pub IsReadable : Labels → Type 0
IsReadable [] = Unit
IsReadable ((key, value) ∷ rest) = Lacks b'=' key × Lacks b'"' value × IsReadable rest

-- What stands before the first character with this code, and what after it.
abbrev until : ℕ → String → String × String
until q String.[] = ("", "")
until q (String.◌∷◌ c s) =
    let (before, after) = until q s in if code c == q then ("", s) else (String.◌∷◌ c before, after)

until-append :
    (q : ℕ) (s : String) (c : Char) (u t : String)
    → Lacks q s
    → (code c == q) ≡ true
    → until q (s << String.◌∷◌ c u << t) ≡ (s, u << t)
until-append q String.[] c u t h found =
    rw (nil-append (String.◌∷◌ c u << t)) (rw (cons-append c u t) (rw found refl))
until-append q (String.◌∷◌ d s) c u t h found =
    rw (cons-append d s (String.◌∷◌ c u << t)) (rw (h.0, until-append q s c u t h.1 found) refl)

-- A pair, then the rest and the closing brace.
closed-cons :
    (first : Bool) (key value : String) (rest : Labels)
    → (print_pairs first ((key, value) ∷ rest) << "}")
      ≡ (if first then "" else ",")
        << key
        << "=\""
        << value
        << "\""
        << print_pairs false rest
        << "}"
unfolding print_pairs
closed-cons first key value rest = simp (append_assoc)

-- The text up to the quote that ends a value says which pair it is, and what follows.
pair-same :
    (k v t k' v' t' : String)
    → Lacks b'=' k
    → Lacks b'=' k'
    → Lacks b'"' v
    → Lacks b'"' v'
    → (k << "=\"" << v << "\"" << t) ≡ (k' << "=\"" << v' << "\"" << t')
    → (k ≡ k') × (v ≡ v') × (t ≡ t')
pair-same k v t k' v' t' hk hk' hv hv' e =
    let split : (k, "\"" << v << "\"" << t) ≡ (k', "\"" << v' << "\"" << t') =
      sym (until-append b'=' k "=" "\"" (v << "\"" << t) hk refl)
      ∙ ap (until b'=') e
      ∙ until-append b'=' k' "=" "\"" (v' << "\"" << t') hk' refl in
    let values : (v << "\"" << t) ≡ (v' << "\"" << t') =
      append_cancel_left "\"" _ _ (ap (λ x. x.1) split) in
    let ends : (v, "" << t) ≡ (v', "" << t') =
      sym (until-append b'"' v "\"" "" t hv refl)
      ∙ ap (until b'"') values
      ∙ until-append b'"' v' "\"" "" t' hv' refl in
    (ap (λ x. x.0) split, ap (λ x. x.0) ends, append_cancel_left "" _ _ (ap (λ x. x.1) ends))

brace-comma : (t : String) → ("" << "}") ≡ ("," << t) → ⊥
brace-comma t e =
    let same : code "}" ≡ code "," =
      ap code (head-eq_of_cons-eq (sym (nil-append "}") ∙ e ∙ cons-append "," "" t)) in
    omega (arith, same)

pairs-same :
    (l l' : Labels)
    → IsReadable l
    → IsReadable l'
    → (print_pairs false l << "}") ≡ (print_pairs false l' << "}")
    → l ≡ l'
unfolding print_pairs
pairs-same [] [] h h' e = refl
pairs-same [] ((k', v') ∷ l') h h' e = absurd (brace-comma _ (e ∙ closed-cons false k' v' l'))
pairs-same ((k, v) ∷ l) [] h h' e = absurd (brace-comma _ (sym e ∙ closed-cons false k v l))
pairs-same ((k, v) ∷ l) ((k', v') ∷ l') (hk, hv, h) (hk', hv', h') e =
    let (key, value, rest) = pair-same k v _ k' v' _ hk hk' hv hv' (
      append_cancel_left "," _ _
        (sym (closed-cons false k v l) ∙ e ∙ closed-cons false k' v' l')) in
    let tail : l ≡ l' = pairs-same l l' h h' rest in λ i. (key i, value i) ∷ tail i

open_brace : (t : String) → "" ≡ ("{" << t) → ⊥
open_brace t e = nil≢cons (e ∙ cons-append "{" "" t)

-- If no name holds an equals sign, and no value a quote, labels with the same text are the same.
pub to_string-distinct :
    (l l' : Labels)
    → IsReadable l
    → IsReadable l'
    → Labels.to_string l ≡ Labels.to_string l'
    → l ≡ l'
unfolding Labels.to_string print_pairs
to_string-distinct [] [] h h' e = refl
to_string-distinct [] (p ∷ l') h h' e = absurd (open_brace _ e)
to_string-distinct (p ∷ l) [] h h' e = absurd (open_brace _ (sym e))
to_string-distinct ((k, v) ∷ l) ((k', v') ∷ l') (hk, hv, h) (hk', hv', h') e =
    let (key, value, rest) = pair-same k v _ k' v' _ hk hk' hv hv' (
      append_cancel_left "" _ _ (
        sym (closed-cons true k v l) ∙ append_cancel_left "{" _ _ e ∙ closed-cons true k' v' l')) in
    let tail : l ≡ l' = pairs-same l l' h h' rest in λ i. (key i, value i) ∷ tail i

-- A value with a quote in it can make two sets of labels look the same.
to_string_ambiguous :
    (k v k' v' : String) (rest : Labels)
    → Labels.to_string ((k, v << "\"," << k' << "=\"" << v') ∷ rest)
      ≡ Labels.to_string ((k, v) ∷ (k', v') ∷ rest)
unfolding Labels.to_string print_pairs
to_string_ambiguous k v k' v' rest = simp (append_assoc, split)
  where
    split : (t : String) → ("\"," << t) ≡ ("\"" << "," << t)
    split t = append_assoc "\"" "," t
