-- ===== src/Std/Contains.antt =====
-- A text as a part of another, and of the text that a loop prints.
use text.Mathlib.TextLemmas.{append_assoc, append-nil, nil-append}
use mathlib.Core.List.{Mem, mem-cons, not-mem-nil}
use mathlib.Core.Logic.{∥∥₁_elim, ∥∥₁_map, ∥∥₁_prop}
use mathlib.Core.Logic.Or
use Prim.Native.Char.{code}
use computer_service_system.Common.{ℕ, String, ◌≡◌, sym, ap, ◌∙◌, List, [], ◌∷◌, false, ◌==◌}
use computer_service_system.Std.Text.{◌<<◌}

abbrev pub Contains : String → String → Type 0
Contains s t = ∥ ((before : String) × (after : String) × (t ≡ before << s << after)) ∥₁

pub Contains-refl : (s : String) → Contains s s
Contains-refl s = ∣ ("", "", sym (nil-append (s << "") ∙ append-nil s)) ∣₁

pub Contains-append_left : (s t u : String) → Contains s t → Contains s (u << t)
Contains-append_left s t u h =
    ∥∥₁_map h λ (a, b, e). (u << a, b, ap (λ x. u << x) e ∙ sym (append_assoc u a (s << b)))

pub Contains-append_right : (s t u : String) → Contains s t → Contains s (t << u)
Contains-append_right s t u h = ∥∥₁_map h λ (a, b, e). (
  a,
  b << u,
  ap (λ x. x << u) e ∙ append_assoc a (s << b) u ∙ ap (λ x. a << x) (append_assoc s b u),
)

pub Contains-trans : (s t u : String) → Contains s t → Contains t u → Contains s u
Contains-trans s t u h k = ∥∥₁_elim h ∥∥₁_prop λ (a, b, e).
    ∥∥₁_map k λ (c, d, e'). (c << a, b << d, e' ∙ ap (λ x. c << x << d) e ∙ regroup a b c d)
  where
    regroup : (a b c d : String) → (c << (a << s << b) << d) ≡ ((c << a) << s << b << d)
    regroup a b c d = simp append_assoc

-- for (const auto& x : xs) ss << f(x)
unfoldable pub print_each {ℓ} : {A : Type ℓ} → (A → String) → List A → String
print_each f [] = ""
print_each f (x ∷ xs) = f x << print_each f xs

pub Contains-print_each {ℓ} :
    {A : Type ℓ} (f : A → String) (x : A) (xs : List A)
    → Mem x xs
    → Contains (f x) (print_each f xs)
unfolding print_each
Contains-print_each f x [] m = absurd (not-mem-nil m)
Contains-print_each f x (y ∷ ys) m =
    Or.elim ∥∥₁_prop (mem-cons.0 m)
      (λ e. rw e (Contains-append_right (f y) (f y) (print_each f ys) (Contains-refl (f y))))
      (λ later.
        Contains-append_left (f x) (print_each f ys) (f y) (Contains-print_each f x ys later))

-- No character of the text is the one with this code.
abbrev pub Lacks : ℕ → String → Type 0
Lacks q String.[] = Unit
Lacks q (String.◌∷◌ c s) = ((code c == q) ≡ false) × Lacks q s
