-- ===== src/Std/Ord.antt =====
-- `operator<` of the key types: strings, pairs and lexicographic sequences (C++ standard library).
use Prim.Native.Nat.{compare as compare_ℕ, Ordering}
use Prim.Native.String.{compare, then}
use Prim.Native.String.compare
use text.Mathlib.Text.{is_lt}
use text.Mathlib.TextEquality.{path_by_compare}
use text.Mathlib.TextPositions.{compare_refl}
use Prim.Native.Char.{code}
use computer_service_system.Common.{
  ℕ, String, ◌≡◌, refl, sym, ◌∙◌, ◌↔◌, Bool, true, false, not, ◌&&◌, ◌||◌, List, [], ◌∷◌, arith,
}

-- A strict total order, given by its test.
pub record Ord {ℓ} (A : Type ℓ) : Type ℓ where
  pub lt : A → A → Bool
  pub irrefl : (a : A) → lt a a ≡ false
  pub trans : (a b c : A) → lt a b ≡ true → lt b c ≡ true → lt a c ≡ true
  pub connex : (a b : A) → lt a b ≡ false → lt b a ≡ false → a ≡ b

-- Two keys are the same for an ordered container when neither is before the other.
abbrev pub same_key {ℓ} : {A : Type ℓ} ⦃o : Ord A⦄ → A → A → Bool
same_key ⦃o⦄ a b = not (o.lt a b) && not (o.lt b a)

-- The test is true of equal keys alone.
pub same_key_iff {ℓ} : {A : Type ℓ} ⦃o : Ord A⦄ (a b : A) → (same_key a b ≡ true) ↔ (a ≡ b)
same_key_iff ⦃o⦄ a b = ground (arith, o.irrefl a, o.connex a b)

then_trans :
    (x y z : ℕ) (o p q : Ordering)
    → (o ≡ Ordering.lt → p ≡ Ordering.lt → q ≡ Ordering.lt)
    → then (compare_ℕ x y) o ≡ Ordering.lt
    → then (compare_ℕ y z) p ≡ Ordering.lt
    → then (compare_ℕ x z) q ≡ Ordering.lt
then_trans x y z o p q t h k = ground arith

-- Strings compare by their bytes, as `char_traits<char>::compare` does.
string_lt_trans :
    (s t u : String)
    → compare s t ≡ Ordering.lt
    → compare t u ≡ Ordering.lt
    → compare s u ≡ Ordering.lt
string_lt_trans s String.[] String.[] h k = cc
string_lt_trans String.[] String.[] (String.◌∷◌ e u) h k = k
string_lt_trans String.[] (String.◌∷◌ d t) String.[] h k = cc (compare.cons-nil d t)
string_lt_trans String.[] (String.◌∷◌ d t) (String.◌∷◌ e u) h k = compare.nil-cons e u
string_lt_trans (String.◌∷◌ c s) String.[] u h k = cc (compare.cons-nil c s)
string_lt_trans (String.◌∷◌ c s) (String.◌∷◌ d t) String.[] h k = cc (compare.cons-nil d t)
string_lt_trans (String.◌∷◌ c s) (String.◌∷◌ d t) (String.◌∷◌ e u) h k =
    compare.cons-cons c e s u
    ∙ then_trans (code c) (code d) (code e) (compare s t) (compare t u) (compare s u)
        (string_lt_trans s t u) (sym (compare.cons-cons c d s t) ∙ h)
        (sym (compare.cons-cons d e t u) ∙ k)

then-connex :
    (x y : ℕ) (o p : Ordering)
    → (is_lt o ≡ false → is_lt p ≡ false → o ≡ Ordering.eq)
    → is_lt (then (compare_ℕ x y) o) ≡ false
    → is_lt (then (compare_ℕ y x) p) ≡ false
    → then (compare_ℕ x y) o ≡ Ordering.eq
then-connex x y o p t h k = ground arith

string_compare-eq :
    (s t : String)
    → is_lt (compare s t) ≡ false
    → is_lt (compare t s) ≡ false
    → compare s t ≡ Ordering.eq
string_compare-eq String.[] String.[] h k = compare_refl String.[]
string_compare-eq String.[] (String.◌∷◌ d t) h k = cc (compare.nil-cons d t)
string_compare-eq (String.◌∷◌ c s) String.[] h k = cc (compare.nil-cons c s)
string_compare-eq (String.◌∷◌ c s) (String.◌∷◌ d t) h k = rw (compare.cons-cons c d s t) (
    then-connex (code c) (code d) (compare s t) (compare t s) (string_compare-eq s t)
      (rw (compare.cons-cons c d s t) at h) (rw (compare.cons-cons d c t s) at k))

is_lt-true : (o : Ordering) → is_lt o ≡ true → o ≡ Ordering.lt
is_lt-true Ordering.lt h = refl
is_lt-true Ordering.eq h = cc
is_lt-true Ordering.gt h = cc

abbrev string_lt : String → String → Bool
string_lt s t = is_lt (compare s t)

pub string_irrefl : (s : String) → string_lt s s ≡ false
string_irrefl s = rw (compare_refl s)

pub string_trans :
    (s t u : String) → string_lt s t ≡ true → string_lt t u ≡ true → string_lt s u ≡ true
string_trans s t u h k =
    rw (string_lt_trans s t u (is_lt-true (compare s t) h) (is_lt-true (compare t u) k))

pub string_connex : (s t : String) → string_lt s t ≡ false → string_lt t s ≡ false → s ≡ t
string_connex s t h k = path_by_compare s t (string_compare-eq s t h k)

instance abbrev pub string_ord : Ord String
string_ord = record {
  lt = string_lt;
  irrefl = string_irrefl;
  trans = string_trans;
  connex = string_connex;
}

-- `operator<` of `std::pair`.
module _ {ℓ κ} {A : Type ℓ} {B : Type κ} ⦃oa : Ord A⦄ ⦃ob : Ord B⦄ where
  abbrev pub pair_lt : A × B → A × B → Bool
  pair_lt (a, b) (c, d) = oa.lt a c || (not (oa.lt c a) && ob.lt b d)

  pub pair_irrefl : (p : A × B) → pair_lt p p ≡ false
  pair_irrefl (a, b) = ground (arith, oa.irrefl a, ob.irrefl b)

  pub pair_trans : (p q r : A × B) → pair_lt p q ≡ true → pair_lt q r ≡ true → pair_lt p r ≡ true
  pair_trans (a, b) (c, d) (e, f) h k = ground (
    arith,
    oa.trans a c e,
    oa.trans e a c,
    oa.trans c e a,
    oa.connex a c,
    oa.connex c e,
    oa.connex a e,
    ob.trans b d f,
  )

  pub pair_connex : (p q : A × B) → pair_lt p q ≡ false → pair_lt q p ≡ false → p ≡ q
  pair_connex (a, b) (c, d) h k = ground (arith, oa.connex a c, ob.connex b d)

  instance abbrev pub pair_ord : Ord (A × B)
  pair_ord = record { lt = pair_lt; irrefl = pair_irrefl; trans = pair_trans; connex = pair_connex }

-- `std::lexicographical_compare`, by which containers are compared.
module _ {ℓ} {A : Type ℓ} ⦃o : Ord A⦄ where
  abbrev pub list_lt : List A → List A → Bool
  list_lt xs [] = false
  list_lt [] (y ∷ ys) = true
  list_lt (x ∷ xs) (y ∷ ys) = o.lt x y || (not (o.lt y x) && list_lt xs ys)

  pub list_irrefl : (xs : List A) → list_lt xs xs ≡ false
  list_irrefl [] = refl
  list_irrefl (x ∷ xs) = ground (arith, o.irrefl x, list_irrefl xs)

  pub list_trans :
      (xs ys zs : List A) → list_lt xs ys ≡ true → list_lt ys zs ≡ true → list_lt xs zs ≡ true
  list_trans xs [] zs h k = cc
  list_trans xs (y ∷ ys) [] h k = cc
  list_trans [] (y ∷ ys) (z ∷ zs) h k = refl
  list_trans (x ∷ xs) (y ∷ ys) (z ∷ zs) h k = ground (
    arith,
    o.trans x y z,
    o.trans z x y,
    o.trans y z x,
    o.connex x y,
    o.connex y z,
    o.connex x z,
    list_trans xs ys zs,
  )

  pub list_connex : (xs ys : List A) → list_lt xs ys ≡ false → list_lt ys xs ≡ false → xs ≡ ys
  list_connex [] [] h k = refl
  list_connex [] (y ∷ ys) h k = cc
  list_connex (x ∷ xs) [] h k = cc
  list_connex (x ∷ xs) (y ∷ ys) h k = ground (arith, o.connex x y, list_connex xs ys)

  instance abbrev pub list_ord : Ord (List A)
  list_ord = record { lt = list_lt; irrefl = list_irrefl; trans = list_trans; connex = list_connex }
