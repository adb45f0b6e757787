-- ===== src/Std/HashMap.antt =====
-- `std::unordered_map` with string keys, as an association list. The order in which the real
-- container is walked is left open: a loop over it takes the entries as a `Walk` gives them.
use mathlib.Core.List.{Perm}
use text.Mathlib.TextEquality.{eq_iff}
use mathlib.Core.Option
use computer_service_system.Common.{
  String, ◌≡◌, refl, List, [], ◌∷◌, Option, none, some, arith, if◌then◌else◌, str_eq,
}

abbrev pub HashMap {ℓ} : Type ℓ → Type ℓ
HashMap V = List (String × V)

-- Every entry is met once, in an order that the implementation of the container chooses.
pub record Walk {ℓ} (V : Type ℓ) : Type ℓ where
  pub entries : HashMap V → HashMap V
  pub entries-perm : (m : HashMap V) → Perm (entries m) m

module _ {ℓ} {V : Type ℓ} where
  -- m.find(k)
  unfoldable pub find : String → HashMap V → Option V
  find k [] = none
  find k ((j, v) ∷ m) = if str_eq j k then some v else find k m

  -- m[k] = v
  unfoldable pub assign : String → V → HashMap V → HashMap V
  assign k v [] = (k, v) ∷ []
  assign k v ((j, w) ∷ m) = if str_eq j k then (j, v) ∷ m else (j, w) ∷ assign k v m

  -- f(m.find(k)->second), through a reference; nothing where the key is not there
  unfoldable pub modify : String → (V → V) → HashMap V → HashMap V
  modify k f [] = []
  modify k f ((j, w) ∷ m) = if str_eq j k then (j, f w) ∷ m else (j, w) ∷ modify k f m

  -- f(m[k]), where `operator[]` adds the value `d` under a key that is not there
  unfoldable pub upsert : String → V → (V → V) → HashMap V → HashMap V
  upsert k d f [] = (k, f d) ∷ []
  upsert k d f ((j, w) ∷ m) = if str_eq j k then (j, f w) ∷ m else (j, w) ∷ upsert k d f m

  abbrev pub get_or : V → Option V → V
  get_or d none = d
  get_or d (some v) = v

  pub find-assign :
      (k j : String) (v : V) (m : HashMap V)
      → find j (assign k v m) ≡ (if str_eq k j then some v else find j m)
  unfolding find assign
  find-assign k j v [] = refl
  find-assign k j v ((i, w) ∷ m) =
      ground (arith, eq_iff k j, eq_iff i k, eq_iff i j, find-assign k j v m)

  pub find-modify :
      (k j : String) (f : V → V) (m : HashMap V)
      → find j (modify k f m) ≡ (if str_eq k j then Option.map f (find j m) else find j m)
  unfolding find modify
  find-modify k j f [] = ground arith
  find-modify k j f ((i, w) ∷ m) =
      ground (arith, eq_iff k j, eq_iff i k, eq_iff i j, find-modify k j f m)

  pub find-upsert :
      (k j : String) (d : V) (f : V → V) (m : HashMap V)
      → find j (upsert k d f m) ≡ (if str_eq k j then some (f (get_or d (find j m))) else find j m)
  unfolding find upsert
  find-upsert k j d f [] = refl
  find-upsert k j d f ((i, w) ∷ m) =
      ground (arith, eq_iff k j, eq_iff i k, eq_iff i j, find-upsert k j d f m)
