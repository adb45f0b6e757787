-- ===== src/Std/OrderedMap.antt =====
-- `std::map`: entries in the order of their keys, each key once.
use computer_service_system.Common.{
  ◌≡◌, refl, List, [], ◌∷◌, Option, none, some, arith, if◌then◌else◌,
}
use computer_service_system.Std.Ord.{Ord, same_key}
use mathlib.Core.Option

abbrev pub OrderedMap {ℓ κ} : Type ℓ → Type κ → Type (ℓ ⊔ κ)
OrderedMap K V = List (K × V)

abbrev pub or_else {ℓ} : {A : Type ℓ} → Option A → Option A → Option A
or_else none d = d
or_else (some v) d = some v

module _ {ℓ κ} {K : Type ℓ} {V : Type κ} ⦃o : Ord K⦄ where
  -- m.find(k)
  unfoldable pub find : K → OrderedMap K V → Option V
  find k [] = none
  find k ((j, v) ∷ m) =
      let rest = find k m in if o.lt k j then none else if o.lt j k then rest else some v

  -- m.emplace(k, v): an entry that is there stays
  unfoldable pub emplace : K → V → OrderedMap K V → OrderedMap K V
  emplace k v [] = (k, v) ∷ []
  emplace k v ((j, w) ∷ m) =
      let rest = emplace k v m in
      if o.lt k j then (k, v) ∷ (j, w) ∷ m else if o.lt j k then (j, w) ∷ rest else (j, w) ∷ m

  -- m[k] = v
  unfoldable pub assign : K → V → OrderedMap K V → OrderedMap K V
  assign k v [] = (k, v) ∷ []
  assign k v ((j, w) ∷ m) =
      let rest = assign k v m in
      if o.lt k j then (k, v) ∷ (j, w) ∷ m else if o.lt j k then (j, w) ∷ rest else (j, v) ∷ m

  -- m.find(k)->second = f(…), through a reference; nothing where the key is not there
  unfoldable pub modify : K → (V → V) → OrderedMap K V → OrderedMap K V
  modify k f [] = []
  modify k f ((j, w) ∷ m) =
      let rest = modify k f m in
      if o.lt k j then (j, w) ∷ m else if o.lt j k then (j, w) ∷ rest else (j, f w) ∷ m

  pub find-nil : (k : K) → find k [] ≡ none
  unfolding find
  find-nil k = refl

  pub find-emplace :
      (k j : K) (v : V) (m : OrderedMap K V)
      → find j (emplace k v m) ≡ or_else (find j m) (if same_key k j then some v else none)
  unfolding find emplace
  find-emplace k j v [] = ground arith
  find-emplace k j v ((i, w) ∷ m) = ground (
    arith,
    find-emplace k j v m,
    o.trans j k i,
    o.trans k i j,
    o.trans j i k,
    o.trans k j i,
    o.trans i j k,
    o.trans i k j,
    o.connex j i,
    o.connex j k,
    o.connex k i,
  )

  pub find-assign :
      (k j : K) (v : V) (m : OrderedMap K V)
      → find j (assign k v m) ≡ (if same_key k j then some v else find j m)
  unfolding find assign
  find-assign k j v [] = ground arith
  find-assign k j v ((i, w) ∷ m) = ground (
    arith,
    find-assign k j v m,
    o.trans j k i,
    o.trans k i j,
    o.trans j i k,
    o.trans k j i,
    o.trans i j k,
    o.trans i k j,
    o.connex j i,
    o.connex j k,
    o.connex k i,
  )

  pub find-modify :
      (k j : K) (f : V → V) (m : OrderedMap K V)
      → find j (modify k f m) ≡ (if same_key k j then Option.map f (find j m) else find j m)
  unfolding find modify
  find-modify k j f [] = ground arith
  find-modify k j f ((i, w) ∷ m) =
      ground (arith, find-modify k j f m, o.connex j i, o.connex j k, o.connex k i)
