-- ===== src/Std/Nested.antt =====
-- An `unordered_map` of `map`s, the two-level container of src/metrics.h: the steps by which the
-- registry finds an object, creates it where it is missing, and calls a method of it.
use text.Mathlib.TextEquality.{eq_iff}
use mathlib.Core.Option
use computer_service_system.Common.{
  ℕ, ◌+◌, String, ◌≡◌, refl, Bool, true, ◌&&◌, [], ◌∷◌, Option, none, some, arith, if◌then◌else◌,
  str_eq, Option-cases, inl, inr, length,
}
use computer_service_system.Std.Ord.{Ord, same_key, same_key_iff}
use computer_service_system.Std.OrderedMap
use computer_service_system.Std.OrderedMap.{OrderedMap, find-emplace, find-nil}
use computer_service_system.Std.HashMap
use computer_service_system.Std.HashMap.{HashMap, find-modify, find-upsert, get_or}

abbrev pub Nested {ℓ κ} : Type ℓ → Type κ → Type (ℓ ⊔ κ)
Nested K V = HashMap (OrderedMap K V)

module _ {ℓ κ} {K : Type ℓ} {V : Type κ} where
  -- The sum of the sizes of the inner maps: `getCounterCount` and `getHistogramCount`.
  unfoldable pub total_size : Nested K V → ℕ
  total_size [] = 0
  total_size ((name, inner) ∷ m) = length inner + total_size m

-- Both keys are the same.
abbrev pub same_place {ℓ} : {K : Type ℓ} ⦃o : Ord K⦄ → String → K → String → K → Bool
same_place n k n' k' = str_eq n n' && same_key k k'

pub same_place_iff {ℓ} :
    {K : Type ℓ} ⦃o : Ord K⦄ (n n' : String) (k k' : K)
    → same_place n k n' k' ≡ true
    → (n ≡ n') × (k ≡ k')
same_place_iff n n' k k' h = ground (arith, eq_iff n n', same_key_iff k k')

module _ {ℓ κ} {K : Type ℓ} {V : Type κ} ⦃o : Ord K⦄ where
  -- The object stored under two keys.
  unfoldable pub find : String → K → Nested K V → Option V
  find name k m = elim (HashMap.find name m) [ none ↦ none | some inner ↦ OrderedMap.find k inner ]

  -- A call of a method of that object, through a reference.
  unfoldable pub update : String → K → (V → V) → Nested K V → Nested K V
  update name k f m = HashMap.modify name (OrderedMap.modify k f) m

  -- m[name].emplace(k, v)
  unfoldable pub emplace : String → K → V → Nested K V → Nested K V
  emplace name k v m = HashMap.upsert name [] (OrderedMap.emplace k v) m

  -- Find the object, or else store a new one: the shape of `getCounter` and of `getHistogram`.
  unfoldable pub find_or_create : String → K → V → Nested K V → Nested K V
  unfolding emplace
  find_or_create name k new m = elim (HashMap.find name m) [
    | none ↦ emplace name k new m
    | some inner ↦ elim (OrderedMap.find k inner) [
      | none ↦ HashMap.modify name (OrderedMap.emplace k new) m
      | some v ↦ m
    ]
  ]

  pub find-some :
      (n : String) (k : K) (v : V) (m : Nested K V)
      → find n k m ≡ some v
      → (inner : OrderedMap K V) × (HashMap.find n m ≡ some inner)
        × (OrderedMap.find k inner ≡ some v)
  unfolding find
  find-some n k v m h = by_family (HashMap.find n m) refl h
    where
      by_family :
          (o : Option (OrderedMap K V))
          → HashMap.find n m ≡ o
          → elim o [ none ↦ none | some inner ↦ OrderedMap.find k inner ] ≡ some v
          → (inner : OrderedMap K V) × (HashMap.find n m ≡ some inner)
            × (OrderedMap.find k inner ≡ some v)
      by_family none e h = absurd (let x : ⊥ = cc in x)
      by_family (some inner) e h = (inner, e, h)

  pub find-update :
      (n n' : String) (k k' : K) (f : V → V) (m : Nested K V)
      → find n' k' (update n k f m)
        ≡ (if same_place n k n' k' then Option.map f (find n' k' m) else find n' k' m)
  unfolding find update
  find-update n n' k k' f m = elim (Option-cases (HashMap.find n' m)) [
    | inl absent ↦ ground (arith, find-modify n n' (OrderedMap.modify k f) m)
    | inr (inner, found) ↦
        ground
          (arith, find-modify n n' (OrderedMap.modify k f) m, OrderedMap.find-modify k k' f inner)
  ]

  pub nested_find-emplace :
      (n n' : String) (k k' : K) (v : V) (m : Nested K V)
      → find n' k' (emplace n k v m)
        ≡ (if same_place n k n' k' then some (get_or v (find n' k' m)) else find n' k' m)
  unfolding find emplace
  nested_find-emplace n n' k k' v m = elim (Option-cases (HashMap.find n' m)) [
    | inl absent ↦ ground (
      arith,
      find-upsert n n' [] (OrderedMap.emplace k v) m,
      find-emplace k k' v [],
      find-nil {V = V} k',
    )
    | inr (inner, found) ↦
        ground (arith, find-upsert n n' [] (OrderedMap.emplace k v) m, find-emplace k k' v inner)
  ]

  pub find-find_or_create :
      (n n' : String) (k k' : K) (new : V) (m : Nested K V)
      → find n' k' (find_or_create n k new m)
        ≡ (if same_place n k n' k' then some (get_or new (find n' k' m)) else find n' k' m)
  unfolding find find_or_create
  find-find_or_create n n' k k' new m = elim (Option-cases (HashMap.find n m)) [
    | inl absent ↦ rw (absent, find_or_create) (nested_find-emplace n n' k k' new m)
    | inr (inner, found) ↦ elim (Option-cases (OrderedMap.find k inner)) [
      | inl absent ↦ ground (
        arith,
        eq_iff n n',
        same_key_iff k k',
        find-modify n n' (OrderedMap.emplace k new) m,
        find-emplace k k' new inner,
      )
      | inr (v, there) ↦ ground (arith, eq_iff n n', same_key_iff k k')
    ]
  ]
