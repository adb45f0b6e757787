-- ===== src/Std/Held.antt =====
-- A predicate that holds of every entry of a container, through the operations of the containers.
use mathlib.Core.List.{Permᴰ}
use computer_service_system.Common.{
  String, List, [], ◌∷◌, ◌++◌, Bool, true, false, if◌then◌else◌, str_eq, All, Option-cases, inl,
  inr,
}
use computer_service_system.Std.Ord.{Ord}
use computer_service_system.Std.OrderedMap as OrderedMap
use computer_service_system.Std.OrderedMap.{OrderedMap}
use computer_service_system.Std.HashMap
use computer_service_system.Std.HashMap.{HashMap, get_or}
use computer_service_system.Std.Nested
use computer_service_system.Std.Nested.{Nested}

pub either {ℓ κ} :
    {A : Type ℓ} (P : A → Type κ) (b : Bool) {x y : A} → P x → P y → P (if b then x else y)
either P true h k = h
either P false h k = k

pub All-append {ℓ κ} :
    {A : Type ℓ} (P : A → Type κ) (xs ys : List A) → All P xs → All P ys → All P (xs ++ ys)
All-append P [] ys h k = k
All-append P (x ∷ xs) ys h k = (h.0, All-append P xs ys h.1 k)

pub All-Permᴰ {ℓ κ} :
    {A : Type ℓ} (P : A → Type κ) {xs ys : List A} → Permᴰ xs ys → All P ys → All P xs
All-Permᴰ P Permᴰ.nil h = h
All-Permᴰ P (Permᴰ.cons e d) h = (rw e h.0, All-Permᴰ P d h.1)
All-Permᴰ P (Permᴰ.swap e e') h = (rw e h.1.0, (rw e' h.0, h.1.1))
All-Permᴰ P (Permᴰ.trans d d') h = All-Permᴰ P d (All-Permᴰ P d' h)

module _ {ℓ κ} {V : Type ℓ} (P : String × V → Type κ) where
  All-modify :
      (k : String) (f : V → V) (m : HashMap V)
      → ((j : String) (v : V) → P (j, v) → P (j, f v))
      → All P m
      → All P (HashMap.modify k f m)
  unfolding HashMap.modify
  All-modify k f [] step h = tt
  All-modify k f ((j, v) ∷ m) step h =
      either (All P) (str_eq j k) (step j v h.0, h.1) (h.0, All-modify k f m step h.1)

  All-upsert :
      (k : String) (d : V) (f : V → V) (m : HashMap V)
      → ((j : String) (v : V) → P (j, v) → P (j, f v))
      → P (k, f d)
      → All P m
      → All P (HashMap.upsert k d f m)
  unfolding HashMap.upsert
  All-upsert k d f [] step new h = (new, tt)
  All-upsert k d f ((j, v) ∷ m) step new h =
      either (All P) (str_eq j k) (step j v h.0, h.1) (h.0, All-upsert k d f m step new h.1)

-- A predicate on the values alone.
module _ {ℓ κ} {V : Type ℓ} (P : V → Type κ) where
  pub All-assign :
      (k : String) (v : V) (m : HashMap V)
      → P v
      → All (λ e. P e.1) m
      → All (λ e. P e.1) (HashMap.assign k v m)
  unfolding HashMap.assign
  All-assign k v [] new h = (new, tt)
  All-assign k v ((j, w) ∷ m) new h =
      either (All (λ e. P e.1)) (str_eq j k) (new, h.1) (h.0, All-assign k v m new h.1)

  pub get_or-find :
      (d : V) (k : String) (m : HashMap V)
      → P d
      → All (λ e. P e.1) m
      → P (get_or d (HashMap.find k m))
  unfolding HashMap.find
  get_or-find d k [] new h = new
  get_or-find d k ((j, v) ∷ m) new h =
      either (λ o. P (get_or d o)) (str_eq j k) h.0 (get_or-find d k m new h.1)

module _ {ℓ κ λ'} {K : Type ℓ} {V : Type κ} ⦃o : Ord K⦄ (P : K × V → Type λ') where
  All-ordered_emplace :
      (k : K) (v : V) (m : OrderedMap K V) → P (k, v) → All P m → All P (OrderedMap.emplace k v m)
  unfolding OrderedMap.emplace
  All-ordered_emplace k v [] new h = (new, tt)
  All-ordered_emplace k v ((j, w) ∷ m) new h =
      either (All P) (o.lt k j) (new, h)
        (either (All P) (o.lt j k) (h.0, All-ordered_emplace k v m new h.1) h)

  pub All-ordered_assign :
      (k : K) (v : V) (m : OrderedMap K V)
      → ((j : K) (w : V) → P (j, w) → P (j, v))
      → P (k, v)
      → All P m
      → All P (OrderedMap.assign k v m)
  unfolding OrderedMap.assign
  All-ordered_assign k v [] step new h = (new, tt)
  All-ordered_assign k v ((j, w) ∷ m) step new h =
      either (All P) (o.lt k j) (new, h)
        (either (All P) (o.lt j k) (h.0, All-ordered_assign k v m step new h.1) (step j w h.0, h.1))

  All-ordered_modify :
      (k : K) (f : V → V) (m : OrderedMap K V)
      → ((j : K) (w : V) → P (j, w) → P (j, f w))
      → All P m
      → All P (OrderedMap.modify k f m)
  unfolding OrderedMap.modify
  All-ordered_modify k f [] step h = tt
  All-ordered_modify k f ((j, w) ∷ m) step h =
      either (All P) (o.lt k j) h
        (either (All P) (o.lt j k) (h.0, All-ordered_modify k f m step h.1) (step j w h.0, h.1))

-- The families of a two-level container: what holds of each name, and of each object.
abbrev pub Family {ℓ κ λ' μ} :
    {K : Type ℓ} {V : Type κ} (N : String → Type λ') (P : V → Type μ)
    → String × OrderedMap K V
    → Type (λ' ⊔ μ)
Family {K = K} {V} N P (name, inner) = N name × All (λ (e : K × V). P e.1) inner

module _ {ℓ κ λ' μ} {K : Type ℓ} {V : Type κ} ⦃o : Ord K⦄ (N : String → Type λ')
    (P : V → Type μ) where
  pub Family-update :
      (n : String) (k : K) (f : V → V) (m : Nested K V)
      → ((v : V) → P v → P (f v))
      → All (Family N P) m
      → All (Family N P) (Nested.update n k f m)
  unfolding Nested.update
  Family-update n k f m step h =
      All-modify (Family N P) n _ m
        (λ j inner fam. (fam.0, All-ordered_modify (λ e. P e.1) k f inner (λ j w. step w) fam.1)) h

  pub Family-emplace :
      (n : String) (k : K) (v : V) (m : Nested K V)
      → N n
      → P v
      → All (Family N P) m
      → All (Family N P) (Nested.emplace n k v m)
  unfolding Nested.emplace
  Family-emplace n k v m name new h =
      All-upsert (Family N P) n [] _ m
        (λ j inner fam. (fam.0, All-ordered_emplace (λ e. P e.1) k v inner new fam.1))
        (name, All-ordered_emplace (λ e. P e.1) k v [] new tt) h

  pub Family-find_or_create :
      (n : String) (k : K) (v : V) (m : Nested K V)
      → N n
      → P v
      → All (Family N P) m
      → All (Family N P) (Nested.find_or_create n k v m)
  unfolding Nested.find_or_create
  Family-find_or_create n k v m name new h = elim (Option-cases (HashMap.find n m)) [
    | inl absent ↦ rw (absent, Nested.find_or_create) (Family-emplace n k v m name new h)
    | inr (inner, found) ↦ elim (Option-cases (OrderedMap.find k inner)) [
      | inl absent ↦
          rw (found, absent, Nested.find_or_create)
            (All-modify (Family N P) n _ m
              (λ j inner fam. (fam.0, All-ordered_emplace (λ e. P e.1) k v inner new fam.1)) h)
      | inr (w, there) ↦ rw (found, there, Nested.find_or_create) h
    ]
  ]
