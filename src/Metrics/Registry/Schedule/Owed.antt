-- ===== src/Metrics/Registry/Schedule/Owed.antt =====
-- What each move of a thread takes from what it still owes, and adds to the counters.
use computer_service_system.Common.{
  ℕ, ◌+◌, suc, String, List, [], ◌∷◌, Option, none, some, ◌≡◌, refl, ◌∙◌, inl, inr, Bool-cases,
  arith,
}
use computer_service_system.Std.Ord.{string_ord, pair_ord, list_ord}
use computer_service_system.Std.Floating.{Floating}
use computer_service_system.Std.Nested.{same_place}
use computer_service_system.Metrics.Labels.{Labels}
use computer_service_system.Metrics.Registry.{
  Registry, Ref, get_counter, get_histogram, increment_at, observe_at,
}
use computer_service_system.Metrics.Registry.Lookup.{counter_at, value_at}
use computer_service_system.Metrics.Registry.History.{hits}
use computer_service_system.Metrics.Registry.Counting.{plus, value_at-initialize}
use computer_service_system.Metrics.Registry.Schedule.{
  Action, counts, observes, sets_up, Thread, idle, at_counter, at_histogram, advance,
}
use computer_service_system.Metrics.Registry.Schedule.There.{
  There, get_counter-There, get_counter-There_self, increment_at-There, initialize-There,
  value_at-get_counter, value_at-increment_at,
}

module _ {Double : Type 0} where
  -- The counters that the actions are to count in.
  abbrev pub targets : List (Action Double) → List (String × Labels)
  targets [] = []
  targets (counts name help labels ∷ rest) = (name, labels) ∷ targets rest
  targets (_ ∷ rest) = targets rest

  abbrev pub owed : Thread Double → List (String × Labels)
  owed (idle rest) = targets rest
  owed (at_counter ref rest) = (ref.name, ref.labels) ∷ targets rest
  owed (at_histogram ref seconds rest) = targets rest

  abbrev pub owed_by_all : String → Labels → List (Thread Double) → ℕ
  owed_by_all n l [] = 0
  owed_by_all n l (t ∷ ts) = hits n l (owed t) + owed_by_all n l ts

  -- How often a thread has still to take a mutex.
  abbrev pub moves : List (Action Double) → ℕ
  moves [] = 0
  moves (sets_up ∷ rest) = suc (moves rest)
  moves (_ ∷ rest) = suc (suc (moves rest))

  abbrev pub moves_left : Thread Double → ℕ
  moves_left (idle rest) = moves rest
  moves_left (at_counter ref rest) = suc (moves rest)
  moves_left (at_histogram ref seconds rest) = suc (moves rest)

  abbrev pub all_moves_left : List (Thread Double) → ℕ
  all_moves_left [] = 0
  all_moves_left (t ∷ ts) = moves_left t + all_moves_left ts

  -- The reference that a thread holds is to a counter that is there.
  abbrev pub IsReady : Registry Double → Thread Double → Type 0
  IsReady r (at_counter ref rest) = There ref.name ref.labels r
  IsReady r _ = Unit

module _ (fl : Floating) where
  open fl use {Double}

  -- What one move from `t` and `r` leads to.
  pub record Pays (t : Thread Double) (r : Registry Double) (t' : Thread Double)
      (r' : Registry Double) : Type 0 where
    pub ready : IsReady r' t'
    pub keeps : (n : String) (l : Labels) → There n l r → There n l r'
    pub pays :
        (n : String) (l : Labels)
        → (k : ℕ) × (value_at fl n l r' ≡ plus fl k (value_at fl n l r))
          × (hits n l (owed t) ≡ k + hits n l (owed t'))
    pub shorter : moves_left t ≡ suc (moves_left t')

  abbrev pub After :
      (Thread Double → Registry Double → Type 0) → Option (Thread Double × Registry Double) → Type 0
  After P none = Unit
  After P (some (t, r)) = P t r

  value_at-get_histogram :
      (n : String) (l : Labels) (name help : String) (buckets : List Double) (labels : Labels)
      (r : Registry Double)
      → value_at fl n l (get_histogram fl name help buckets labels r).1 ≡ value_at fl n l r
  unfolding value_at counter_at get_histogram
  value_at-get_histogram n l name help buckets labels r = refl

  value_at-observe_at :
      (n : String) (l : Labels) (seconds : Double) (ref : Ref) (r : Registry Double)
      → value_at fl n l (observe_at fl seconds ref r) ≡ value_at fl n l r
  unfolding value_at counter_at observe_at
  value_at-observe_at n l seconds ref r = refl

  -- A move that leaves the values alone and owes what was owed.
  pays_nothing :
      (n : String) (l : Labels) (r r' : Registry Double) (h : ℕ)
      → value_at fl n l r' ≡ value_at fl n l r
      → (k : ℕ) × (value_at fl n l r' ≡ plus fl k (value_at fl n l r)) × (h ≡ k + h)
  pays_nothing n l r r' h same = (0, same, omega arith)

  pays_one :
      (n : String) (l : Labels) (ref : Ref) (r : Registry Double) (ps : List (String × Labels))
      → There ref.name ref.labels r
      → (k : ℕ) × (value_at fl n l (increment_at fl (fl.thousandths 1000) ref r)
          ≡ plus fl k (value_at fl n l r))
        × (hits n l ((ref.name, ref.labels) ∷ ps) ≡ k + hits n l ps)
  pays_one n l ref r ps there = elim (Bool-cases (same_place ref.name ref.labels n l)) [
    | inl same ↦ (
      1,
      value_at-increment_at fl ref.name n ref.labels l (fl.thousandths 1000) r there ∙ rw same,
      rw same (omega arith),
    )
    | inr differs ↦ (
      0,
      value_at-increment_at fl ref.name n ref.labels l (fl.thousandths 1000) r there ∙ rw differs,
      rw differs (omega arith),
    )
  ]

  pub advance-Pays :
      (t : Thread Double) (r : Registry Double) → IsReady r t → After (Pays t r) (advance fl t r)
  unfolding advance get_counter get_histogram
  advance-Pays (idle []) r ready = tt
  advance-Pays (idle (counts name help labels ∷ rest)) r ready = record {
    ready = get_counter-There_self fl name help labels r;
    keeps = λ n l there. get_counter-There fl name n help labels l r there;
    pays = λ n l. pays_nothing n l r _ _ (value_at-get_counter fl name n help labels l r);
    shorter = refl;
  }
  advance-Pays (idle (observes seconds ∷ rest)) r ready = record {
    ready = tt;
    keeps = λ n l there. unfold counter_at in there;
    pays = λ n l. pays_nothing n l r _ _ (value_at-get_histogram n l _ _ _ _ r);
    shorter = refl;
  }
  advance-Pays (idle (sets_up ∷ rest)) r ready = record {
    ready = tt;
    keeps = λ n l there. initialize-There fl n l r there;
    pays = λ n l. pays_nothing n l r _ _ (value_at-initialize fl n l r);
    shorter = refl;
  }
  advance-Pays (at_counter ref rest) r ready = record {
    ready = tt;
    keeps = λ n l there. increment_at-There fl ref.name n ref.labels l _ r there;
    pays = λ n l. pays_one n l ref r (targets rest) ready;
    shorter = refl;
  }
  advance-Pays (at_histogram ref seconds rest) r ready = record {
    ready = tt;
    keeps = λ n l there. unfold counter_at observe_at in there;
    pays = λ n l. pays_nothing n l r _ _ (value_at-observe_at n l seconds ref r);
    shorter = refl;
  }
