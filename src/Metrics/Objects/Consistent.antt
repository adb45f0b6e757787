-- ===== src/Metrics/Objects/Consistent.antt =====
-- Sequences of operations on histogram objects: count and sum of each, against its values.
use computer_service_system.Common.{
  ℕ, ◌+◌, ◌%◌, ◌^◌, String, List, [], ◌∷◌, ◌++◌, ◌≡◌, refl, sym, ap, ◌∙◌, arith, ◌==◌, length,
  length-append, Bool-cases, inl, inr,
}
use computer_service_system.Std.Floating.{Floating}
use computer_service_system.Metrics.Labels.{Labels}
use computer_service_system.Metrics.Histogram
use computer_service_system.Metrics.Histogram.{Histogram, next_u64}
use computer_service_system.Metrics.Objects.{Store, put, Leftover}
use computer_service_system.Metrics.Objects.Histograms.{
  copy, take_over, assign, emptied, move, move_assign, set_name,
}

-- What the program may do with histograms: each makes an object at an address or changes the one
-- there.
pub data Step (Double : Type 0) : Type 0 where
  creates : ℕ → String → String → List Double → Labels → Step Double
  observes : ℕ → Double → Step Double
  -- Histogram(const Histogram&), operator=, Histogram(Histogram&&), and operator= once more: the
  -- address that is made or assigned to, and that of the other
  copies assigns moves move_assigns : ℕ → ℕ → Step Double
  renames : ℕ → String → Step Double

module _ (fl : Floating) where
  open fl use {Double, thousandths, add}

  -- The sum by repeated addition, from zero and in the order of the values.
  unfoldable pub total : List Double → Double → Double
  total [] d = d
  total (v ∷ vs) d = total vs (add d v)

  pub record IsConsistent (h : Histogram Double) : Type 0 where
    pub counted : h.count ≡ length h.values % 2 ^ 64
    pub summed : h.sum ≡ total h.values (thousandths 0)

  module _ (left : Leftover Double) where
    unfoldable pub perform : Step Double → Store (Histogram Double) → Store (Histogram Double)
    perform (creates i name help buckets labels) s =
        put i (Histogram.create fl name help buckets labels) s
    perform (observes i value) s = put i (Histogram.observe fl value (s i)) s
    perform (copies i j) s = put i (copy (s j)) s
    perform (assigns i j) s = assign i j s
    perform (moves i j) s = let (made, other) = move fl left (s j) in put i made (put j other s)
    perform (move_assigns i j) s = move_assign fl left i j s
    perform (renames i name) s = put i (set_name name (s i)) s

    unfoldable pub perform_all :
        List (Step Double) → Store (Histogram Double) → Store (Histogram Double)
    unfolding perform
    perform_all [] s = s
    perform_all (x ∷ xs) s = perform_all xs (perform x s)

  total-append : (vs : List Double) (v d : Double) → total (vs ++ v ∷ []) d ≡ add (total vs d) v
  unfolding total
  total-append [] v d = refl
  total-append (w ∷ vs) v d = total-append vs v (add d w)

  create-IsConsistent :
      (name help : String) (buckets : List Double) (labels : Labels)
      → IsConsistent (Histogram.create fl name help buckets labels)
  unfolding Histogram.create total
  create-IsConsistent name help buckets labels = record { counted = refl; summed = refl }

  observe-IsConsistent :
      (v : Double) (h : Histogram Double) → IsConsistent h → IsConsistent (Histogram.observe fl v h)
  unfolding Histogram.observe next_u64
  observe-IsConsistent v h c = record {
    counted =
        ap (λ n. (n + 1) % 2 ^ 64) c.counted ∙ omega (arith, length-append {0} h.values (v ∷ []));
    summed = ap (λ d. add d v) c.summed ∙ sym (total-append h.values v (thousandths 0));
  }

  emptied-IsConsistent :
      (left : Leftover Double) (h : Histogram Double)
      → left.doubles h.values ≡ []
      → IsConsistent (emptied fl left h)
  unfolding emptied total
  emptied-IsConsistent left h empties = record {
    counted = sym (ap (λ vs. length vs % 2 ^ 64) empties);
    summed = sym (ap (λ vs. total vs (thousandths 0)) empties);
  }

  abbrev pub AllConsistent : Store (Histogram Double) → Type 0
  AllConsistent s = (i : ℕ) → IsConsistent (s i)

  put-AllConsistent :
      (i : ℕ) (h : Histogram Double) (s : Store (Histogram Double))
      → IsConsistent h
      → AllConsistent s
      → AllConsistent (put i h s)
  put-AllConsistent i h s new old j = elim (Bool-cases (j == i)) [
    | inl here ↦ rw here new
    | inr there ↦ rw there (old j)
  ]

  perform-AllConsistent :
      (left : Leftover Double)
      → ((vs : List Double) → left.doubles vs ≡ [])
      → (x : Step Double) (s : Store (Histogram Double)) → AllConsistent s
      → AllConsistent (perform left x s)
  unfolding perform copy assign take_over move move_assign set_name
  perform-AllConsistent left empties (creates i name help buckets labels) s ok =
      put-AllConsistent i _ s (create-IsConsistent name help buckets labels) ok
  perform-AllConsistent left empties (observes i v) s ok =
      put-AllConsistent i _ s (observe-IsConsistent v (s i) (ok i)) ok
  perform-AllConsistent left empties (copies i j) s ok = put-AllConsistent i _ s (ok j) ok
  perform-AllConsistent left empties (assigns i j) s ok = elim (Bool-cases (i == j)) [
    | inl self ↦ rw self ok
    | inr other ↦ rw other (put-AllConsistent i _ s (ok j) ok)
  ]
  perform-AllConsistent left empties (moves i j) s ok =
      put-AllConsistent i _ _ (ok j)
        (put-AllConsistent j _ s (emptied-IsConsistent left (s j) (empties _)) ok)
  perform-AllConsistent left empties (move_assigns i j) s ok = elim (Bool-cases (i == j)) [
    | inl self ↦ rw self ok
    | inr other ↦ rw other (
        put-AllConsistent j _ _ (emptied-IsConsistent left (s j) (empties _))
          (put-AllConsistent i _ s (ok j) ok))
  ]
  perform-AllConsistent left empties (renames i name) s ok =
      let c = ok i in
      put-AllConsistent i (set_name name (s i)) s
        (record { counted = c.counted; summed = c.summed }) ok

  -- However histograms are created, observed, copied, assigned, moved and renamed, also an object
  -- to itself, each has as its count the number of its values modulo 2^64, and as its sum the sum
  -- of its values in their order, if that was so at first; it is supposed that a vector that was
  -- moved out of is empty.
  pub perform_all-AllConsistent :
      (left : Leftover Double)
      → ((vs : List Double) → left.doubles vs ≡ [])
      → (xs : List (Step Double)) (s : Store (Histogram Double)) → AllConsistent s
      → AllConsistent (perform_all left xs s)
  unfolding perform_all
  perform_all-AllConsistent left empties [] s ok = ok
  perform_all-AllConsistent left empties (x ∷ xs) s ok =
      perform_all-AllConsistent left empties xs (perform left x s)
        (perform-AllConsistent left empties x s ok)
