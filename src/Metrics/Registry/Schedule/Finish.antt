-- ===== src/Metrics/Registry/Schedule/Finish.antt =====
-- Threads that start with events to report, under any schedule.
use native.Mathlib.Nat.{zero-add}
use computer_service_system.Common.{
  ℕ, ◌+◌, ◌*◌, ◌^◌, ◌≤◌, ◌<◌, true, false, String, List, [], ◌∷◌, ◌++◌, ◌≡◌, refl, sym, ap, ◌∙◌,
  ◌⊎◌, inl, inr, arith, All,
}
use computer_service_system.Std.Ord.{string_ord, pair_ord, list_ord}
use computer_service_system.Std.Floating.{Floating}
use computer_service_system.Metrics.Labels.{Labels}
use computer_service_system.Metrics.Registry.{Registry, empty}
use computer_service_system.Metrics.Registry.Lookup.{value_at}
use computer_service_system.Metrics.Registry.History.{
  Event, initializes, http_request, db_operation, auth_attempt, device_operation, service_operation,
  places, hits, all_places,
}
use computer_service_system.Metrics.Registry.Append.{hits-append}
use computer_service_system.Metrics.Registry.Counting.{plus, value_at-empty, plus_exact}
use computer_service_system.Metrics.Registry.Schedule.{
  Action, Thread, idle, at_counter, at_histogram, advance, Turn, this, other, Turns, actions,
  all_actions,
}
use computer_service_system.Metrics.Registry.Schedule.Owed.{
  targets, owed_by_all, all_moves_left, IsReady,
}
use computer_service_system.Metrics.Registry.Schedule.Together.{Turns-AllPay}

module _ {Double : Type 0} where
  abbrev pub IsFinished : Thread Double → Type 0
  IsFinished t = t ≡ idle []

  -- The threads that are each to report a list of events.
  abbrev pub reporters : List (List (Event Double)) → List (Thread Double)
  reporters [] = []
  reporters (es ∷ ess) = idle (all_actions es) ∷ reporters ess

  abbrev pub hits_of_all : String → Labels → List (List (Event Double)) → ℕ
  hits_of_all n l [] = 0
  hits_of_all n l (es ∷ ess) = hits n l (all_places es) + hits_of_all n l ess

targets-append :
    {Double : Type 0} (xs ys : List (Action Double)) → targets (xs ++ ys) ≡ targets xs ++ targets ys
targets-append [] ys = refl
targets-append (Action.counts name help labels ∷ xs) ys =
    ap (λ ps. (name, labels) ∷ ps) (targets-append xs ys)
targets-append (Action.observes seconds ∷ xs) ys = targets-append xs ys
targets-append (Action.sets_up ∷ xs) ys = targets-append xs ys

targets-actions : {Double : Type 0} (e : Event Double) → targets (actions e) ≡ places e
unfolding actions
targets-actions initializes = refl
targets-actions (http_request method path status seconds) = refl
targets-actions (db_operation operation success) = refl
targets-actions (auth_attempt username true) = refl
targets-actions (auth_attempt username false) = refl
targets-actions (device_operation operation device_id success) = refl
targets-actions (service_operation operation record_id success) = refl

hits-targets :
    {Double : Type 0} (n : String) (l : Labels) (es : List (Event Double))
    → hits n l (targets (all_actions es)) ≡ hits n l (all_places es)
unfolding all_actions
hits-targets n l [] = refl
hits-targets n l (e ∷ es) =
    ap (hits n l) (targets-append (actions e) (all_actions es))
    ∙ hits-append n l (targets (actions e)) (targets (all_actions es))
    ∙ (λ i. hits n l (targets-actions e i) + hits-targets n l es i)
    ∙ sym (hits-append n l (places e) (all_places es))

owed-reporters :
    {Double : Type 0} (n : String) (l : Labels) (ess : List (List (Event Double)))
    → owed_by_all n l (reporters ess) ≡ hits_of_all n l ess
owed-reporters n l [] = refl
owed-reporters n l (es ∷ ess) = λ i. hits-targets n l es i + owed-reporters n l ess i

reporters-AllReady :
    {Double : Type 0} (r : Registry Double) (ess : List (List (Event Double)))
    → All (IsReady r) (reporters ess)
reporters-AllReady r [] = tt
reporters-AllReady r (es ∷ ess) = (tt, reporters-AllReady r ess)

owed_finished :
    {Double : Type 0} (n : String) (l : Labels) (ts : List (Thread Double))
    → All IsFinished ts
    → owed_by_all n l ts ≡ 0
owed_finished n l [] h = refl
owed_finished n l (t ∷ ts) (h, hs) = rw h (rw (owed_finished n l ts hs))

module _ (fl : Floating) where
  open fl use {Double, thousandths}

  -- Any number of threads report events at once, each taking and letting go of the mutexes as the
  -- code does, in any order of their turns. When all have finished, each counter shows exactly the
  -- number of the events of all threads that count in it, as long as that number is at most 2^53:
  -- no increment is lost between the fetching of a counter and its increment.
  pub Turns-counts :
      (ess : List (List (Event Double))) (n : String) (l : Labels) {k : ℕ}
      {ts : List (Thread Double)} {r : Registry Double}
      → Turns fl k (reporters ess) empty ts r
      → All IsFinished ts
      → hits_of_all n l ess ≤ 2 ^ 53
      → value_at fl n l r ≡ thousandths (hits_of_all n l ess * 1000)
  Turns-counts ess n l {k} {ts} {r} turns finished fits =
      let p = (Turns-AllPay fl turns (reporters-AllReady empty ess)).0 in
      let (j, value, owing) = p.pays n l in
      let all : j ≡ hits_of_all n l ess =
        omega (arith, owing, owed-reporters n l ess, owed_finished n l ts finished) in
      value
      ∙ (λ i. plus fl (all i) (value_at-empty fl n l i))
      ∙ plus_exact fl (hits_of_all n l ess) 0 (omega arith)
      ∙ ap (λ i. thousandths (i * 1000)) (zero-add (hits_of_all n l ess))

  abbrev CanTurn : List (Thread Double) → Registry Double → Type 0
  CanTurn ts r = (ts' : List (Thread Double)) × (r' : Registry Double) × Turn fl ts r ts' r'

  others :
      (t : Thread Double) (ts : List (Thread Double)) (r : Registry Double)
      → CanTurn ts r
      → CanTurn (t ∷ ts) r
  others t ts r (ts', r', x) = (t ∷ ts', r', other x)

  progress :
      (ts : List (Thread Double)) (r : Registry Double)
      → ((0 < all_moves_left ts) × CanTurn ts r) ⊎ ((all_moves_left ts ≡ 0) × All IsFinished ts)
  unfolding advance
  progress [] r = inr (refl, tt)
  progress (idle [] ∷ ts) r = elim (progress ts r) [
    | inl (more, turn) ↦ inl (omega arith, others (idle []) ts r turn)
    | inr (none_left, finished) ↦ inr (omega arith, (refl, finished))
  ]
  progress (idle (Action.counts name help labels ∷ rest) ∷ ts) r =
      inl (omega arith, (_, _, this refl))
  progress (idle (Action.observes seconds ∷ rest) ∷ ts) r = inl (omega arith, (_, _, this refl))
  progress (idle (Action.sets_up ∷ rest) ∷ ts) r = inl (omega arith, (_, _, this refl))
  progress (at_counter ref rest ∷ ts) r = inl (omega arith, (_, _, this refl))
  progress (at_histogram ref seconds rest ∷ ts) r = inl (omega arith, (_, _, this refl))

  -- Schedules as above can be carried to their end: a turn is to be had while a move is left, and
  -- none is left when as many turns were taken as there are moves.
  Turns-ends :
      (ess : List (List (Event Double))) {k : ℕ} {ts : List (Thread Double)} {r : Registry Double}
      → Turns fl k (reporters ess) empty ts r
      → ((k < all_moves_left (reporters ess)) × CanTurn ts r)
        ⊎ ((k ≡ all_moves_left (reporters ess)) × All IsFinished ts)
  Turns-ends ess {k} {ts} {r} turns =
      let left = (Turns-AllPay fl turns (reporters-AllReady empty ess)).1 in
      elim (progress ts r) [
        | inl (more, turn) ↦ inl (omega (arith, left), turn)
        | inr (none_left, finished) ↦ inr (omega (arith, left), finished)
      ]
