-- ===== src/Metrics/Objects/Locks.antt =====
-- Two threads that assign counters to one another by `operator=(const Counter&)`, which locks the
-- mutex of the target first and that of the source second. A mutex that is held is waited for.
use computer_service_system.Common.{ℕ, ◌≡◌, ◌≢◌, refl, Option, none, some, ◌⊎◌, inl, inr, arith, ap}

-- Where a thread is in the assignment, after its test for self-assignment.
pub data Stage : Type 0 where
  outside first_held both_held finished : Stage

-- Which thread holds the mutex of each counter, and where the two threads are.
pub record State : Type 0 where
  pub a_owner : Option ℕ
  pub b_owner : Option ℕ
  pub thread0 : Stage
  pub thread1 : Stage

-- Thread 0 runs `a = b`, thread 1 runs `b = a`. The members are copied with both mutexes held, and
-- both are released at the end.
pub data Step : State → State → Type 0 where
  lock_a0 :
      {s : State}
      → s.thread0 ≡ outside
      → s.a_owner ≡ none
      → Step s (record s { a_owner = some 0; thread0 = first_held })
  lock_b0 :
      {s : State}
      → s.thread0 ≡ first_held
      → s.b_owner ≡ none
      → Step s (record s { b_owner = some 0; thread0 = both_held })
  finish0 :
      {s : State}
      → s.thread0 ≡ both_held
      → Step s (record s { a_owner = none; b_owner = none; thread0 = finished })
  lock_b1 :
      {s : State}
      → s.thread1 ≡ outside
      → s.b_owner ≡ none
      → Step s (record s { b_owner = some 1; thread1 = first_held })
  lock_a1 :
      {s : State}
      → s.thread1 ≡ first_held
      → s.a_owner ≡ none
      → Step s (record s { a_owner = some 1; thread1 = both_held })
  finish1 :
      {s : State}
      → s.thread1 ≡ both_held
      → Step s (record s { a_owner = none; b_owner = none; thread1 = finished })

pub data Reach (s : State) : State → Type 0 where
  here : Reach s s
  next : {t u : State} → Reach s t → Step t u → Reach s u

abbrev pub start : State
start = record { a_owner = none; b_owner = none; thread0 = outside; thread1 = outside }

-- Each thread holds one mutex and waits for the other.
abbrev pub crossed : State
crossed = record { a_owner = some 0; b_owner = some 1; thread0 = first_held; thread1 = first_held }

-- The holders that the places of the threads call for; none where the places exclude one another.
abbrev holders : Stage → Stage → Option (Option ℕ × Option ℕ)
holders first_held first_held = some (some 0, some 1)
holders first_held both_held = none
holders first_held t = some (some 0, none)
holders both_held first_held = none
holders both_held both_held = none
holders both_held t = some (some 0, some 0)
holders t first_held = some (none, some 1)
holders t both_held = some (some 1, some 1)
holders t u = some (none, none)

abbrev Held : State → Type 0
Held s = holders s.thread0 s.thread1 ≡ some (s.a_owner, s.b_owner)

Step-Held : {s t : State} → Step s t → Held s → Held t
Step-Held (lock_a0 p q) h = ground arith
Step-Held (lock_b0 p q) h = ground arith
Step-Held (finish0 p) h = ground arith
Step-Held (lock_b1 p q) h = ground arith
Step-Held (lock_a1 p q) h = ground arith
Step-Held (finish1 p) h = ground arith

Reach-Held : {s : State} → Reach start s → Held s
Reach-Held here = refl
Reach-Held (next r x) = Step-Held x (Reach-Held r)

-- What can come next where the threads stand.
abbrev Next : State → Type 0
Next s =
    (s ≡ crossed) ⊎ ((s.thread0 ≡ finished) × (s.thread1 ≡ finished)) ⊎ ((t : State) × Step s t)

pair-Next :
    (t u : Stage) (a b : Option ℕ)
    → holders t u ≡ some (a, b)
    → Next (record { a_owner = a; b_owner = b; thread0 = t; thread1 = u })
pair-Next outside outside a b h = inr (inr (_, lock_a0 refl (cc)))
pair-Next outside first_held a b h = inr (inr (_, lock_a1 refl (cc)))
pair-Next outside both_held a b h = inr (inr (_, finish1 refl))
pair-Next outside finished a b h = inr (inr (_, lock_a0 refl (cc)))
pair-Next first_held outside a b h = inr (inr (_, lock_b0 refl (cc)))
pair-Next first_held first_held a b h = inl (ground arith)
pair-Next first_held both_held a b h = absurd (cc)
pair-Next first_held finished a b h = inr (inr (_, lock_b0 refl (cc)))
pair-Next both_held first_held a b h = absurd (cc)
pair-Next both_held both_held a b h = absurd (cc)
pair-Next both_held outside a b h = inr (inr (_, finish0 refl))
pair-Next both_held finished a b h = inr (inr (_, finish0 refl))
pair-Next finished outside a b h = inr (inr (_, lock_b1 refl (cc)))
pair-Next finished first_held a b h = inr (inr (_, lock_a1 refl (cc)))
pair-Next finished both_held a b h = inr (inr (_, finish1 refl))
pair-Next finished finished a b h = inr (inl (refl, refl))

no_step : {s t : State} → Step s t → s ≢ crossed
no_step (lock_a0 p q) e = cc (ap (λ s. s.thread0) e)
no_step (lock_b0 p q) e = cc (ap (λ s. s.b_owner) e)
no_step (finish0 p) e = cc (ap (λ s. s.thread0) e)
no_step (lock_b1 p q) e = cc (ap (λ s. s.thread1) e)
no_step (lock_a1 p q) e = cc (ap (λ s. s.a_owner) e)
no_step (finish1 p) e = cc (ap (λ s. s.thread1) e)

-- Two threads assign two counters to one another by copy assignment. From each state that they can
-- reach, some thread can go on, or both have finished, or it is the one state in which each holds a
-- mutex and waits for the other; that state can be reached, and nothing follows it.
pub Reach-Next :
    ((s : State) → Reach start s → Next s) × Reach start crossed × ((t : State) → ¬ Step crossed t)
Reach-Next = (
  λ s r. pair-Next s.thread0 s.thread1 s.a_owner s.b_owner (Reach-Held r),
  next (next here (lock_a0 refl refl)) (lock_b1 refl refl),
  λ t x. no_step x refl,
)
