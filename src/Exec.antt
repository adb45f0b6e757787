-- ===== src/Exec.antt =====
-- C++ code that changes state and may throw: what was changed before the exception stays changed,
-- and an exception is known by its `what()`.
use computer_service_system.Common.{String, ◌≡◌, refl, ◌⊎◌, inl, inr}

pub data Result {ℓ} (A : Type ℓ) : Type ℓ where
  ok : A → Result A
  throws : String → Result A

-- To split on an answer and keep the equation.
pub Result-cases :
    {A : Type 0} (r : Result A) → ((a : A) × (r ≡ ok a)) ⊎ ((what : String) × (r ≡ throws what))
Result-cases (ok a) = inl (a, refl)
Result-cases (throws what) = inr (what, refl)

pub done-cases : (r : Result (Unit {0})) → (r ≡ ok tt) ⊎ ((what : String) × (r ≡ throws what))
done-cases (ok a) = inl refl
done-cases (throws what) = inr (what, refl)

-- A computation on a state.
abbrev pub Exec : Type 0 → Type 0 → Type 0
Exec S A = S → Result A × S

abbrev pub pure : {S A : Type 0} → A → Exec S A
pure a s = (ok a, s)

abbrev pub lift : {S A : Type 0} → Result A → Exec S A
lift r s = (r, s)

-- The rest of a computation, if nothing was thrown.
abbrev pub continue : {S A B : Type 0} → Result A → (A → Exec S B) → Exec S B
continue (ok a) f s = f a s
continue (throws what) f s = (throws what, s)

infixl 10 ◌>>=◌ ◌>>◌
abbrev pub ◌>>=◌ : {S A B : Type 0} → Exec S A → (A → Exec S B) → Exec S B
◌>>=◌ m f s = let (r, s') = m s in continue r f s'

abbrev pub ◌>>◌ : {S A B : Type 0} → Exec S A → Exec S B → Exec S B
m >> n = m >>= λ _. n

-- try { m } catch (const std::exception& e) { handler(e.what()) }
abbrev pub catching : {S A : Type 0} → Result A → (String → Exec S A) → Exec S A
catching (ok a) handler s = (ok a, s)
catching (throws what) handler s = handler what s

abbrev pub try_catch : {S A : Type 0} → Exec S A → (String → Exec S A) → Exec S A
try_catch m handler s = let (r, s') = m s in catching r handler s'

-- Where every exception is caught and answered with a value, there is an answer.
pub catching-ok :
    {S A : Type 0} (r : Result A) (otherwise : A) (s : S)
    → (a : A) × ((catching r (λ what. pure otherwise) s).0 ≡ ok a)
catching-ok (ok a) otherwise s = (a, refl)
catching-ok (throws what) otherwise s = (otherwise, refl)
