-- ===== src/Std/Floating.antt =====
-- `double`, which the program takes from the machine: the type and the operations are parameters,
-- with the laws of IEEE 754 arithmetic that the program relies on.
use computer_service_system.Common.{
  ℕ, ◌+◌, ◌*◌, ◌^◌, ◌≤◌, ◌<◌, String, ◌≡◌, refl, Bool, true, arith, leb, ℤ, pos, negsuc,
}
use computer_service_system.Std.Contains.{Lacks}

pub record Floating : Type 1 where
  pub Double : Type 0
  -- The literal of so many thousandths: 0.005 is `thousandths 5`, and 10.0 is `thousandths 10000`.
  pub thousandths : ℕ → Double
  -- ms / 1000.0
  pub of_ms : ℤ → Double
  pub add : Double → Double → Double
  -- a <= b, false where one of them is not a number
  pub le : Double → Double → Bool
  -- std::fixed << std::setprecision(digits)
  pub fixed : ℕ → Double → String
  pub le_trans : (a b c : Double) → le a b ≡ true → le b c ≡ true → le a c ≡ true
  -- Rounding keeps the order of the literals.
  pub thousandths_mono : (m n : ℕ) → m ≤ n → le (thousandths m) (thousandths n) ≡ true
  -- Whole numbers up to 2^53 are exact.
  pub add_one :
      (n : ℕ)
      → n < 2 ^ 53
      → add (thousandths (n * 1000)) (thousandths 1000) ≡ thousandths ((n + 1) * 1000)
  -- A number is printed on one line.
  pub fixed-Lacks : (digits : ℕ) (a : Double) → Lacks 10 (fixed digits a)

-- Thousandths counted by natural numbers: an instance with which the definitions run.
pub leb_trans : (a b c : ℕ) → leb a b ≡ true → leb b c ≡ true → leb a c ≡ true
leb_trans a b c h k = ground arith

pub leb_mono : (m n : ℕ) → m ≤ n → leb m n ≡ true
leb_mono m n h = ground arith

pub add_thousand : (n : ℕ) → n < 2 ^ 53 → n * 1000 + 1000 ≡ (n + 1) * 1000
add_thousand n h = omega arith

abbrev ms_part : ℤ → ℕ
ms_part (pos n) = n
ms_part (negsuc n) = 0

abbrev pub milli : Floating
milli = record {
  Double = ℕ;
  thousandths = λ n. n;
  of_ms = ms_part;
  add = λ a b. a + b;
  le = leb;
  fixed = λ digits a. "0";
  le_trans = leb_trans;
  thousandths_mono = leb_mono;
  add_one = add_thousand;
  fixed-Lacks = λ digits a. (refl, tt);
}
