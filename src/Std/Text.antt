-- ===== src/Std/Text.antt =====
-- String concatenation and `std::to_string`.
pub mod Digits
use Prim.Native.String.{◌++◌}
use computer_service_system.Common.{
  ℕ, zero, suc, ◌/◌, ◌%◌, String, ◌≡◌, refl, if◌then◌else◌, ltb, ℤ, pos, negsuc,
}

-- `ss << t`, and `s + t` of strings
infixr 65 ◌<<◌
abbrev pub ◌<<◌ : String → String → String
s << t = s ++ t

-- the character of a decimal digit
unfoldable digit : ℕ → String
digit zero = "0"
digit (suc zero) = "1"
digit (suc (suc zero)) = "2"
digit (suc (suc (suc zero))) = "3"
digit (suc (suc (suc (suc zero)))) = "4"
digit (suc (suc (suc (suc (suc zero))))) = "5"
digit (suc (suc (suc (suc (suc (suc zero)))))) = "6"
digit (suc (suc (suc (suc (suc (suc (suc zero))))))) = "7"
digit (suc (suc (suc (suc (suc (suc (suc (suc zero)))))))) = "8"
digit _ = "9"

-- The digits of `n` in front of `tail`; `n + 1` is enough fuel.
unfoldable decimal : ℕ → ℕ → String → String
unfolding digit
decimal zero n tail = tail
decimal (suc fuel) n tail =
    let longer = decimal fuel (n / 10) (digit (n % 10) << tail) in
    if ltb n 10 then digit n << tail else longer

unfoldable pub to_string_ℕ : ℕ → String
unfolding decimal
to_string_ℕ n = decimal (suc n) n ""

-- std::to_string(z)
unfoldable pub to_string : ℤ → String
unfolding to_string_ℕ
to_string (pos n) = to_string_ℕ n
to_string (negsuc n) = "-" << to_string_ℕ (suc n)

to_string_examples :
    (to_string (pos 0) ≡ "0") × (to_string (pos 403) ≡ "403") × (to_string (negsuc 0) ≡ "-1")
unfolding to_string
to_string_examples = (refl, refl, refl)
