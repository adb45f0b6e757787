-- ===== src/Std/Text/Digits.antt =====
-- The printed numbers hold no line feed.
use computer_service_system.Common.{ℕ, zero, suc, ◌/◌, ◌%◌, String, refl, ltb, ℤ, pos, negsuc}
use computer_service_system.Std.Text.{◌<<◌, digit, decimal, to_string_ℕ, to_string}
use computer_service_system.Std.Contains.{Lacks}
use computer_service_system.Std.Lines.{Lacks-append}
use computer_service_system.Std.Held.{either}

digit-Lacks : (n : ℕ) → Lacks 10 (digit n)
unfolding digit
digit-Lacks zero = (refl, tt)
digit-Lacks (suc zero) = (refl, tt)
digit-Lacks (suc (suc zero)) = (refl, tt)
digit-Lacks (suc (suc (suc zero))) = (refl, tt)
digit-Lacks (suc (suc (suc (suc zero)))) = (refl, tt)
digit-Lacks (suc (suc (suc (suc (suc zero))))) = (refl, tt)
digit-Lacks (suc (suc (suc (suc (suc (suc zero)))))) = (refl, tt)
digit-Lacks (suc (suc (suc (suc (suc (suc (suc zero))))))) = (refl, tt)
digit-Lacks (suc (suc (suc (suc (suc (suc (suc (suc zero)))))))) = (refl, tt)
digit-Lacks (suc (suc (suc (suc (suc (suc (suc (suc (suc n))))))))) = (refl, tt)

decimal-Lacks : (fuel n : ℕ) (tail : String) → Lacks 10 tail → Lacks 10 (decimal fuel n tail)
unfolding decimal
decimal-Lacks zero n tail h = h
decimal-Lacks (suc fuel) n tail h =
    either (Lacks 10) (ltb n 10) (Lacks-append 10 (digit n) tail (digit-Lacks n) h) (
      decimal-Lacks fuel (n / 10) (digit (n % 10) << tail)
        (Lacks-append 10 (digit (n % 10)) tail (digit-Lacks (n % 10)) h))

pub to_string_ℕ-Lacks : (n : ℕ) → Lacks 10 (to_string_ℕ n)
unfolding to_string_ℕ
to_string_ℕ-Lacks n = decimal-Lacks (suc n) n "" tt

pub to_string-Lacks : (z : ℤ) → Lacks 10 (to_string z)
unfolding to_string
to_string-Lacks (pos n) = to_string_ℕ-Lacks n
to_string-Lacks (negsuc n) = Lacks-append 10 "-" _ (refl, tt) (to_string_ℕ-Lacks (suc n))
