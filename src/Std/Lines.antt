-- ===== src/Std/Lines.antt =====
-- Texts in lines, each ended by a line feed.
use Prim.Native.Char.{Char, code}
use text.Mathlib.TextLemmas.{append_assoc, nil-append, cons-append}
use computer_service_system.Common.{
  ℕ, String, List, [], ◌∷◌, ◌≡◌, refl, ◌==◌, Bool, true, not, ◌&&◌, arith, if◌then◌else◌, All,
}
use computer_service_system.Std.Text.{◌<<◌}
use computer_service_system.Std.Contains.{Lacks, print_each}

-- A character in front of the first line.
abbrev lead : Char → List String → List String
lead c [] = String.◌∷◌ c "" ∷ []
lead c (l ∷ ls) = String.◌∷◌ c l ∷ ls

-- The lines of a text, as a reader of it takes them apart.
unfoldable pub lines : String → List String
lines String.[] = []
lines (String.◌∷◌ c s) = let rest = lines s in if code c == 10 then "" ∷ rest else lead c rest

unfoldable pub unlines : List String → String
unfolding print_each
unlines ls = print_each (λ l. l << "\n") ls

lines-cons : (l s : String) → Lacks 10 l → lines (l << "\n" << s) ≡ l ∷ lines s
unfolding lines
lines-cons String.[] s h = rw (nil-append ("\n" << s), cons-append "\n" "" s, nil-append s) refl
lines-cons (String.◌∷◌ c l) s h = rw (cons-append c l ("\n" << s), h.0, lines-cons l s h.1) refl

-- What was written line by line is read line by line.
pub lines-unlines : (ls : List String) → All (Lacks 10) ls → lines (unlines ls) ≡ ls
unfolding unlines print_each
lines-unlines [] h = unfold lines in refl
lines-unlines (l ∷ ls) h =
    rw (append_assoc l "\n" (unlines ls), lines-cons l (unlines ls) h.0, lines-unlines ls h.1) refl

pub Lacks-append : (q : ℕ) (s t : String) → Lacks q s → Lacks q t → Lacks q (s << t)
Lacks-append q String.[] t h k = rw (nil-append t) k
Lacks-append q (String.◌∷◌ c s) t h k = rw (cons-append c s t) (h.0, Lacks-append q s t h.1 k)

-- A text without a line feed, as a test for the texts that the code writes out.
abbrev pub one_line : String → Bool
one_line String.[] = true
one_line (String.◌∷◌ c s) = not (code c == 10) && one_line s

pub one_line-Lacks : (s : String) → one_line s ≡ true → Lacks 10 s
one_line-Lacks String.[] h = tt
one_line-Lacks (String.◌∷◌ c s) h = (ground arith, one_line-Lacks s (ground arith))

-- Parts of a line, one after the other.
abbrev pub Part : Type 0
Part = (s : String) × Lacks 10 s

abbrev pub literal : (s : String) → one_line s ≡ true → Part
literal s h = (s, one_line-Lacks s h)

abbrev pub joined : List Part → String
joined [] = ""
joined ((s, h) ∷ []) = s
joined ((s, h) ∷ next ∷ parts) = s << joined (next ∷ parts)

pub joined-Lacks : (parts : List Part) → Lacks 10 (joined parts)
joined-Lacks [] = tt
joined-Lacks ((s, h) ∷ []) = h
joined-Lacks ((s, h) ∷ next ∷ parts) =
    Lacks-append 10 s (joined (next ∷ parts)) h (joined-Lacks (next ∷ parts))
