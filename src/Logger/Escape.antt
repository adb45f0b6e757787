-- ===== src/Logger/Escape.antt =====
-- The loop of `sendToLoki` in src/logger.h that escapes a message in place, by index.
pub mod Loop
use Prim.Native.Char.{Char, code}
use computer_service_system.Common.{
  ℕ, zero, suc, ◌+◌, String, List, [], ◌∷◌, Bool, Option, none, some, ◌==◌, ◌||◌, if◌then◌else◌,
  ltb, length, ◌≡◌, refl,
}
use computer_service_system.Std.Chars.{chars, text}

abbrev pub backslash : Char
backslash = "\\"

abbrev pub is_backslash : Char → Bool
is_backslash c = code c == b'\\'

-- '"', '\n' and '\r'
abbrev pub is_replaced : Char → Bool
is_replaced c = code c == b'"' || code c == 10 || code c == 13

-- s[i]
abbrev pub get_elem? : List Char → ℕ → Option Char
get_elem? [] i = none
get_elem? (c ∷ cs) zero = some c
get_elem? (c ∷ cs) (suc i) = get_elem? cs i

-- s[i] = c
abbrev pub set : List Char → ℕ → Char → List Char
set [] i c = []
set (d ∷ ds) zero c = c ∷ ds
set (d ∷ ds) (suc i) c = d ∷ set ds i c

-- s.insert(s.begin() + i, c)
abbrev pub insert_at : List Char → ℕ → Char → List Char
insert_at cs zero c = c ∷ cs
insert_at [] (suc i) c = []
insert_at (d ∷ ds) (suc i) c = d ∷ insert_at ds i c

-- The loop from index `i`, on fuel; none if the fuel runs out. The four tests exclude one another,
-- and three of the branches do the same.
unfoldable pub escape_loop : ℕ → ℕ → List Char → Option (List Char)
escape_loop zero i s = none
escape_loop (suc fuel) i s = elim (get_elem? s i) [
  | none ↦ some s
  | some c ↦
      let replaced = escape_loop fuel (i + 1) (set s i backslash) in
      let doubled = escape_loop fuel (i + 2) (insert_at s i backslash) in
      let kept = escape_loop fuel (i + 1) s in
      if is_replaced c then replaced else if is_backslash c then doubled else kept
]

-- One more round than the message has characters is enough.
unfoldable pub escape : List Char → Option (List Char)
unfolding escape_loop
escape s = escape_loop (suc (length s)) 0 s
