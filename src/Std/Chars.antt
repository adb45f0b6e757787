-- ===== src/Std/Chars.antt =====
-- Texts as lists of characters, for the code that walks them by index.
use Prim.Native.Char.{Char, code}
use Prim.Native.String.{String}
use computer_service_system.Common.{List, [], ◌∷◌, Option, none, some, ◌==◌, if◌then◌else◌}

unfoldable pub chars : String → List Char
chars String.[] = []
chars (String.◌∷◌ c s) = c ∷ chars s

unfoldable pub text : List Char → String
text [] = ""
text (c ∷ cs) = String.◌∷◌ c (text cs)

-- s.substr(0, s.find_last_of('/')); none where there is no '/'
unfoldable pub before_last_slash : List Char → Option (List Char)
before_last_slash [] = none
before_last_slash (c ∷ cs) = elim (before_last_slash cs) [
  | some before ↦ some (c ∷ before)
  | none ↦ if code c == b'/' then some [] else none
]
