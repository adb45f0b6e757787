-- ===== src/Json/Grammar.antt =====
-- Which texts are JSON, by RFC 8259: an automaton that reads a text character by character, with a
-- stack of the objects and arrays that are open. It is what a receiver of JSON holds a text against.
use Prim.Native.Char.{code}
use computer_service_system.Common.{
  ℕ, ◌-◌, String, List, [], ◌∷◌, Bool, true, false, ◌||◌, ◌&&◌, ◌==◌, ltb, leb, if◌then◌else◌, ◌≡◌,
  refl,
}

pub data Frame : Type 0 where
  in_object in_array : Frame

pub data State : Type 0 where
  -- a value is to come; a value or "]"; a name or "}"; a name; a colon; what follows a value
  value first_item first_key next_key colon after : State
  -- inside of a string, after a backslash in it, and before so many hexadecimal digits; each with
  -- whether the string is a name
  in_string in_escape : Bool → State
  in_hex : Bool → ℕ → State
  -- before the rest of "true", "false" or "null"
  in_word : List ℕ → State
  -- in a number: after the minus, a leading zero, the digits, the point, its digits, the "e", its
  -- sign, its digits
  minus leading_zero digits point fraction exponent sign power : State
  -- this is no JSON
  refused : State

abbrev pub Config : Type 0
Config = State × List Frame

abbrev is_space : ℕ → Bool
is_space c = c == 32 || c == 9 || c == 10 || c == 13

abbrev is_digit : ℕ → Bool
is_digit c = leb b'0' c && leb c b'9'

abbrev is_hex : ℕ → Bool
is_hex c = is_digit c || (leb b'a' c && leb c b'f') || (leb b'A' c && leb c b'F')

-- The first character of a value.
abbrev opens : ℕ → List Frame → Config
opens c fs =
    if c == b'"'
    then (in_string false, fs)
    else if c == b'{'
    then (first_key, in_object ∷ fs)
    else if c == b'['
    then (first_item, in_array ∷ fs)
    else if c == b'-'
    then (minus, fs)
    else if c == b'0'
    then (leading_zero, fs)
    else if is_digit c
    then (digits, fs)
    else if c == b't'
    then (in_word (b'r' ∷ b'u' ∷ b'e' ∷ []), fs)
    else if c == b'f'
    then (in_word (b'a' ∷ b'l' ∷ b's' ∷ b'e' ∷ []), fs)
    else if c == b'n'
    then (in_word (b'u' ∷ b'l' ∷ b'l' ∷ []), fs)
    else (refused, fs)

-- A character after a value.
abbrev follows : ℕ → List Frame → Config
follows c [] = if is_space c then (after, []) else (refused, [])
follows c (in_object ∷ fs) =
    if is_space c
    then (after, in_object ∷ fs)
    else if c == b','
    then (next_key, in_object ∷ fs)
    else if c == b'}'
    then (after, fs)
    else (refused, fs)
follows c (in_array ∷ fs) =
    if is_space c
    then (after, in_array ∷ fs)
    else if c == b','
    then (value, in_array ∷ fs)
    else if c == b']'
    then (after, fs)
    else (refused, fs)

-- A digit that is needed, and a digit or what follows a number.
abbrev needs_digit : State → ℕ → List Frame → Config
needs_digit next c fs = if is_digit c then (next, fs) else (refused, fs)

abbrev may_end : State → ℕ → List Frame → Config
may_end same c fs = if is_digit c then (same, fs) else follows c fs

abbrev is_exponent : ℕ → Bool
is_exponent c = c == b'e' || c == b'E'

unfoldable pub step : ℕ → State → List Frame → Config
step c value fs = if is_space c then (value, fs) else opens c fs
step c first_item [] = (refused, [])
step c first_item (f ∷ fs) =
    if is_space c then (first_item, f ∷ fs) else if c == b']' then (after, fs) else opens c (f ∷ fs)
step c first_key [] = (refused, [])
step c first_key (f ∷ fs) =
    if is_space c
    then (first_key, f ∷ fs)
    else if c == b'"'
    then (in_string true, f ∷ fs)
    else if c == b'}'
    then (after, fs)
    else (refused, fs)
step c next_key fs =
    if is_space c then (next_key, fs) else if c == b'"' then (in_string true, fs) else (refused, fs)
step c colon fs =
    if is_space c then (colon, fs) else if c == b':' then (value, fs) else (refused, fs)
step c after fs = follows c fs
step c (in_string name) fs =
    if c == b'"'
    then (if name then colon else after, fs)
    else if c == b'\\'
    then (in_escape name, fs)
    else if ltb c 32
    then (refused, fs)
    else (in_string name, fs)
step c (in_escape name) fs =
    if c == b'"'
      || c == b'\\'
      || c == b'/'
      || c == b'b'
      || c == b'f'
      || c == b'n'
      || c == b'r'
      || c == b't'
    then (in_string name, fs)
    else if c == b'u'
    then (in_hex name 4, fs)
    else (refused, fs)
step c (in_hex name n) fs =
    if is_hex c
    then (if leb n 1 then in_string name else in_hex name (n - 1), fs)
    else (refused, fs)
step c (in_word []) fs = follows c fs
step c (in_word (d ∷ [])) fs = if c == d then (after, fs) else (refused, fs)
step c (in_word (d ∷ e ∷ ds)) fs = if c == d then (in_word (e ∷ ds), fs) else (refused, fs)
step c minus fs = if c == b'0' then (leading_zero, fs) else needs_digit digits c fs
step c leading_zero fs =
    if c == b'.' then (point, fs) else if is_exponent c then (exponent, fs) else follows c fs
step c digits fs =
    if c == b'.' then (point, fs) else if is_exponent c then (exponent, fs) else may_end digits c fs
step c point fs = needs_digit fraction c fs
step c fraction fs = if is_exponent c then (exponent, fs) else may_end fraction c fs
step c exponent fs = if c == b'+' || c == b'-' then (sign, fs) else needs_digit power c fs
step c sign fs = needs_digit power c fs
step c power fs = may_end power c fs
step c refused fs = (refused, fs)

unfoldable pub scan : Config → String → Config
unfolding step
scan cfg String.[] = cfg
scan (state, fs) (String.◌∷◌ c s) = scan (step (code c) state fs) s

-- A text may end after a value, or in a number that is complete.
abbrev pub finished : Config → Bool
finished (after, []) = true
finished (leading_zero, []) = true
finished (digits, []) = true
finished (fraction, []) = true
finished (power, []) = true
finished _ = false

unfoldable pub is_json : String → Bool
unfolding scan
is_json s = finished (scan (value, []) s)

is_json_examples :
    (is_json "{\"a\": [1, -2.5e+3, true, null], \"b\": {\"c\": \"x\\u00e9\\n\"}} " ≡ true)
    × (is_json "[]" ≡ true)
    × (is_json "{\"a\":1,}" ≡ false)
    × (is_json "[01]" ≡ false)
    × (is_json "{\"a\" \"b\"}" ≡ false)
    × (is_json "\"\\x\"" ≡ false)
    × (is_json "[1" ≡ false)
unfolding is_json
is_json_examples = (refl, refl, refl, refl, refl, refl, refl)
