-- ===== src/Logger/Refused/Body.antt =====
-- The body that `sendToLoki` of src/logger.h makes, held against the grammar of JSON.
use Prim.Native.Char.{code}
use package.text.Mathlib.TextLemmas.{nil-append, cons-append}
use computer_service_system.Common.{
  String, List, [], ◌∷◌, Bool, true, false, ◌==◌, ◌&&◌, not, ltb, ◌≡◌, refl, ap, ◌∙◌, arith,
}
use computer_service_system.Json.Grammar.{
  Frame, in_object, in_array, value, in_string, refused, Config, step, scan, finished, is_json,
}
use computer_service_system.Std.Text.{◌<<◌}
use computer_service_system.Std.Chars.{text}
use computer_service_system.Logger.{Host, Logger}
use computer_service_system.Logger.Loki.{LokiLabels, payload}

scan-append : (cfg : Config) (s t : String) → scan cfg (s << t) ≡ scan (scan cfg s) t
unfolding scan
scan-append cfg String.[] t = rw (nil-append t) refl
scan-append (state, fs) (String.◌∷◌ c s) t =
    rw (cons-append c s t) (scan-append (step (code c) state fs) s t)

-- What is refused stays refused.
scan-refused : (fs : List Frame) (s : String) → scan (refused, fs) s ≡ (refused, fs)
unfolding scan step
scan-refused fs String.[] = refl
scan-refused fs (String.◌∷◌ c s) = scan-refused fs s

-- No character of the text is a quote, a backslash or a control character.
abbrev pub IsPlainName : String → Type 0
IsPlainName String.[] = Unit
IsPlainName (String.◌∷◌ c s) =
    ((code c == b'"') ≡ false)
    × ((code c == b'\\') ≡ false)
    × (ltb (code c) 32 ≡ false)
    × IsPlainName s

abbrev is_plain_name : String → Bool
is_plain_name String.[] = true
is_plain_name (String.◌∷◌ c s) =
    not (code c == b'"') && not (code c == b'\\') && not (ltb (code c) 32) && is_plain_name s

pub is_plain_name-IsPlainName : (s : String) → is_plain_name s ≡ true → IsPlainName s
is_plain_name-IsPlainName String.[] h = tt
is_plain_name-IsPlainName (String.◌∷◌ c s) h =
    (ground arith, ground arith, ground arith, is_plain_name-IsPlainName s (ground arith))

-- Such a text stands in a string.
scan-in_string :
    (name : Bool) (fs : List Frame) (s : String)
    → IsPlainName s
    → scan (in_string name, fs) s ≡ (in_string name, fs)
unfolding scan step
scan-in_string name fs String.[] h = refl
scan-in_string name fs (String.◌∷◌ c s) (quote, backslash, control, h) =
    rw (quote, backslash, control) (scan-in_string name fs s h)

abbrev head : String
head = "{\"streams\":[{\"stream\":{\"app\":\""

abbrev open_frames : List Frame
open_frames = in_object ∷ in_object ∷ in_array ∷ in_object ∷ []

scan-head : scan (value, []) head ≡ (in_string false, open_frames)
unfolding scan step
scan-head = refl

-- The name is closed, the next name is empty, and a letter stands where its colon is to be.
scan-level :
    scan (scan (in_string false, open_frames) "\",\"") "\"level\":\"" ≡ (refused, open_frames)
unfolding scan step
scan-level = refl

-- The beginning of what is sent is no JSON, whatever follows it.
scan-body :
    (name rest : String)
    → IsPlainName name
    → scan (value, []) (head << name << "\",\"" << "\"level\":\"" << rest) ≡ (refused, open_frames)
scan-body name rest plain =
    scan-append (value, []) head (name << "\",\"" << "\"level\":\"" << rest)
    ∙ ap (λ c. scan c (name << "\",\"" << "\"level\":\"" << rest)) scan-head
    ∙ scan-append (in_string false, open_frames) name ("\",\"" << "\"level\":\"" << rest)
    ∙ ap (λ c. scan c ("\",\"" << "\"level\":\"" << rest))
        (scan-in_string false open_frames name plain)
    ∙ scan-append (in_string false, open_frames) "\",\"" ("\"level\":\"" << rest)
    ∙ scan-append (scan (in_string false, open_frames) "\",\"") "\"level\":\"" rest
    ∙ ap (λ c. scan c rest) scan-level
    ∙ scan-refused open_frames rest

module _ (host : Host) where
  open host use {World}

  -- What is sent to Loki is no JSON, whatever the message and the labels are.
  pub payload-refused :
      (lg : Logger World) (level message : String) (labels : LokiLabels) (timestamp : String)
      → IsPlainName lg.service_name
      → is_json (payload host lg level message labels timestamp) ≡ false
  unfolding payload is_json
  payload-refused lg level message labels timestamp plain =
      ap finished (scan-body lg.service_name _ plain)
