-- ===== src/WebServer/Counted/Names.antt =====
-- What a login counts: its name and its success, which its labels tell apart from any other.
use text.Mathlib.TextEquality.{eq_iff}
use computer_service_system.Common.{
  ℕ, String, [], ◌∷◌, Bool, true, false, ◌&&◌, ◌≡◌, refl, ap, ◌↔◌, str_eq, if◌then◌else◌, arith,
  All,
}
use computer_service_system.Std.Ord.{string_ord, pair_ord, list_ord, same_key, same_key_iff}
use computer_service_system.Std.OrderedMap
use computer_service_system.Metrics.Labels.{Labels}
use computer_service_system.Metrics.Registry.Record.{auth_labels}
use computer_service_system.Metrics.Registry.History.{http_request}
use computer_service_system.Metrics.Registry.Document.Plain.{IsLine}
use computer_service_system.Metrics.Registry.Document.Events.{PlainEvent, are_plain_events-All}
use computer_service_system.WebServer.{Platform, Request}
use computer_service_system.WebServer.Routes.{log_in}
use computer_service_system.WebServer.Login.{attempt}
use computer_service_system.WebServer.Counted.{same_bool, named, attempts}

-- What stands first, and second.
abbrev first_value : Labels → String
first_value [] = ""
first_value ((key, value) ∷ l) = value

abbrev second_value : Labels → String
second_value [] = ""
second_value (e ∷ l) = first_value l

auth_labels-injective :
    (u v : String) (b c : Bool) → auth_labels u b ≡ auth_labels v c → (u ≡ v) × (b ≡ c)
unfolding auth_labels OrderedMap.assign
auth_labels-injective u v true true e = (ap second_value e, refl)
auth_labels-injective u v true false e =
    absurd (let same : "true" ≡ "false" = ap first_value e in cc)
auth_labels-injective u v false true e =
    absurd (let same : "false" ≡ "true" = ap first_value e in cc)
auth_labels-injective u v false false e = (ap second_value e, refl)

same_bool_iff : (b c : Bool) → (same_bool b c ≡ true) ↔ (b ≡ c)
same_bool_iff true c = ground arith
same_bool_iff false c = ground arith

same_key-auth_labels :
    (u v : String) (b c : Bool)
    → same_key (auth_labels u b) (auth_labels v c) ≡ (str_eq u v && same_bool b c)
same_key-auth_labels u v b c = ground (
  arith,
  same_key_iff (auth_labels u b) (auth_labels v c),
  auth_labels-injective u v b c,
  eq_iff u v,
  same_bool_iff b c,
)

module _ (p : Platform) (req : Request) where
  open p.fl use {Double}

  -- The events of an attempt, whose name is that of the login.
  pub attempt-plain :
      (username : String) (success : Bool) (code : ℕ)
      → named p log_in req ≡ username
      → IsLine (named p log_in req)
      → All PlainEvent (attempt p username success code req)
  attempt-plain username success code e line = (
    rw e at line,
    are_plain_events-All {Double = Double}
        (http_request "POST" "/api/login" code (p.fl.of_ms req.duration_ms) ∷ []) refl,
  )

  pub attempt-tried :
      (username : String) (success : Bool) (code : ℕ)
      → named p log_in req ≡ username
      → (u : String) (b : Bool)
      → attempts u b (attempt p username success code req)
        ≡ (if str_eq (named p log_in req) u && same_bool success b then 1 else 0)
  attempt-tried username true code e u b = rw (e, same_key-auth_labels username u true b) refl
  attempt-tried username false code e u b = rw (e, same_key-auth_labels username u false b) refl
