-- ===== src/WebServer/Shapes/Replies.antt =====
-- What holds of every response that a computation returns.
use mathlib.Core.Path.{subst}
use computer_service_system.Common.{ℕ, String, ◌≡◌, refl, ◌∙◌, inl, inr}
use computer_service_system.Exec.{ok, throws, Exec, ◌>>=◌, try_catch, Result-cases}
use computer_service_system.WebServer.{Platform, json_response, json_headers}
use computer_service_system.WebServer.Routes.{Endpoint}
use computer_service_system.WebServer.Shapes.{HasShape, shape_of, HasReply}

throws-ne-ok : {A : Type 0} (what : String) (a : A) → throws what ≡ ok a → ⊥
throws-ne-ok what a e = cc

pub ok_inj : {A : Type 0} {a b : A} → ok a ≡ ok b → a ≡ b
ok_inj e = cc

module _ {S : Type 0} where
  abbrev pub Returns : {A : Type 0} → (A → Type 0) → Exec S A → Type 0
  Returns {A} P m = (s : S) (a : A) → (m s).0 ≡ ok a → P a

  pub bind-Returns :
      {A B : Type 0} (P : B → Type 0) (m : Exec S A) (f : A → Exec S B)
      → ((a : A) → Returns P (f a))
      → Returns P (m >>= f)
  bind-Returns P m f rest s b returned = elim (Result-cases (m s).0) [
    | inl (a, e) ↦ rest a (m s).1 b (rw e at returned)
    | inr (what, e) ↦ absurd (throws-ne-ok what b (rw e at returned))
  ]

  pub try_catch-Returns :
      {A : Type 0} (P : A → Type 0) (m : Exec S A) (h : String → Exec S A)
      → Returns P m
      → ((what : String) → Returns P (h what))
      → Returns P (try_catch m h)
  try_catch-Returns P m h first caught s a returned = elim (Result-cases (m s).0) [
    | inl (a', e) ↦ first s a (e ∙ rw e at returned)
    | inr (what, e) ↦ caught what (m s).1 a (rw e at returned)
  ]

module _ (p : Platform) (e : Endpoint) where
  open p.js use {Value}

  -- The end of a handler.
  pub json_response-HasReply :
      (code : ℕ) (v : Value)
      → HasShape p.js (shape_of e code) v
      → Returns (HasReply p e) (json_response p code v)
  unfolding json_response
  json_response-HasReply code v shaped s r returned = elim (Result-cases (p.js.dump v)) [
    | inl (body, dumped) ↦
        let same : record { code = code; headers = json_headers; body = body } ≡ r =
          ok_inj (rw dumped at returned) in
        subst (HasReply p e) same
          (record { value = v; written = dumped; shaped = shaped; headed = refl })
    | inr (what, failed) ↦ absurd (throws-ne-ok what r (rw failed at returned))
  ]
