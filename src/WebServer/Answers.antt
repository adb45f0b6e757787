-- ===== src/WebServer/Answers.antt =====
-- What a client and a scrape see of a handler's work.
use computer_service_system.Common.{
  ℕ, String, List, [], ◌∷◌, ◌++◌, false, Option, none, some, ◌≡◌, ◌⊎◌,
}
use computer_service_system.Exec.{Result, ok, throws}
use computer_service_system.Metrics.Registry.History.{Event, run}
use computer_service_system.WebServer.{Platform, Server, Response, json_headers}

abbrev pub code_of : Result Response → Option ℕ
code_of (ok response) = some response.code
code_of (throws what) = none

-- The API response with a body, or the exception of writing it.
abbrev pub as_response : ℕ → Result String → Result Response
as_response code (ok body) = ok (record { code = code; headers = json_headers; body = body })
as_response code (throws what) = throws what

module _ (p : Platform) where
  -- The handler answers with this code, and leaves the registry as after these events.
  abbrev pub Answers : ℕ → List (Event p.fl.Double) → Server p → Result Response × Server p → Type 0
  Answers code events s (r, s') = (code_of r ≡ some code) × (s'.metrics ≡ run p.fl events s.metrics)

  -- The database is as it was.
  abbrev pub Keeps : Server p → Result Response × Server p → Type 0
  Keeps s (r, s') = s'.database ≡ s.database

  -- Every value can be written, as it can be if all text is UTF-8.
  abbrev pub Dumps : Type 0
  Dumps = (v : p.js.Value) → (body : String) × (p.js.dump v ≡ ok body)

  -- The API response with a value, or the exception of writing the value.
  abbrev pub written : ℕ → p.js.Value → Result Response
  written code v = as_response code (p.js.dump v)

  -- What a `catch` block of a handler answers with.
  abbrev pub refusal : String → p.js.Value
  refusal what = p.js.object (("success", p.js.bool false) ∷ ("error", p.js.str what) ∷ [])

  -- The handler answers as its `catch` block does, with 400, if the text of the exception can be
  -- written; else the exception of writing it leaves the handler.
  abbrev pub Refuses :
      String → List (Event p.fl.Double) → Server p → Result Response × Server p → Type 0
  Refuses what events s (r, s') =
      (r ≡ written 400 (refusal what)) × (s'.metrics ≡ run p.fl events s.metrics)

  -- The `try` block has reported some events and made a reply. The reply is sent; or it cannot be
  -- written, and the `catch` block reports its own events besides and refuses.
  abbrev pub Replies :
      ℕ
      → p.js.Value
      → List (Event p.fl.Double)
      → List (Event p.fl.Double)
      → Server p
      → Result Response × Server p
      → Type 0
  Replies code v events caught s (r, s') =
      ((body : String) × (p.js.dump v ≡ ok body)
        × (r ≡ ok (record { code = code; headers = json_headers; body = body }))
        × (s'.metrics ≡ run p.fl events s.metrics))
      ⊎ ((what : String) × (p.js.dump v ≡ throws what) × Refuses what (events ++ caught) s (r, s'))
