-- ===== src/WebServer/Logged.antt =====
-- The requests that each handler counts, by what it was asked and what the database answered.
pub mod Handlers
pub mod Sequence
pub mod Tests
use computer_service_system.Common.{
  ℕ, String, List, [], ◌∷◌, Bool, Option, none, some, ◌≡◌, ◌⊎◌, if◌then◌else◌,
}
use computer_service_system.Exec.{Result, ok, throws}
use computer_service_system.Database.{ServiceRecord}
use computer_service_system.Database.Write.{add_service_record}
use computer_service_system.Metrics.Registry.History.{Event, run}
use computer_service_system.WebServer.{Platform, Server, Request, Response}
use computer_service_system.WebServer.Session.{read_login}
use computer_service_system.WebServer.Service.{read_record}
use computer_service_system.WebServer.Answers.{code_of, written, refusal}
use computer_service_system.WebServer.Login.{IsAccount, reply}
use computer_service_system.WebServer.Stored.{told}
use computer_service_system.WebServer.Routes.{Endpoint, log_in, add_device, add_record}
use computer_service_system.WebServer.Counted.{counted_as, requests}

-- The status of a handler that has no `catch` block.
abbrev pub usual_status : Endpoint → ℕ
usual_status add_device = 403
usual_status _ = 200

module _ (p : Platform) where
  open p.fl use {Double}
  open p.js use {Value, dump}

  -- Counted once. The status is the code of the answer, if no exception left the handler.
  abbrev pub Once : String → String → ℕ → Option ℕ → List (String × String × ℕ) → Type 0
  Once method path status code counted =
      (counted ≡ (method, path, status) ∷ []) × ((code ≡ some status) ⊎ (code ≡ none))

  -- Counted once by the `catch` block, which answers with 400 if it can write its answer.
  abbrev pub Rejected : String → String → String → Option ℕ → List (String × String × ℕ) → Type 0
  Rejected method path what code counted =
      (counted ≡ (method, path, 400) ∷ []) × (code ≡ code_of (written p 400 (refusal p what)))

  -- Counted with a status before a reply was written. The reply is sent, with its code; or it cannot
  -- be written, and the `catch` block counts the request again, with 400.
  abbrev pub Caught :
      String → String → ℕ → ℕ → Value → Option ℕ → List (String × String × ℕ) → Type 0
  Caught method path status sent v code counted =
      ((body : String) × (dump v ≡ ok body)
        × (counted ≡ (method, path, status) ∷ [])
        × (code ≡ some sent))
      ⊎ ((what : String) × (dump v ≡ throws what)
          × (counted ≡ (method, path, status) ∷ (method, path, 400) ∷ [])
          × (code ≡ code_of (written p 400 (refusal p what))))

  -- A login is counted with 200 for an account, with 401 for another name and password, and with 400
  -- if it cannot be read.
  pub data LoginIsCounted (req : Request) (code : Option ℕ) (counted : List (String × String × ℕ))
      : Type 0 where
    as_account :
        (username password : String)
        → read_login p req.body ≡ ok (username, password)
        → IsAccount username password
        → Caught "POST" "/api/login" 200 200 (reply p username password) code counted
        → LoginIsCounted req code counted
    as_stranger :
        (username password : String)
        → read_login p req.body ≡ ok (username, password)
        → ¬ IsAccount username password
        → Caught "POST" "/api/login" 401 401 (reply p username password) code counted
        → LoginIsCounted req code counted
    as_malformed :
        (what : String)
        → read_login p req.body ≡ throws what
        → Rejected "POST" "/api/login" what code counted
        → LoginIsCounted req code counted

  -- A record is counted with 200 if the database answers true, with 400 if it answers false, and
  -- with 400 if it cannot be read. What was read is answered with 200 in either case.
  pub data RecordIsCounted (req : Request) (s : Server p) (code : Option ℕ)
      (counted : List (String × String × ℕ)) : Type 0 where
    as_answered :
        (r : ServiceRecord Double) (success : Bool)
        → read_record p req.body s ≡ (ok r, s)
        → (add_service_record p.db r s.database).0 ≡ ok success
        → Caught "POST" "/api/service-history"
            (if success then 200 else 400)
            200
            (told p success)
            code
            counted
        → RecordIsCounted req s code counted
    as_unreadable :
        (what : String)
        → read_record p req.body s ≡ (throws what, s)
        → Rejected "POST" "/api/service-history" what code counted
        → RecordIsCounted req s code counted

  -- What a handler counts, with the code of its answer; pages and scrapes are not counted.
  abbrev pub IsDue : Endpoint → Request → Server p → Option ℕ → List (String × String × ℕ) → Type 0
  IsDue log_in req s code counted = LoginIsCounted req code counted
  IsDue add_record req s code counted = RecordIsCounted req s code counted
  IsDue e req s code counted = elim (counted_as e) [
    | none ↦ counted ≡ []
    | some (method, path) ↦ Once method path (usual_status e) code counted
  ]

  -- The events that a handler reports, and the requests among them.
  pub record Logs (e : Endpoint) (req : Request) (s : Server p) (after : Result Response × Server p)
      : Type 0 where
    pub events : List (Event Double)
    pub reported : after.1.metrics ≡ run p.fl events s.metrics
    pub due : IsDue e req s (code_of after.0) (requests events)
