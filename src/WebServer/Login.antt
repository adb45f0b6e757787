-- ===== src/WebServer/Login.antt =====
-- The login: who is let in, and what is counted of each attempt.
use mathlib.Core.Path.{subst}
use text.Mathlib.TextEquality.{eq_iff}
use computer_service_system.Common.{
  ℕ, String, List, [], ◌∷◌, Bool, true, false, ◌≡◌, refl, sym, ap, ◌⊎◌, inl, inr, Bool-cases, ◌↔◌,
  arith, if◌then◌else◌,
}
use computer_service_system.Exec.{ok, throws, Result-cases}
use computer_service_system.Std.Text.{◌<<◌}
use computer_service_system.Metrics.Registry.History.{Event, http_request, auth_attempt, apply, run}
use computer_service_system.WebServer.{Platform, Server, Request, json_response}
use computer_service_system.WebServer.Session.{
  check_credentials, read_login, answer_login, reject_login, login,
}
use computer_service_system.WebServer.Answers.{
  Answers, Keeps, Dumps, Replies, Refuses, refusal, as_response,
}

-- The two accounts.
abbrev pub IsAccount : String → String → Type 0
IsAccount username password =
    ((username ≡ "admin") × (password ≡ "admin123"))
    ⊎ ((username ≡ "user") × (password ≡ "user123"))

-- The check lets in the two accounts, and nobody else.
check_credentials-IsAccount :
    (username password : String)
    → ((check_credentials username password).success ≡ true) ↔ IsAccount username password
unfolding check_credentials
check_credentials-IsAccount username password = ground (
  arith,
  eq_iff username "admin",
  eq_iff password "admin123",
  eq_iff username "user",
  eq_iff password "user123",
)

module _ (p : Platform) where
  abbrev pub attempt : String → Bool → ℕ → Request → List (Event p.fl.Double)
  attempt username success code req =
      auth_attempt username success
      ∷ http_request "POST" "/api/login" code (p.fl.of_ms req.duration_ms)
      ∷ []

  -- A body that cannot be read is answered with 400 and counted as a failure of "unknown" and as a
  -- request with status 400, and leaves the database as it was. It is supposed that every response
  -- can be written as JSON.
  pub login-malformed :
      (req : Request) (s : Server p) (what : String)
      → Dumps p
      → read_login p req.body ≡ throws what
      → Answers p 400 (attempt "unknown" false 400 req) s (login p req s)
        × Keeps p s (login p req s)
  unfolding login reject_login json_response run apply
  login-malformed req s what dumps unread = rw unread (rw (dumps _).1 ((refl, refl), refl))

  answer_login-success :
      (req : Request) (s : Server p) (username password : String)
      → Dumps p
      → (check_credentials username password).success ≡ true
      → (read_login p req.body ≡ ok (username, password))
      → Answers p 200 (attempt username true 200 req) s (login p req s) × Keeps p s (login p req s)
  unfolding login answer_login json_response run apply
  answer_login-success req s username password dumps success read =
      rw read (rw success (rw (dumps _).1 ((refl, refl), refl)))

  answer_login-failure :
      (req : Request) (s : Server p) (username password : String)
      → Dumps p
      → (check_credentials username password).success ≡ false
      → (read_login p req.body ≡ ok (username, password))
      → Answers p 401 (attempt username false 401 req) s (login p req s) × Keeps p s (login p req s)
  unfolding login answer_login json_response run apply
  answer_login-failure req s username password dumps failure read =
      rw read (rw failure (rw (dumps _).1 ((refl, refl), refl)))

  -- A name and a password that could be read are answered with 200 and counted once, as a success
  -- of that name, if they are those of an account; else they are answered with 401 and counted once
  -- as a failure of that name and once among all failures. The database is not touched. It is
  -- supposed that every response can be written as JSON.
  pub login-IsAccount :
      (req : Request) (s : Server p) (username password : String)
      → Dumps p
      → read_login p req.body ≡ ok (username, password)
      → ((IsAccount username password
            × Answers p 200 (attempt username true 200 req) s (login p req s))
          ⊎ (¬ IsAccount username password
              × Answers p 401 (attempt username false 401 req) s (login p req s)))
        × Keeps p s (login p req s)
  login-IsAccount req s username password dumps read =
      elim (Bool-cases (check_credentials username password).success) [
        | inl success ↦
            let (answers, keeps) =
              answer_login-success req s username password dumps success read in
            (inl ((check_credentials-IsAccount username password).0 success, answers), keeps)
        | inr failure ↦
            let (answers, keeps) =
              answer_login-failure req s username password dumps failure read in
            (
              inr (
                λ account. cc (failure, (check_credentials-IsAccount username password).1 account),
                answers,
              ),
              keeps,
            )
      ]

  -- The reply to a login that was read.
  abbrev pub reply : String → String → p.js.Value
  reply username password =
      let verdict = check_credentials username password in
      p.js.object (
        ("success", p.js.bool verdict.success)
        ∷ ("message", p.js.str verdict.message)
        ∷ ("username", p.js.str username)
        ∷ ("token", p.js.str (if verdict.success then "mock-jwt-token-" << username else ""))
        ∷ [])

  -- What a login comes to: an account is let in, another name and password are turned away, and a
  -- body that cannot be read is refused; with the answer, and what is counted.
  pub data Outcome (req : Request) (s : Server p) : Type 0 where
    let_in :
        (username password : String)
        → read_login p req.body ≡ ok (username, password)
        → IsAccount username password
        → Replies p 200
            (reply username password)
            (attempt username true 200 req)
            (attempt "unknown" false 400 req)
            s
            (login p req s)
        → Outcome req s
    turned_away :
        (username password : String)
        → read_login p req.body ≡ ok (username, password)
        → ¬ IsAccount username password
        → Replies p 401
            (reply username password)
            (attempt username false 401 req)
            (attempt "unknown" false 400 req)
            s
            (login p req s)
        → Outcome req s
    unreadable :
        (what : String)
        → read_login p req.body ≡ throws what
        → Refuses p what (attempt "unknown" false 400 req) s (login p req s)
        → Outcome req s

  -- The reply with a verdict is sent, or refused.
  abbrev Judges : String → String → Bool → Request → Server p → Type 0
  Judges username password success req s =
      let code : ℕ = if success then 200 else 401 in
      Replies p code (reply username password) (attempt username success code req)
        (attempt "unknown" false 400 req) s (login p req s)

  login-Refuses :
      (req : Request) (s : Server p) (what : String)
      → read_login p req.body ≡ throws what
      → Refuses p what (attempt "unknown" false 400 req) s (login p req s)
        × Keeps p s (login p req s)
  unfolding login reject_login json_response run apply
  login-Refuses req s what unread = rw unread (elim (Result-cases (p.js.dump (refusal p what))) [
    | inl (body, sent) ↦ rw sent ((refl, refl), refl)
    | inr (lost, unsent) ↦ rw unsent ((refl, refl), refl)
  ])

  -- A body that was read, with the verdict on the two.
  login-Replies :
      (req : Request) (s : Server p) (username password : String)
      → read_login p req.body ≡ ok (username, password)
      → let success : Bool = (check_credentials username password).success in
        Judges username password success req s × Keeps p s (login p req s)
  unfolding login answer_login reject_login json_response run apply
  login-Replies req s username password read =
      rw read (elim (Result-cases (p.js.dump (reply username password))) [
        | inl (body, sent) ↦ rw sent (inl (body, refl, refl, refl), refl)
        | inr (what, unsent) ↦ rw unsent (elim (Result-cases (p.js.dump (refusal p what))) [
          | inl (body, sent) ↦
              rw sent (inr (what, refl, (sym (ap (as_response 400) sent), refl)), refl)
          | inr (lost, unsent') ↦
              rw unsent' (inr (what, refl, (sym (ap (as_response 400) unsent'), refl)), refl)
        ])
      ])

  -- A login has one of three outcomes. A name and a password that are read and are those of an
  -- account get the reply of a success with code 200, and are counted once, as a success of that
  -- name; others that are read get the reply of a failure with code 401, and are counted once as a
  -- failure of that name and once among all failures; a body that cannot be read is refused with
  -- 400 and counted as a failure of "unknown". Each is counted as one request with its code. A
  -- reply that cannot be written as JSON is refused too, and counted besides as a body that cannot
  -- be read is; and where the text of the refusal cannot be written, the exception of writing it
  -- leaves the handler. The database is not touched.
  pub login-Outcome : (req : Request) (s : Server p) → Outcome req s × Keeps p s (login p req s)
  login-Outcome req s = elim (Result-cases (read_login p req.body)) [
    | inl ((username, password), read) ↦
        let (replies, keeps) = login-Replies req s username password read in
        let judges : (b : Bool)
            → (check_credentials username password).success ≡ b
            → Judges username password b req s =
          λ b verdict. subst (λ b'. Judges username password b' req s) verdict replies in
        elim (Bool-cases (check_credentials username password).success) [
          | inl success ↦ (
            let_in username password read
                ((check_credentials-IsAccount username password).0 success) (judges true success),
            keeps,
          )
          | inr failure ↦ (
            turned_away username password read
                (λ account. cc (failure, (check_credentials-IsAccount username password).1 account))
                (judges false failure),
            keeps,
          )
        ]
    | inr (what, unread) ↦
        let (refuses, keeps) = login-Refuses req s what unread in
        (unreadable what unread refuses, keeps)
  ]
