-- ===== src/Database/Changes/Refined.antt =====
-- What a sequence of calls means for the tables.
use computer_service_system.Common.{
  String, List, [], ◌∷◌, Bool, true, false, ◌≡◌, refl, ap, ◌∙◌, inl, inr, All,
}
use computer_service_system.Exec.{Result, ok}
use computer_service_system.Database.{Param, Pqxx, transaction}
use computer_service_system.Database.Write.{Statement, run_statement}
use computer_service_system.Database.Atomic.{
  Transactional, Atomic, InDoubt, Refused, run_statement-Atomic,
}
use computer_service_system.Database.Changes.{
  Change, adds_device, updates_device, deletes_device, adds_service_type, updates_service_type,
  deletes_service_type, adds_service_record, updates_service_record, deletes_service_record,
  statement_of, perform, perform_all,
}

-- The answer to a statement was true.
abbrev pub Succeeded : {Double : Type 0} → Statement Double × Result Bool → Type 0
Succeeded (s, answer) = answer ≡ ok true

module _ {Double : Type 0} (db : Pqxx Double) (t : Transactional db) where
  open db use {World, begin, exec_params, commit}
  open t use {Tables, committed, execute}

  -- The specification, from the first tables to the last, where `w` is what libpqxx and the server
  -- know when the first call is made: a statement that was answered with true was executed, in its
  -- turn and once; one that was answered with false was refused, and left out or, if its commit was
  -- in doubt, executed.
  pub data Explains : List (Change Double) → World → Tables → Tables → Type 0 where
    done : {w : World} {tables : Tables} → Explains [] w tables tables
    executed :
        {c : Change Double} {cs : List (Change Double)} {w : World} {before after : Tables}
        → (perform db c w).0 ≡ ok true
        → Explains cs
            (perform db c w).1
            (execute (statement_of c).sql (statement_of c).params before)
            after
        → Explains (c ∷ cs) w before after
    left_out :
        {c : Change Double} {cs : List (Change Double)} {w : World} {before after : Tables}
        → (perform db c w).0 ≡ ok false
        → Refused db (statement_of c) w
        → Explains cs (perform db c w).1 before after
        → Explains (c ∷ cs) w before after
    doubtful :
        {c : Change Double} {cs : List (Change Double)} {w : World} {before after : Tables}
        → (perform db c w).0 ≡ ok false
        → InDoubt db (statement_of c) w
        → Explains cs
            (perform db c w).1
            (execute (statement_of c).sql (statement_of c).params before)
            after
        → Explains (c ∷ cs) w before after

  -- Each method is the one body with its own statement.
  perform-run_statement :
      (c : Change Double) (w : World) → perform db c w ≡ run_statement db (statement_of c) w
  unfolding perform statement_of
  perform-run_statement (adds_device device) w = refl
  perform-run_statement (updates_device id device) w = refl
  perform-run_statement (deletes_device id) w = refl
  perform-run_statement (adds_service_type type) w = refl
  perform-run_statement (updates_service_type id type) w = refl
  perform-run_statement (deletes_service_type id) w = refl
  perform-run_statement (adds_service_record r) w = refl
  perform-run_statement (updates_service_record id r) w = refl
  perform-run_statement (deletes_service_record id) w = refl

  perform-Atomic : (c : Change Double) (w : World) → Atomic db t (statement_of c) w (perform db c w)
  perform-Atomic c w = rw (perform-run_statement c w) (run_statement-Atomic db t (statement_of c) w)

  -- Given what PostgreSQL promises of a transaction, any sequence of calls of the nine writing
  -- methods leaves the tables as its answers say: the statement of each call that answered true is
  -- executed, in its turn and once; each call that answered false had one of the calls of its
  -- transaction throw, and its statement is left out or, only where it was the commit that threw,
  -- executed.
  pub perform_all-Explains :
      (cs : List (Change Double)) (w : World)
      → Explains cs w (committed w) (committed (perform_all db cs w).1)
  unfolding perform_all
  perform_all-Explains [] w = done
  perform_all-Explains (c ∷ cs) w =
      let rest = perform_all-Explains cs (perform db c w).1 in
      elim (perform-Atomic c w) [
        | inl (answer, stored) ↦ executed answer (rw stored at rest)
        | inr (answer, refused, inl kept) ↦ left_out answer refused (rw kept at rest)
        | inr (answer, refused, inr (doubt, stored)) ↦ doubtful answer doubt (rw stored at rest)
      ]

  -- A database that refuses nothing.
  pub record IsUp : Type 0 where
    pub begins : (w : World) → (begin w).0 ≡ ok tt
    pub executes :
        (sql : String) (ps : List (Param Double)) (w : World) → (exec_params sql ps w).0 ≡ ok tt
    pub commits : (w : World) → (commit w).0 ≡ ok tt

  run_statement-IsUp :
      (up : IsUp) (s : Statement Double) (w : World) → (run_statement db s w).0 ≡ ok true
  unfolding run_statement transaction
  run_statement-IsUp up s w =
      let w1 = (begin w).1 in
      let w2 = (exec_params s.sql s.params w1).1 in
      rw (up.begins w) (rw (up.executes s.sql s.params w1) (rw (up.commits w2)))

  -- The tables after all statements of a sequence.
  abbrev pub execute_all : List (Change Double) → Tables → Tables
  execute_all [] tables = tables
  execute_all (c ∷ cs) tables =
      execute_all cs (execute (statement_of c).sql (statement_of c).params tables)

  -- Given what PostgreSQL promises of a transaction, if it refuses no call, each call of any
  -- sequence of the nine writing methods answers true, and the committed tables are those of before
  -- with all the statements executed in their order.
  pub perform_all-IsUp :
      IsUp
      → (cs : List (Change Double)) (w : World)
      → All Succeeded (perform_all db cs w).0
        × (committed (perform_all db cs w).1 ≡ execute_all cs (committed w))
  unfolding perform_all
  perform_all-IsUp up [] w = (tt, refl)
  perform_all-IsUp up (c ∷ cs) w =
      let answer : (perform db c w).0 ≡ ok true =
        ap (λ o. o.0) (perform-run_statement c w) ∙ run_statement-IsUp up (statement_of c) w in
      let (rest, tables) = perform_all-IsUp up cs (perform db c w).1 in
      elim (perform-Atomic c w) [
        | inl (agreed, stored) ↦ ((answer, rest), tables ∙ ap (execute_all cs) stored)
        | inr (refused, why, kept) ↦ absurd (cc (answer, refused))
      ]
