-- ===== src/Database/Atomic.antt =====
-- What the methods of `Database` do to the committed tables, given what PostgreSQL and libpqxx
-- promise of a transaction.
use computer_service_system.Common.{
  String, List, Bool, true, false, ◌≡◌, refl, ap, ◌∙◌, ◌⊎◌, inl, inr,
}
use computer_service_system.Exec.{Result, ok, throws, done-cases}
use computer_service_system.Database.{Param, Pqxx, transaction}
use computer_service_system.Database.Write.{Statement, run_statement}

-- The tables as the last commit left them, and as the open transaction sees them.
pub record Transactional {Double : Type 0} (db : Pqxx Double) : Type 1 where
  pub Tables : Type 0
  pub committed : db.World → Tables
  pub pending : db.World → Tables
  pub execute : String → List (Param Double) → Tables → Tables
  pub begin-committed : (w : db.World) → committed (db.begin w).1 ≡ committed w
  pub begin-pending : (w : db.World) → (db.begin w).0 ≡ ok tt → pending (db.begin w).1 ≡ committed w
  pub exec-committed : (sql : String) (w : db.World) → committed (db.exec sql w).1 ≡ committed w
  pub exec_params-committed :
      (sql : String) (ps : List (Param Double)) (w : db.World)
      → committed (db.exec_params sql ps w).1 ≡ committed w
  pub exec_params-pending :
      (sql : String) (ps : List (Param Double)) (w : db.World)
      → (db.exec_params sql ps w).0 ≡ ok tt
      → pending (db.exec_params sql ps w).1 ≡ execute sql ps (pending w)
  pub commit-committed :
      (w : db.World) → (db.commit w).0 ≡ ok tt → committed (db.commit w).1 ≡ pending w
  -- A commit that throws may be in doubt.
  pub commit_throws-committed :
      (w : db.World) (what : String)
      → (db.commit w).0 ≡ throws what
      → (committed (db.commit w).1 ≡ committed w) ⊎ (committed (db.commit w).1 ≡ pending w)
  pub abort-committed : (w : db.World) → committed (db.abort w) ≡ committed w

module _ {Double : Type 0} (db : Pqxx Double) where
  open db use {World, begin, exec_params, commit}

  -- The transaction was begun, the statement executed in it, and then the commit threw.
  pub record InDoubt (s : Statement Double) (w : World) : Type 0 where
    pub what : String
    pub begun : (begin w).0 ≡ ok tt
    pub executed : (exec_params s.sql s.params (begin w).1).0 ≡ ok tt
    pub doubt : (commit (exec_params s.sql s.params (begin w).1).1).0 ≡ throws what

  -- Which of the three calls of a transaction threw.
  pub data Refused (s : Statement Double) (w : World) : Type 0 where
    not_begun : (what : String) → (begin w).0 ≡ throws what → Refused s w
    not_executed :
        (what : String)
        → (begin w).0 ≡ ok tt
        → (exec_params s.sql s.params (begin w).1).0 ≡ throws what
        → Refused s w
    not_committed : InDoubt s w → Refused s w

module _ {Double : Type 0} (db : Pqxx Double) (t : Transactional db) where
  open db use {World, begin, exec_params, commit, abort}
  open t use {Tables, committed, pending, execute}

  -- The answer of a method, and the tables that it leaves, by the answer: false is answered only
  -- where a call threw, and then the statement is executed only if the call was the commit.
  abbrev pub Atomic : Statement Double → World → Result Bool × World → Type 0
  Atomic s w (r, w') =
      ((r ≡ ok true) × (committed w' ≡ execute s.sql s.params (committed w)))
      ⊎ ((r ≡ ok false)
          × Refused db s w
          × ((committed w' ≡ committed w)
              ⊎ (InDoubt db s w × (committed w' ≡ execute s.sql s.params (committed w)))))

  -- Given what PostgreSQL promises of a transaction, each of the nine writing methods answers and
  -- never throws. If it answers true, the committed tables are those of before with the statement
  -- executed. It answers false only where beginning the transaction, executing the statement or the
  -- commit threw; then the tables are unchanged, or the statement is executed, and this only where
  -- it was the commit that threw.
  pub run_statement-Atomic : (s : Statement Double) (w : World) → Atomic s w (run_statement db s w)
  unfolding run_statement transaction
  run_statement-Atomic s w = elim (done-cases (begin w).0) [
    | inr (what, failed) ↦ rw failed (inr (refl, not_begun what failed, inl (t.begin-committed w)))
    | inl begun ↦ rw begun (elim (done-cases (exec_params s.sql s.params w1).0) [
      | inr (what, failed) ↦ rw failed (
          inr (
            refl,
            not_executed what begun failed,
            inl (
                t.abort-committed w2
                ∙ t.exec_params-committed s.sql s.params w1
                ∙ t.begin-committed w),
          ))
      | inl executed ↦ rw executed (elim (done-cases (commit w2).0) [
        | inl finished ↦
            rw finished (inl (refl, t.commit-committed w2 finished ∙ pending_tables begun executed))
        | inr (what, doubt) ↦ rw doubt (
            inr (
              refl,
              not_committed (doubtful begun executed what doubt),
              in_doubt begun executed what doubt,
            ))
      ])
    ])
  ]
    where
      w1 : World
      w1 = (begin w).1

      w2 : World
      w2 = (exec_params s.sql s.params w1).1

      doubtful :
          (begin w).0 ≡ ok tt
          → (exec_params s.sql s.params w1).0 ≡ ok tt
          → (what : String) → (commit w2).0 ≡ throws what
          → InDoubt db s w
      doubtful begun executed what doubt = record {
        what = what;
        begun = begun;
        executed = executed;
        doubt = doubt;
      }

      pending_tables :
          (begin w).0 ≡ ok tt
          → (exec_params s.sql s.params w1).0 ≡ ok tt
          → pending w2 ≡ execute s.sql s.params (committed w)
      pending_tables begun executed =
          t.exec_params-pending s.sql s.params w1 executed
          ∙ ap (execute s.sql s.params) (t.begin-pending w begun)

      in_doubt :
          (begin w).0 ≡ ok tt
          → (exec_params s.sql s.params w1).0 ≡ ok tt
          → (what : String) → (commit w2).0 ≡ throws what
          → (committed (abort (commit w2).1) ≡ committed w)
            ⊎ (InDoubt db s w
                × (committed (abort (commit w2).1) ≡ execute s.sql s.params (committed w)))
      in_doubt begun executed what doubt = elim (t.commit_throws-committed w2 what doubt) [
        | inl kept ↦ inl (
            t.abort-committed _
            ∙ kept
            ∙ t.exec_params-committed s.sql s.params w1
            ∙ t.begin-committed w)
        | inr moved ↦ inr (
          doubtful begun executed what doubt,
          t.abort-committed _ ∙ moved ∙ pending_tables begun executed,
        )
      ]
