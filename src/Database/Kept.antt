-- ===== src/Database/Kept.antt =====
-- The methods of `Database` that read, and the committed tables.
use computer_service_system.Common.{String, List, ◌≡◌, sym, ◌∙◌, inl, inr, ◌⊎◌}
use computer_service_system.Exec.{Result, ok, throws, Result-cases, done-cases}
use computer_service_system.Database.{Pqxx, test_connection}
use computer_service_system.Database.Read.{read_rows, finish, read_result, query, fetch}
use computer_service_system.Database.Atomic.{Transactional}

module _ {Double : Type 0} (db : Pqxx Double) (t : Transactional db) where
  open db use {World, Row, begin, exec, commit, abort}
  open t use {committed, pending}

  -- After `begin` the open transaction sees the committed tables, and a query keeps it so.
  finish-committed :
      {A : Type 0} (items : List A × Result (Unit {0})) (w : World)
      → pending w ≡ committed w
      → committed (finish db items w).1 ≡ committed w
  unfolding finish
  finish-committed (items, throws what) w same = t.abort-committed w
  finish-committed (items, ok _) w same = elim (done-cases (commit w).0) [
    | inl finished ↦ rw finished (t.commit-committed w finished ∙ same)
    | inr (what, doubt) ↦
        rw doubt (t.abort-committed _ ∙ either (t.commit_throws-committed w what doubt))
  ]
    where
      either :
          (committed (commit w).1 ≡ committed w) ⊎ (committed (commit w).1 ≡ pending w)
          → committed (commit w).1 ≡ committed w
      either (inl kept) = kept
      either (inr moved) = moved ∙ same

  -- Given what PostgreSQL promises of a transaction, reading a table leaves the committed tables as
  -- they were, whichever call of the database throws and whichever row cannot be read, if a query
  -- by itself changes nothing that the transaction sees.
  pub fetch-committed :
      {A : Type 0} (sql : String) (decode : Row → Result A) (w : World)
      → ((w : World) → pending (exec sql w).1 ≡ pending w)
      → committed (fetch db sql decode w).1 ≡ committed w
  unfolding fetch query read_result
  fetch-committed sql decode w reads_only = elim (done-cases (begin w).0) [
    | inr (what, failed) ↦ rw failed (t.begin-committed w)
    | inl begun ↦ rw begun (elim (Result-cases (exec sql w1).0) [
      | inr (what, failed) ↦ rw failed (t.abort-committed w2 ∙ unchanged)
      | inl (rows, read) ↦
          rw read (finish-committed (read_rows decode rows) w2 (seen begun) ∙ unchanged)
    ])
  ]
    where
      w1 : World
      w1 = (begin w).1

      w2 : World
      w2 = (exec sql w1).1

      unchanged : committed w2 ≡ committed w
      unchanged = t.exec-committed sql w1 ∙ t.begin-committed w

      seen : (begin w).0 ≡ ok tt → pending w2 ≡ committed w2
      seen begun = reads_only w1 ∙ t.begin-pending w begun ∙ sym unchanged

  -- Testing the connection commits nothing.
  pub test_connection-committed : (w : World) → committed (test_connection db w).1 ≡ committed w
  unfolding test_connection
  test_connection-committed w = elim (done-cases (begin w).0) [
    | inr (what, failed) ↦ rw failed (t.begin-committed w)
    | inl begun ↦ rw begun (elim (Result-cases (exec "SELECT 1" (begin w).1).0) [
      | inl (rows, read) ↦
          rw read (t.abort-committed _ ∙ t.exec-committed _ _ ∙ t.begin-committed w)
      | inr (what, failed) ↦
          rw failed (t.abort-committed _ ∙ t.exec-committed _ _ ∙ t.begin-committed w)
    ])
  ]
