-- ===== src/Database/Changes/Tests.antt =====
-- The theorems on sequences of changes, on the database that keeps its statements.
use computer_service_system.Common.{String, List, [], ◌∷◌, ◌≡◌, refl, pos, ℕ, All, inr}
use computer_service_system.Exec.{ok}
use computer_service_system.Database.{Pqxx}
use computer_service_system.Database.Changes.{
  Change, deletes_device, deletes_service_type, statement_of, perform_all,
}
use computer_service_system.Database.Changes.Refined.{
  Explains, Succeeded, perform_all-Explains, perform_all-IsUp,
}
use computer_service_system.Database.Write.{delete_device_statement, delete_service_type_statement}
use computer_service_system.Database.Atomic.{Transactional}
use computer_service_system.Database.Tests.{book, book_transactions, started}

abbrev changes : List (Change ℕ)
changes = deletes_device (pos 4) ∷ deletes_service_type (pos 2) ∷ []

perform_all-Explains_example :
    Explains book book_transactions changes started
      ("CREATE" ∷ [])
      (perform_all book changes started).1.committed
perform_all-Explains_example = perform_all-Explains book book_transactions changes started

-- The same database, if it is never down.
abbrev open_book : Pqxx ℕ
open_book = record book { begin = λ w. (ok tt, record w { pending = w.committed }) }

abbrev open_book_transactions : Transactional open_book
open_book_transactions = record {
  Tables = List String;
  committed = λ w. w.committed;
  pending = λ w. w.pending;
  execute = λ sql params tables. sql ∷ tables;
  begin-committed = λ w. refl;
  begin-pending = λ w begun. refl;
  exec-committed = λ sql w. refl;
  exec_params-committed = λ sql params w. refl;
  exec_params-pending = λ sql params w executed. refl;
  commit-committed = λ w finished. refl;
  commit_throws-committed = λ w what doubt. inr refl;
  abort-committed = λ w. refl;
}

perform_all-IsUp_example :
    All Succeeded (perform_all open_book changes started).0
    × ((perform_all open_book changes started).1.committed
        ≡ "DELETE FROM Service_Types WHERE service_id=$1" ∷ "DELETE FROM Devices WHERE device_id=$1"
          ∷ "CREATE" ∷ [])
unfolding statement_of delete_device_statement delete_service_type_statement
perform_all-IsUp_example =
    perform_all-IsUp open_book open_book_transactions
      (record { begins = λ w. refl; executes = λ sql ps w. refl; commits = λ w. refl }) changes
      started
