-- ===== src/Database/Tests.antt =====
-- The theorems on the database, on a database that keeps the statements it was given.
use computer_service_system.Common.{
  ℕ, String, ◌≡◌, refl, List, [], ◌∷◌, ◌++◌, map, Bool, true, false, if◌then◌else◌, inr, pos,
}
use computer_service_system.Exec.{Result, ok, throws}
use computer_service_system.Database.{Pqxx}
use computer_service_system.Database.Read.{read_rows, Stops, read_rows-longest}
use computer_service_system.Database.Write.{run_statement, delete_device_statement}
use computer_service_system.Database.Atomic.{Transactional, Atomic, run_statement-Atomic}

-- Whether the server is up, the statements of the committed transactions, and those that the open
-- transaction sees.
pub record Book : Type 0 where
  pub is_up : Bool
  pub committed : List String
  pub pending : List String

abbrev pub book : Pqxx ℕ
book = record {
  World = Book;
  Row = List String;
  connection = λ conn_str w. if w.is_up then (ok tt, w) else (throws "refused", w);
  is_open = λ w. w.is_up;
  begin =
      λ w. if w.is_up then (ok tt, record w { pending = w.committed }) else (throws "broken", w);
  exec = λ sql w. (ok ((sql ∷ []) ∷ []), w);
  exec_params = λ sql params w. (ok tt, record w { pending = sql ∷ w.pending });
  commit = λ w. (ok tt, record w { committed = w.pending });
  abort = λ w. w;
  as_int = λ row i. throws "not a number";
  as_int_or = λ value row i. ok value;
  as_double_or = λ value row i. ok value;
  as_string = λ row i. elim row [ [] ↦ throws "null" | text ∷ _ ↦ ok text ];
  as_string_or = λ value row i. ok value;
}

pub begin_keeps :
    (b : Bool) (c q : List String)
    → ((book.begin (record { is_up = b; committed = c; pending = q })).1.committed ≡ c)
begin_keeps true c q = refl
begin_keeps false c q = refl

pub begin_sees :
    (b : Bool) (c q : List String)
    → (book.begin (record { is_up = b; committed = c; pending = q })).0 ≡ ok tt
    → ((book.begin (record { is_up = b; committed = c; pending = q })).1.pending ≡ c)
begin_sees true c q begun = refl
begin_sees false c q begun = cc

abbrev pub book_transactions : Transactional book
book_transactions = record {
  Tables = List String;
  committed = λ w. w.committed;
  pending = λ w. w.pending;
  execute = λ sql params tables. sql ∷ tables;
  begin-committed = λ w. begin_keeps w.is_up w.committed w.pending;
  begin-pending = λ w begun. begin_sees w.is_up w.committed w.pending begun;
  exec-committed = λ sql w. refl;
  exec_params-committed = λ sql params w. refl;
  exec_params-pending = λ sql params w executed. refl;
  commit-committed = λ w finished. refl;
  commit_throws-committed = λ w what doubt. inr refl;
  abort-committed = λ w. refl;
}

abbrev pub started : Book
started = record { is_up = true; committed = "CREATE" ∷ []; pending = [] }

run_statement-Atomic_example :
    Atomic book book_transactions
      (delete_device_statement (pos 4))
      started
      (run_statement book (delete_device_statement (pos 4)) started)
run_statement-Atomic_example =
    run_statement-Atomic book book_transactions (delete_device_statement (pos 4)) started

abbrev rows : List (List String)
rows = ("1" ∷ []) ∷ [] ∷ ("3" ∷ []) ∷ []

abbrev decode : List String → Result String
decode row = book.as_string row 0

read_rows-longest_example :
    (done : List (List String)) × (rest : List (List String)) × (rows ≡ done ++ rest)
    × (map decode done ≡ map ok (read_rows decode rows).0)
    × Stops decode rest
read_rows-longest_example = read_rows-longest decode rows
