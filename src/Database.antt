-- ===== src/Database.antt =====
-- src/database.h and src/database.cpp: the records, and the methods of `Database` over libpqxx.
pub mod Read
pub mod Write
pub mod Atomic
pub mod Kept
pub mod Changes
pub mod Class
pub mod Tests
pub mod Rows
use computer_service_system.Common.{
  ℕ, String, List, [], ◌∷◌, Bool, true, false, Option, none, some, ℤ,
}
use computer_service_system.Exec.{Result, ok, throws, Exec, pure, lift, ◌>>=◌, ◌>>◌, try_catch}

pub record Device : Type 0 where
  pub id : ℤ
  pub name : String
  pub model : String
  pub purchase_date : String
  pub status : String

pub record ServiceType (Double : Type 0) : Type 0 where
  pub id : ℤ
  pub name : String
  pub recommended_interval_months : ℤ
  pub standard_cost : Double

pub record ServiceRecord (Double : Type 0) : Type 0 where
  pub id : ℤ
  pub device_id : ℤ
  pub service_id : ℤ
  pub service_date : String
  pub cost : Double
  pub notes : String
  pub next_due_date : String

-- A parameter of a statement; `null` is the null pointer that an empty date is passed as.
pub data Param (Double : Type 0) : Type 0 where
  text : String → Param Double
  int : ℤ → Param Double
  double : Double → Param Double
  null : Param Double

-- libpqxx and the server behind it. `World` is what they know; each call answers and moves it on.
pub record Pqxx (Double : Type 0) : Type 1 where
  pub World : Type 0
  pub Row : Type 0
  -- a connection was made, and connection::is_open
  pub connection : String → Exec World Unit
  pub is_open : World → Bool
  -- pqxx::work txn(*conn)
  pub begin : Exec World Unit
  -- txn.exec(sql)
  pub exec : String → Exec World (List Row)
  -- txn.exec_params(sql, params...)
  pub exec_params : String → List (Param Double) → Exec World Unit
  pub commit : Exec World Unit
  -- the destructor of a transaction that was begun and not committed
  pub abort : World → World
  -- row[i].as<T>(), which throws at null, and row[i].as<T>(value), which gives the value at null
  pub as_int : Row → ℕ → Result ℤ
  pub as_int_or : ℤ → Row → ℕ → Result ℤ
  pub as_double_or : Double → Row → ℕ → Result Double
  pub as_string : Row → ℕ → Result String
  pub as_string_or : String → Row → ℕ → Result String

module _ {Double : Type 0} (db : Pqxx Double) where
  open db use {World, Row, connection, is_open, begin, exec, exec_params, commit, abort}

  -- What leaves the block in which the transaction lives aborts it, if it was not committed.
  abbrev pub leaving : {A : Type 0} → Result A → World → Result A × World
  leaving (ok a) w = (ok a, w)
  leaving (throws what) w = (throws what, abort w)

  -- A block with a transaction of its own, whose `body` ends with `txn.commit()`. If the
  -- transaction cannot be begun there is nothing to abort.
  unfoldable pub transaction : {A : Type 0} → Exec World A → Exec World A
  transaction body = do begin; λ w. let (r, w') = body w in leaving r w'

  -- conn && conn->is_open(), for a connection that was made
  unfoldable pub connect : World → Bool
  connect w = is_open w

  -- The constructor keeps no connection if making it throws; the answer says whether it did.
  unfoldable pub open_database : String → World → Bool × World
  open_database conn_str w = elim (connection conn_str w).0 [
    | ok _ ↦ (true, (connection conn_str w).1)
    | throws what ↦ (false, (connection conn_str w).1)
  ]

  -- The transaction of a test is left to its destructor.
  unfoldable pub test_connection : Exec World Bool
  test_connection =
      try_catch
        (do
          begin
          λ w.
              let (r, w') = exec "SELECT 1" w in
              (elim r [ ok rows ↦ ok true | throws what ↦ throws what ], abort w'))
        (λ what. pure false)
