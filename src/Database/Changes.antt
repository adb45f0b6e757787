-- ===== src/Database/Changes.antt =====
-- Sequences of the methods of `Database` that change a table.
pub mod Refined
pub mod Tests
use computer_service_system.Common.{String, List, [], ◌∷◌, Bool, ℤ}
use computer_service_system.Exec.{Result, Exec}
use computer_service_system.Database.{Device, ServiceType, ServiceRecord, Pqxx}
use computer_service_system.Database.Write.{
  Statement, add_device_statement, update_device_statement, delete_device_statement,
  add_service_type_statement, update_service_type_statement, delete_service_type_statement,
  add_service_record_statement, update_service_record_statement, delete_service_record_statement,
  add_device, update_device, delete_device, add_service_type, update_service_type,
  delete_service_type, add_service_record, update_service_record, delete_service_record,
}

pub data Change (Double : Type 0) : Type 0 where
  adds_device : Device → Change Double
  updates_device : ℤ → Device → Change Double
  deletes_device : ℤ → Change Double
  adds_service_type : ServiceType Double → Change Double
  updates_service_type : ℤ → ServiceType Double → Change Double
  deletes_service_type : ℤ → Change Double
  adds_service_record : ServiceRecord Double → Change Double
  updates_service_record : ℤ → ServiceRecord Double → Change Double
  deletes_service_record : ℤ → Change Double

module _ {Double : Type 0} where
  unfoldable pub statement_of : Change Double → Statement Double
  statement_of (adds_device device) = add_device_statement device
  statement_of (updates_device id device) = update_device_statement id device
  statement_of (deletes_device id) = delete_device_statement id
  statement_of (adds_service_type type) = add_service_type_statement type
  statement_of (updates_service_type id type) = update_service_type_statement id type
  statement_of (deletes_service_type id) = delete_service_type_statement id
  statement_of (adds_service_record r) = add_service_record_statement r
  statement_of (updates_service_record id r) = update_service_record_statement id r
  statement_of (deletes_service_record id) = delete_service_record_statement id

  module _ (db : Pqxx Double) where
    open db use {World}

    unfoldable pub perform : Change Double → Exec World Bool
    perform (adds_device device) = add_device db device
    perform (updates_device id device) = update_device db id device
    perform (deletes_device id) = delete_device db id
    perform (adds_service_type type) = add_service_type db type
    perform (updates_service_type id type) = update_service_type db id type
    perform (deletes_service_type id) = delete_service_type db id
    perform (adds_service_record r) = add_service_record db r
    perform (updates_service_record id r) = update_service_record db id r
    perform (deletes_service_record id) = delete_service_record db id

    -- What each call of a sequence answered, and what the last one left.
    unfoldable pub perform_all :
        List (Change Double) → World → List (Statement Double × Result Bool) × World
    perform_all [] w = ([], w)
    perform_all (c ∷ cs) w =
        let (answer, w') = perform c w in
        let (answers, w'') = perform_all cs w' in ((statement_of c, answer) ∷ answers, w'')
