-- ===== src/Database/Write.antt =====
-- The methods of `Database` that change the tables: each is one statement in a transaction, and true
-- if nothing was thrown.
use computer_service_system.Common.{
  String, List, [], ◌∷◌, Bool, true, false, ℤ, if◌then◌else◌, str_eq,
}
use computer_service_system.Exec.{Exec, pure, ◌>>◌, try_catch}
use computer_service_system.Database.{
  Device, ServiceType, ServiceRecord, Param, text, int, double, null, Pqxx, transaction,
}

-- date.empty() ? nullptr : date.c_str()
abbrev pub date_param : {Double : Type 0} → String → Param Double
date_param date = if str_eq date "" then null else text date

-- A statement and its parameters.
pub record Statement (Double : Type 0) : Type 0 where
  pub sql : String
  pub params : List (Param Double)

module _ {Double : Type 0} where
  unfoldable pub add_device_statement : Device → Statement Double
  add_device_statement device = record {
    sql = "INSERT INTO Devices (name, model, purchase_date, status) VALUES ($1, $2, $3, $4)";
    params =
        text device.name
        ∷ text device.model
        ∷ date_param device.purchase_date
        ∷ text device.status
        ∷ [];
  }

  unfoldable pub update_device_statement : ℤ → Device → Statement Double
  update_device_statement id device = record {
    sql = "UPDATE Devices SET name=$1, model=$2, purchase_date=$3, status=$4 WHERE device_id=$5";
    params =
        text device.name
        ∷ text device.model
        ∷ date_param device.purchase_date
        ∷ text device.status
        ∷ int id
        ∷ [];
  }

  unfoldable pub delete_device_statement : ℤ → Statement Double
  delete_device_statement id = record {
    sql = "DELETE FROM Devices WHERE device_id=$1";
    params = int id ∷ [];
  }

  unfoldable pub add_service_type_statement : ServiceType Double → Statement Double
  add_service_type_statement type = record {
    sql =
        "INSERT INTO Service_Types (name, recommended_interval_months, standard_cost) VALUES ($1, $2, $3)";
    params = text type.name ∷ int type.recommended_interval_months ∷ double type.standard_cost ∷ [];
  }

  unfoldable pub update_service_type_statement : ℤ → ServiceType Double → Statement Double
  update_service_type_statement id type = record {
    sql =
        "UPDATE Service_Types SET name=$1, recommended_interval_months=$2, standard_cost=$3 WHERE service_id=$4";
    params =
        text type.name
        ∷ int type.recommended_interval_months
        ∷ double type.standard_cost
        ∷ int id
        ∷ [];
  }

  unfoldable pub delete_service_type_statement : ℤ → Statement Double
  delete_service_type_statement id = record {
    sql = "DELETE FROM Service_Types WHERE service_id=$1";
    params = int id ∷ [];
  }

  unfoldable pub add_service_record_statement : ServiceRecord Double → Statement Double
  add_service_record_statement r = record {
    sql =
        "INSERT INTO Service_History (device_id, service_id, service_date, cost, notes, next_due_date) VALUES ($1, $2, $3, $4, $5, $6)";
    params =
        int r.device_id
        ∷ int r.service_id
        ∷ text r.service_date
        ∷ double r.cost
        ∷ text r.notes
        ∷ date_param r.next_due_date
        ∷ [];
  }

  unfoldable pub update_service_record_statement : ℤ → ServiceRecord Double → Statement Double
  update_service_record_statement id r = record {
    sql =
        "UPDATE Service_History SET device_id=$1, service_id=$2, service_date=$3, cost=$4, notes=$5, next_due_date=$6 WHERE record_id=$7";
    params =
        int r.device_id
        ∷ int r.service_id
        ∷ text r.service_date
        ∷ double r.cost
        ∷ text r.notes
        ∷ date_param r.next_due_date
        ∷ int id
        ∷ [];
  }

  unfoldable pub delete_service_record_statement : ℤ → Statement Double
  delete_service_record_statement id = record {
    sql = "DELETE FROM Service_History WHERE record_id=$1";
    params = int id ∷ [];
  }

  module _ (db : Pqxx Double) where
    open db use {World, exec_params, commit}

    -- The body that the nine methods share.
    unfoldable pub run_statement : Statement Double → Exec World Bool
    run_statement s =
        try_catch (transaction db (do exec_params s.sql s.params; commit; pure true))
          (λ what. pure false)

    abbrev pub add_device : Device → Exec World Bool
    add_device device = run_statement (add_device_statement device)

    abbrev pub update_device : ℤ → Device → Exec World Bool
    update_device id device = run_statement (update_device_statement id device)

    abbrev pub delete_device : ℤ → Exec World Bool
    delete_device id = run_statement (delete_device_statement id)

    abbrev pub add_service_type : ServiceType Double → Exec World Bool
    add_service_type type = run_statement (add_service_type_statement type)

    abbrev pub update_service_type : ℤ → ServiceType Double → Exec World Bool
    update_service_type id type = run_statement (update_service_type_statement id type)

    abbrev pub delete_service_type : ℤ → Exec World Bool
    delete_service_type id = run_statement (delete_service_type_statement id)

    abbrev pub add_service_record : ServiceRecord Double → Exec World Bool
    add_service_record r = run_statement (add_service_record_statement r)

    abbrev pub update_service_record : ℤ → ServiceRecord Double → Exec World Bool
    update_service_record id r = run_statement (update_service_record_statement id r)

    abbrev pub delete_service_record : ℤ → Exec World Bool
    delete_service_record id = run_statement (delete_service_record_statement id)
