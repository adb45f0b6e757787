-- ===== src/Database/Class.antt =====
-- The class `Database` of src/database.h as an interface, the methods of src/database.cpp as its
-- implementation, and what they promise of the tables.
pub mod Tests
use computer_service_system.Common.{String, List, Bool, true, ℤ, ◌≡◌, refl}
use computer_service_system.Exec.{Exec}
use computer_service_system.Json.{Json}
use computer_service_system.Std.Floating.{Floating}
use computer_service_system.Database.{Device, ServiceType, ServiceRecord, Pqxx}
use computer_service_system.Database
use computer_service_system.Database.Write
use computer_service_system.Database.Write.{
  Statement, add_device_statement, update_device_statement, delete_device_statement,
  add_service_type_statement, update_service_type_statement, delete_service_type_statement,
  add_service_record_statement, update_service_record_statement, delete_service_record_statement,
}
use computer_service_system.Database.Read
use computer_service_system.Database.Atomic.{Transactional, Atomic, run_statement-Atomic}
use computer_service_system.Database.Kept.{fetch-committed, test_connection-committed}
use computer_service_system.WebServer.Files.{begins}

pub record Methods (World Double Value : Type 0) : Type 0 where
  pub connect : World → Bool
  pub test_connection : Exec World Bool
  pub get_all_devices : World → List Device × World
  pub add_device : Device → Exec World Bool
  pub update_device : ℤ → Device → Exec World Bool
  pub delete_device : ℤ → Exec World Bool
  pub get_all_service_types : World → List (ServiceType Double) × World
  pub add_service_type : ServiceType Double → Exec World Bool
  pub update_service_type : ℤ → ServiceType Double → Exec World Bool
  pub delete_service_type : ℤ → Exec World Bool
  pub get_all_service_records : World → List (ServiceRecord Double) × World
  pub add_service_record : ServiceRecord Double → Exec World Bool
  pub update_service_record : ℤ → ServiceRecord Double → Exec World Bool
  pub delete_service_record : ℤ → Exec World Bool
  pub get_detailed_service_history : World → List Value × World

module _ (fl : Floating) (db : Pqxx fl.Double) (js : Json fl.Double) where
  open fl use {Double}
  open db use {World}

  unfoldable pub methods : Methods World Double js.Value
  methods = record {
    connect = Database.connect db;
    test_connection = Database.test_connection db;
    get_all_devices = Read.get_all_devices fl db;
    add_device = Write.add_device db;
    update_device = Write.update_device db;
    delete_device = Write.delete_device db;
    get_all_service_types = Read.get_all_service_types fl db;
    add_service_type = Write.add_service_type db;
    update_service_type = Write.update_service_type db;
    delete_service_type = Write.delete_service_type db;
    get_all_service_records = Read.get_all_service_records fl db;
    add_service_record = Write.add_service_record db;
    update_service_record = Write.update_service_record db;
    delete_service_record = Write.delete_service_record db;
    get_detailed_service_history = Read.get_detailed_service_history fl db js;
  }

  module _ (t : Transactional db) where
    abbrev pub Keeps : {A : Type 0} → (World → A × World) → Type 0
    Keeps f = (w : World) → t.committed (f w).1 ≡ t.committed w

    abbrev pub Executes : {A : Type 0} → (A → Statement Double) → (A → Exec World Bool) → Type 0
    Executes {A} statement f = (a : A) (w : World) → Atomic db t (statement a) w (f a w)

    -- The methods that read keep the committed tables; those that change a table execute the one
    -- statement that belongs to them, or not, and answer which.
    pub record IsLawful (m : Methods World Double js.Value) : Type 0 where
      pub test_connection : Keeps m.test_connection
      pub get_all_devices : Keeps m.get_all_devices
      pub get_all_service_types : Keeps m.get_all_service_types
      pub get_all_service_records : Keeps m.get_all_service_records
      pub get_detailed_service_history : Keeps m.get_detailed_service_history
      pub add_device : Executes add_device_statement m.add_device
      pub update_device : (id : ℤ) → Executes (update_device_statement id) (m.update_device id)
      pub delete_device : Executes delete_device_statement m.delete_device
      pub add_service_type : Executes add_service_type_statement m.add_service_type
      pub update_service_type :
          (id : ℤ) → Executes (update_service_type_statement id) (m.update_service_type id)
      pub delete_service_type : Executes delete_service_type_statement m.delete_service_type
      pub add_service_record : Executes add_service_record_statement m.add_service_record
      pub update_service_record :
          (id : ℤ) → Executes (update_service_record_statement id) (m.update_service_record id)
      pub delete_service_record : Executes delete_service_record_statement m.delete_service_record

    -- Given what PostgreSQL promises of a transaction, and if a SELECT changes nothing that its
    -- transaction sees: the five methods that read leave the committed tables as they were,
    -- whatever throws and whichever row cannot be read; and each of the nine that write executes
    -- the one statement that belongs to it and answers true, or answers false, only where one of
    -- the calls of the transaction threw, and has executed nothing or, only where it was the commit
    -- that threw, that statement.
    pub methods-IsLawful :
        ((sql : String) (w : World)
          → begins sql "SELECT " ≡ true
          → t.pending (db.exec sql w).1 ≡ t.pending w)
        → IsLawful methods
    unfolding methods begins
    methods-IsLawful reads_only = record {
      test_connection = test_connection-committed db t;
      get_all_devices = λ w. fetch-committed db t _ _ w (λ w. reads_only _ w refl);
      get_all_service_types = λ w. fetch-committed db t _ _ w (λ w. reads_only _ w refl);
      get_all_service_records = λ w. fetch-committed db t _ _ w (λ w. reads_only _ w refl);
      get_detailed_service_history = λ w. fetch-committed db t _ _ w (λ w. reads_only _ w refl);
      add_device = λ d w. run_statement-Atomic db t (add_device_statement d) w;
      update_device = λ id d w. run_statement-Atomic db t (update_device_statement id d) w;
      delete_device = λ id w. run_statement-Atomic db t (delete_device_statement id) w;
      add_service_type = λ s w. run_statement-Atomic db t (add_service_type_statement s) w;
      update_service_type =
          λ id s w. run_statement-Atomic db t (update_service_type_statement id s) w;
      delete_service_type = λ id w. run_statement-Atomic db t (delete_service_type_statement id) w;
      add_service_record = λ r w. run_statement-Atomic db t (add_service_record_statement r) w;
      update_service_record =
          λ id r w. run_statement-Atomic db t (update_service_record_statement id r) w;
      delete_service_record =
          λ id w. run_statement-Atomic db t (delete_service_record_statement id) w;
    }
