-- ===== src/Database/Rows.antt =====
-- The bodies of the loops over a query's rows: how each row is read.
use computer_service_system.Common.{[], ◌∷◌, pos, ◌≡◌}
use computer_service_system.Exec.{Result, ok, throws}
use computer_service_system.Std.Floating.{Floating}
use computer_service_system.Json.{Json}
use computer_service_system.Database.{Device, ServiceType, ServiceRecord, Pqxx}

infixl 10 ◌>>=◌
abbrev ◌>>=◌ : {A B : Type 0} → Result A → (A → Result B) → Result B
ok a >>= f = f a
throws what >>= f = throws what

-- What holds of every item that is read.
abbrev pub Yields : {A : Type 0} → (A → Type 0) → Result A → Type 0
Yields {A} P r = (a : A) → r ≡ ok a → P a

pub bind-Yields :
    {A B : Type 0} (P : B → Type 0) (r : Result A) (f : A → Result B)
    → ((a : A) → Yields P (f a))
    → Yields P (r >>= f)
bind-Yields P (ok a) f rest b read = rest a b read
bind-Yields P (throws what) f rest b read = absurd (let never : ⊥ = cc in never)

module _ (fl : Floating) (db : Pqxx fl.Double) where
  open fl use {Double, thousandths}
  open db use {Row, as_int, as_int_or, as_double_or, as_string, as_string_or}

  unfoldable pub read_device : Row → Result Device
  read_device row = do
    id ← as_int row 0
    name ← as_string row 1
    model ← as_string_or "" row 2
    purchase_date ← as_string_or "" row 3
    status ← as_string_or "active" row 4
    ok (record {
      id = id;
      name = name;
      model = model;
      purchase_date = purchase_date;
      status = status;
    })

  unfoldable pub read_service_type : Row → Result (ServiceType Double)
  read_service_type row = do
    id ← as_int row 0
    name ← as_string row 1
    months ← as_int_or (pos 0) row 2
    cost ← as_double_or (thousandths 0) row 3
    ok (record { id = id; name = name; recommended_interval_months = months; standard_cost = cost })

  unfoldable pub read_service_record : Row → Result (ServiceRecord Double)
  read_service_record row = do
    id ← as_int row 0
    device_id ← as_int row 1
    service_id ← as_int row 2
    service_date ← as_string row 3
    cost ← as_double_or (thousandths 0) row 4
    notes ← as_string_or "" row 5
    next_due_date ← as_string_or "" row 6
    ok (record {
      id = id;
      device_id = device_id;
      service_id = service_id;
      service_date = service_date;
      cost = cost;
      notes = notes;
      next_due_date = next_due_date;
    })

  module _ (js : Json fl.Double) where
    open js use {Value, object, str, int, double}

    unfoldable pub read_detailed : Row → Result Value
    read_detailed row = do
      record_id ← as_int row 0
      device_name ← as_string row 1
      model ← as_string_or "" row 2
      service_name ← as_string row 3
      service_date ← as_string row 4
      cost ← as_double_or (thousandths 0) row 5
      notes ← as_string_or "" row 6
      next_due_date ← as_string_or "" row 7
      ok (
          object (
            ("record_id", int record_id)
            ∷ ("device_name", str device_name)
            ∷ ("model", str model)
            ∷ ("service_name", str service_name)
            ∷ ("service_date", str service_date)
            ∷ ("cost", double cost)
            ∷ ("notes", str notes)
            ∷ ("next_due_date", str next_due_date)
            ∷ []))
