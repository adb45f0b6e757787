-- ===== src/Database/Read.antt =====
-- The methods of `Database` that read a table. An exception ends the reading, and what was read
-- before it is the answer.
use computer_service_system.Common.{String, List, [], ◌∷◌, ◌++◌, map, ◌≡◌, refl, ap, ◌∙◌}
use computer_service_system.Exec.{Result, ok, throws}
use computer_service_system.Std.Floating.{Floating}
use computer_service_system.Json.{Json}
use computer_service_system.Database.{Device, ServiceType, ServiceRecord, Pqxx}
use computer_service_system.Database.Rows.{
  read_device, read_service_type, read_service_record, read_detailed,
}

-- for (const auto& row : result) items.push_back(decode(row)): the items, and the exception, if any.
unfoldable pub read_rows : {A B : Type 0} → (A → Result B) → List A → List B × Result (Unit {0})
read_rows decode [] = ([], ok tt)
read_rows {B} decode (row ∷ rows) =
    let rest = read_rows decode rows in
    elim (decode row) [ ok item ↦ (item ∷ rest.0, rest.1) | throws what ↦ ([], throws what) ]

module _ {Double : Type 0} (db : Pqxx Double) where
  open db use {World, Row, begin, exec, commit, abort}

  -- The end of the `try` block and its handler, after the rows are read.
  unfoldable pub finish : {A : Type 0} → List A × Result (Unit {0}) → World → List A × World
  finish (items, throws what) w = (items, abort w)
  finish (items, ok _) w =
      let (r, w') = commit w in (items, elim r [ ok _ ↦ w' | throws what ↦ abort w' ])

  unfoldable pub read_result :
      {A : Type 0} → (Row → Result A) → Result (List Row) → World → List A × World
  unfolding finish
  read_result decode (throws what) w = ([], abort w)
  read_result decode (ok rows) w = finish (read_rows decode rows) w

  unfoldable pub query :
      {A : Type 0} → String → (Row → Result A) → Result (Unit {0}) → World → List A × World
  unfolding read_result
  query sql decode (throws what) w = ([], w)
  query sql decode (ok _) w = let (rows, w') = exec sql w in read_result decode rows w'

  -- The whole method.
  unfoldable pub fetch : {A : Type 0} → String → (Row → Result A) → World → List A × World
  unfolding query
  fetch sql decode w = let (r, w') = begin w in query sql decode r w'

module _ (fl : Floating) (db : Pqxx fl.Double) where
  open fl use {Double}
  open db use {World}

  abbrev pub get_all_devices : World → List Device × World
  get_all_devices =
      fetch db
        "SELECT device_id, name, model, purchase_date, status FROM Devices ORDER BY device_id"
        (read_device fl db)

  abbrev pub get_all_service_types : World → List (ServiceType Double) × World
  get_all_service_types =
      fetch db
        "SELECT service_id, name, recommended_interval_months, standard_cost FROM Service_Types ORDER BY service_id"
        (read_service_type fl db)

  abbrev pub get_all_service_records : World → List (ServiceRecord Double) × World
  get_all_service_records =
      fetch db
        "SELECT record_id, device_id, service_id, service_date, cost, notes, next_due_date FROM Service_History ORDER BY service_date DESC"
        (read_service_record fl db)

  abbrev pub get_detailed_service_history : (js : Json fl.Double) → World → List js.Value × World
  get_detailed_service_history js =
      fetch db
        "SELECT sh.record_id, d.name as device_name, d.model, st.name as service_name, sh.service_date, sh.cost, sh.notes, sh.next_due_date FROM Service_History sh JOIN Devices d ON sh.device_id = d.device_id JOIN Service_Types st ON sh.service_id = st.service_id ORDER BY sh.service_date DESC"
        (read_detailed fl db js)

-- The first of the rest that could not be read, if there is one.
abbrev pub Stops : {A B : Type 0} → (A → Result B) → List A → Type 0
Stops decode [] = Unit
Stops decode (row ∷ rows) = (what : String) × (decode row ≡ throws what)

-- The items that are read are those of the longest readable beginning of the rows.
pub read_rows-longest :
    {A B : Type 0} (decode : A → Result B) (rows : List A)
    → (done : List A) × (rest : List A) × (rows ≡ done ++ rest)
      × (map decode done ≡ map ok (read_rows decode rows).0)
      × Stops decode rest
unfolding read_rows
read_rows-longest decode [] = ([], [], refl, refl, tt)
read_rows-longest {A} {B} decode (row ∷ rows) =
    by_row (decode row) refl (read_rows-longest decode rows)
  where
    head :
        (item : B)
        → decode row ≡ ok item
        → item ∷ (read_rows decode rows).0 ≡ (read_rows decode (row ∷ rows)).0
    head item e = rw (e, read_rows)

    by_row :
        (r : Result B)
        → decode row ≡ r
        → (done : List A) × (rest : List A) × (rows ≡ done ++ rest)
          × (map decode done ≡ map ok (read_rows decode rows).0)
          × Stops decode rest
        → (done : List A) × (rest : List A) × (row ∷ rows ≡ done ++ rest)
          × (map decode done ≡ map ok (read_rows decode (row ∷ rows)).0)
          × Stops decode rest
    by_row (ok item) e (done, rest, split, same, stops) = (
      row ∷ done,
      rest,
      ap (λ l. row ∷ l) split,
      (λ i. e i ∷ same i) ∙ ap (map ok) (head item e),
      stops,
    )
    by_row (throws what) e later = ([], row ∷ rows, refl, rw (e, read_rows), (what, e))
