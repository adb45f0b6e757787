-- ===== src/WebServer/Shapes/Listings.antt =====
-- The shapes of the listings.
use mathlib.Core.Path.{subst}
use computer_service_system.Common.{String, List, [], ◌∷◌, map, All, ◌≡◌, refl, inl, inr}
use computer_service_system.Exec.{Result, ok, throws, Exec, Result-cases, done-cases}
use computer_service_system.Database.{Device, ServiceType, ServiceRecord, Pqxx}
use computer_service_system.Database.Rows.{read_detailed, bind-Yields}
use computer_service_system.Database.Read.{read_rows, finish, read_result, query, fetch}
use computer_service_system.WebServer.{Platform, Server, Request, Response}
use computer_service_system.WebServer.Devices.{
  device_json, get_devices, service_type_json, get_service_types,
}
use computer_service_system.WebServer.Service.{
  get_service_history, get_service_records, service_record_json,
}
use computer_service_system.WebServer.Routes.{
  Endpoint, list_devices, list_types, list_history, list_records,
}
use computer_service_system.WebServer.Shapes.{HasShape, history_shape, shape_of, HasReply}
use computer_service_system.WebServer.Shapes.Replies.{ok_inj, Returns, json_response-HasReply}

All-map :
    {A B : Type 0} (P : B → Type 0) (f : A → B) (xs : List A)
    → ((x : A) → P (f x))
    → All P (map f xs)
All-map P f [] h = tt
All-map P f (x ∷ xs) h = (h x, All-map P f xs h)

-- What every row is read as, every item of a listing is.
read_rows-All :
    {A B : Type 0} (P : B → Type 0) (decode : A → Result B)
    → ((row : A) (item : B) → decode row ≡ ok item → P item)
    → (rows : List A) → All P (read_rows decode rows).0
unfolding read_rows
read_rows-All P decode h [] = tt
read_rows-All P decode h (row ∷ rows) = elim (Result-cases (decode row)) [
  | inl (item, e) ↦ rw (e, read_rows) (h row item e, read_rows-All P decode h rows)
  | inr (what, e) ↦ rw (e, read_rows) tt
]

finish-items :
    {Double A : Type 0} (db : Pqxx Double) (items : List A × Result (Unit {0})) (w : db.World)
    → (finish db items w).0 ≡ items.0
unfolding finish
finish-items db (items, throws what) w = refl
finish-items db (items, ok _) w = refl

fetch-All :
    {Double A : Type 0} (db : Pqxx Double) (P : A → Type 0) (sql : String)
    (decode : db.Row → Result A) (w : db.World)
    → ((row : db.Row) (item : A) → decode row ≡ ok item → P item)
    → All P (fetch db sql decode w).0
unfolding fetch query read_result
fetch-All db P sql decode w h = elim (done-cases (db.begin w).0) [
  | inr (what, failed) ↦ rw failed tt
  | inl begun ↦ rw begun (elim (Result-cases (db.exec sql (db.begin w).1).0) [
    | inr (what, failed) ↦ rw failed tt
    | inl (rows, read) ↦
        rw read (rw (finish-items db (read_rows decode rows) _) (read_rows-All P decode h rows))
  ])
]

module _ (p : Platform) where
  open p.js use {Value}

  device_json-HasShape :
      (items : List Device)
      → HasShape p.js (shape_of list_devices 200) (p.js.array (map (device_json p) items))
  unfolding device_json
  device_json-HasShape items = (
    map (device_json p) items,
    refl,
    All-map _ (device_json p) items (λ d. (
      _,
      refl,
      (
        refl,
        (d.id, refl),
        (
          refl,
          (d.name, refl),
          (refl, (d.model, refl), (refl, (d.purchase_date, refl), (refl, (d.status, refl), tt))),
        ),
      ),
    )),
  )

  service_type_json-HasShape :
      (items : List (ServiceType p.fl.Double))
      → HasShape p.js (shape_of list_types 200) (p.js.array (map (service_type_json p) items))
  unfolding service_type_json
  service_type_json-HasShape items = (
    map (service_type_json p) items,
    refl,
    All-map _ (service_type_json p) items (λ t. (
      _,
      refl,
      (
        refl,
        (t.id, refl),
        (
          refl,
          (t.name, refl),
          (refl, (t.recommended_interval_months, refl), (refl, (t.standard_cost, refl), tt)),
        ),
      ),
    )),
  )

  service_record_json-HasShape :
      (items : List (ServiceRecord p.fl.Double))
      → HasShape p.js (shape_of list_records 200) (p.js.array (map (service_record_json p) items))
  unfolding service_record_json
  service_record_json-HasShape items = (
    map (service_record_json p) items,
    refl,
    All-map _ (service_record_json p) items (λ r. (
      _,
      refl,
      (
        refl,
        (r.id, refl),
        (
          refl,
          (r.device_id, refl),
          (
            refl,
            (r.service_id, refl),
            (
              refl,
              (r.service_date, refl),
              (refl, (r.cost, refl), (refl, (r.notes, refl), (refl, (r.next_due_date, refl), tt))),
            ),
          ),
        ),
      ),
    )),
  )

  -- A handler of the API returns only what has its shape.
  abbrev pub HasReplies : Endpoint → Exec (Server p) Response → Type 0
  HasReplies e = Returns (HasReply p e)

  pub get_devices-HasReply : (req : Request) → HasReplies list_devices (get_devices p req)
  unfolding get_devices
  get_devices-HasReply req s r h =
      json_response-HasReply p list_devices 200 _ (device_json-HasShape _) _ r h

  pub get_service_types-HasReply : (req : Request) → HasReplies list_types (get_service_types p req)
  unfolding get_service_types
  get_service_types-HasReply req s r h =
      json_response-HasReply p list_types 200 _ (service_type_json-HasShape _) _ r h

  pub get_service_records-HasReply :
      (req : Request) → HasReplies list_records (get_service_records p req)
  unfolding get_service_records
  get_service_records-HasReply req s r h =
      json_response-HasReply p list_records 200 _ (service_record_json-HasShape _) _ r h

  read_detailed-HasShape :
      (row : p.db.Row) (item : Value)
      → read_detailed p.fl p.db p.js row ≡ ok item
      → HasShape p.js history_shape item
  unfolding read_detailed
  read_detailed-HasShape row =
      bind-Yields (HasShape p.js history_shape) (p.db.as_int row 0) _ (λ id.
        bind-Yields (HasShape p.js history_shape) (p.db.as_string row 1) _ (λ device.
          bind-Yields (HasShape p.js history_shape) (p.db.as_string_or "" row 2) _ (λ model.
            bind-Yields (HasShape p.js history_shape) (p.db.as_string row 3) _ (λ service.
              bind-Yields (HasShape p.js history_shape) (p.db.as_string row 4) _ (λ date.
                bind-Yields (HasShape p.js history_shape)
                  (p.db.as_double_or (p.fl.thousandths 0) row 5) _
                  (λ cost.
                    bind-Yields (HasShape p.js history_shape) (p.db.as_string_or "" row 6) _
                      (λ notes.
                        bind-Yields (HasShape p.js history_shape) (p.db.as_string_or "" row 7) _
                          (λ due. λ item read. subst (HasShape p.js history_shape) (ok_inj read) (
                            _,
                            refl,
                            (
                              refl,
                              (id, refl),
                              (
                                refl,
                                (device, refl),
                                (
                                  refl,
                                  (model, refl),
                                  (
                                    refl,
                                    (service, refl),
                                    (
                                      refl,
                                      (date, refl),
                                      (
                                        refl,
                                        (cost, refl),
                                        (refl, (notes, refl), (refl, (due, refl), tt)),
                                      ),
                                    ),
                                  ),
                                ),
                              ),
                            ),
                          )))))))))

  pub get_service_history-HasReply :
      (req : Request) → HasReplies list_history (get_service_history p req)
  unfolding get_service_history
  get_service_history-HasReply req s r h =
      json_response-HasReply p list_history 200 _
        (
          _,
          refl,
          fetch-All p.db _ _ (read_detailed p.fl p.db p.js) s.database read_detailed-HasShape,
        )
        _ r h
