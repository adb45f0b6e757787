-- ===== src/WebServer/Shapes.antt =====
-- The shapes of the JSON that the API answers with.
pub mod Replies
pub mod Listings
pub mod Handlers
pub mod Tests
use computer_service_system.Common.{
  Bool, ℕ, String, List, [], ◌∷◌, All, ◌≡◌, ◌==◌, if◌then◌else◌, ℤ,
}
use computer_service_system.Exec.{ok}
use computer_service_system.Json.{Json}
use computer_service_system.WebServer.{Platform, Response, json_headers}
use computer_service_system.WebServer.Routes.{
  Endpoint, scrape, index, file, check_db, log_in, log_out, list_devices, add_device, list_types,
  list_history, add_record, list_records,
}

mutual
  pub data Shape : Type 0 where
    text whole number truth : Shape
    list_of : Shape → Shape
    fields : Fields → Shape

  -- The fields of an object, in their order.
  pub data Fields : Type 0 where
    end : Fields
    field : String → Shape → Fields → Fields

module _ {Double : Type 0} (js : Json Double) where
  open js use {Value}

  abbrev mutual
    pub HasShape : Shape → Value → Type 0
    HasShape text v = (s : String) × (v ≡ js.str s)
    HasShape whole v = (n : ℤ) × (v ≡ js.int n)
    HasShape number v = (d : Double) × (v ≡ js.double d)
    HasShape truth v = (b : Bool) × (v ≡ js.bool b)
    HasShape (list_of shape) v = (vs : List Value) × (v ≡ js.array vs) × All (HasShape shape) vs
    HasShape (fields fs) v = (m : List (String × Value)) × (v ≡ js.object m) × HasFields fs m

    pub HasFields : Fields → List (String × Value) → Type 0
    HasFields end [] = Unit
    HasFields (field key shape fs) ((key', v) ∷ m) =
        (key ≡ key') × HasShape shape v × HasFields fs m
    HasFields _ _ = ⊥

-- The shape of the answer of each handler of the API, by its code.
abbrev device_shape : Shape
device_shape = fields (
    field "id" whole (
      field "name" text
        (field "model" text (field "purchase_date" text (field "status" text end)))))

abbrev service_type_shape : Shape
service_type_shape = fields (
    field "id" whole (
      field "name" text
        (field "recommended_interval_months" whole (field "standard_cost" number end))))

abbrev pub history_shape : Shape
history_shape = fields (
    field "record_id" whole (
      field "device_name" text (
        field "model" text (
          field "service_name" text (
            field "service_date" text
              (field "cost" number (field "notes" text (field "next_due_date" text end))))))))

abbrev service_record_shape : Shape
service_record_shape = fields (
    field "id" whole (
      field "device_id" whole (
        field "service_id" whole (
          field "service_date" text
            (field "cost" number (field "notes" text (field "next_due_date" text end)))))))

abbrev error_shape : Shape
error_shape = fields (field "success" truth (field "error" text end))

abbrev pub shape_of : Endpoint → ℕ → Shape
shape_of check_db code = fields (field "database_connected" truth (field "timestamp" whole end))
shape_of log_in code =
    if code == 400
    then error_shape
    else fields (
        field "success" truth
          (field "message" text (field "username" text (field "token" text end))))
shape_of log_out code = fields (field "success" truth (field "message" text end))
shape_of list_devices code = list_of device_shape
shape_of add_device code = error_shape
shape_of list_types code = list_of service_type_shape
shape_of list_history code = list_of history_shape
shape_of add_record code = if code == 400 then error_shape else fields (field "success" truth end)
shape_of list_records code = list_of service_record_shape
shape_of _ code = text

-- The body of the response is a value of this shape, written out.
pub record HasReply (p : Platform) (e : Endpoint) (r : Response) : Type 0 where
  pub value : p.js.Value
  pub written : p.js.dump value ≡ ok r.body
  pub shaped : HasShape p.js (shape_of e r.code) value
  pub headed : r.headers ≡ json_headers
