-- ===== src/Json.antt =====
-- nlohmann::json, as far as the program uses it.
pub mod Grammar
use computer_service_system.Common.{String, List, Bool, ℤ}
use computer_service_system.Exec.{Result}

pub record Json (Double : Type 0) : Type 1 where
  pub Value : Type 0
  -- json::parse, which throws at what is no JSON
  pub parse : String → Result Value
  -- value[key]: null for a key that is not there, and an exception at what is no object
  pub at : Value → String → Result Value
  -- value.get<T>(), which throws at a value of another type
  pub get_string : Value → Result String
  pub get_int : Value → Result ℤ
  pub get_double : Value → Result Double
  -- an object from its assignments, an array, and the values that a C++ value converts to
  pub object : List (String × Value) → Value
  pub array : List Value → Value
  pub str : String → Value
  pub int : ℤ → Value
  pub double : Double → Value
  pub bool : Bool → Value
  -- value.dump(), which throws at text that is not UTF-8
  pub dump : Value → Result String
