-- ===== src/Metrics/Objects.antt =====
-- Objects of src/metrics.h in memory: what their copy and move operations are performed on. Two
-- operands of an assignment may be one object.
pub mod Counters
pub mod Histograms
pub mod Consistent
pub mod Locks
pub mod Tests
use computer_service_system.Common.{ℕ, String, List, if◌then◌else◌, ◌==◌}
use computer_service_system.Metrics.Labels.{Labels}

-- What each address holds.
abbrev pub Store {ℓ} : Type ℓ → Type ℓ
Store A = ℕ → A

-- The object at `i` is replaced.
abbrev pub put {ℓ} : {A : Type ℓ} → ℕ → A → Store A → Store A
put i a s = λ j. if j == i then a else s j

-- What `std::move` leaves in a member that was moved out of: "valid but unspecified" in the standard.
pub record Leftover (Double : Type 0) : Type 0 where
  pub string : String → String
  pub labels : Labels → Labels
  pub doubles : List Double → List Double
