-- ===== src/Metrics/Registry/Schedule/Tests.antt =====
-- The theorems on schedules, at two threads that count in one counter.
use computer_service_system.Common.{ℕ, ◌≡◌, refl, List, [], ◌∷◌, true, arith, All}
use computer_service_system.Std.Floating.{milli}
use computer_service_system.Std.OrderedMap
use computer_service_system.Metrics.Registry.{Registry, empty}
use computer_service_system.Metrics.Registry.Record.{db_labels}
use computer_service_system.Metrics.Registry.Lookup.{value_at}
use computer_service_system.Metrics.Registry.History.{Event, db_operation}
use computer_service_system.Metrics.Registry.Schedule.{
  Thread, advance, this, other, Turns, stop, go, all_actions,
}
use computer_service_system.Metrics.Registry.Schedule.Finish.{IsFinished, reporters, Turns-counts}

abbrev two_threads : List (List (Event ℕ))
two_threads = (db_operation "logout" true ∷ []) ∷ (db_operation "logout" true ∷ []) ∷ []

-- Both fetch the counter before either increments it.
abbrev crossed :
    (ts : List (Thread ℕ)) × (r : Registry ℕ) × Turns milli 4 (reporters two_threads) empty ts r
    × All IsFinished ts
unfolding advance all_actions
crossed = (
  _,
  _,
  go (this refl) (go (other (this refl)) (go (this refl) (go (other (this refl)) stop))),
  (refl, (refl, tt)),
)

Turns-counts_example :
    value_at milli "db_operations_total" (db_labels "logout" true) crossed.1 ≡ 2000
unfolding db_labels OrderedMap.assign
Turns-counts_example =
    Turns-counts milli two_threads "db_operations_total" (db_labels "logout" true) crossed.2
      crossed.3 (omega arith)
