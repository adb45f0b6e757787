-- ===== src/Metrics/Registry/Schedule.antt =====
-- Threads that use the registry at once, with the locks of src/metrics.h as they are: `getCounter`
-- and `getHistogram` hold the mutex of the registry and let it go before they return a reference;
-- `increment` and `observe` hold the mutex of the one object. Between the two any other thread may
-- run.
pub mod There
pub mod Owed
pub mod Together
pub mod Finish
pub mod Alone
pub mod Tests
use computer_service_system.Common.{
  ℕ, ◌+◌, zero, suc, String, List, [], ◌∷◌, ◌++◌, Bool, true, false, Option, none, some, ◌≡◌,
  if◌then◌else◌, ℤ,
}
use computer_service_system.Std.Floating.{Floating}
use computer_service_system.Metrics.Labels.{Labels}
use computer_service_system.Metrics.Registry.{
  Registry, Ref, get_counter, get_histogram, increment_at, observe_at,
}
use computer_service_system.Metrics.Registry.Start.{
  initialize, http_labels, http_help, duration_help, duration_buckets, failures_help,
}
use computer_service_system.Metrics.Registry.Record.{db_labels, auth_labels, numbered_labels}
use computer_service_system.Metrics.Registry.History.{
  Event, initializes, http_request, db_operation, auth_attempt, device_operation, service_operation,
}

-- What the methods that record an event are made of: a counter that is fetched and incremented, a
-- histogram that is fetched and given a value, and `initialize`, which holds the mutex throughout.
pub data Action (Double : Type 0) : Type 0 where
  counts : String → String → Labels → Action Double
  observes : Double → Action Double
  sets_up : Action Double

unfoldable pub actions : {Double : Type 0} → Event Double → List (Action Double)
actions initializes = sets_up ∷ []
actions (http_request method path status seconds) =
    counts "http_requests_total" http_help (http_labels method path status) ∷ observes seconds ∷ []
actions (db_operation operation success) =
    counts "db_operations_total" "Total number of database operations" (db_labels operation success)
    ∷ []
actions (auth_attempt username success) =
    counts "auth_attempts_total" "Total number of authentication attempts"
      (auth_labels username success)
    ∷ (if success then [] else counts "auth_failures_total" failures_help [] ∷ [])
actions (device_operation operation device_id success) =
    counts "device_operations_total" "Total number of device operations"
      (numbered_labels "device_id" operation device_id success)
    ∷ []
actions (service_operation operation record_id success) =
    counts "service_operations_total" "Total number of service operations"
      (numbered_labels "record_id" operation record_id success)
    ∷ []

unfoldable pub all_actions : {Double : Type 0} → List (Event Double) → List (Action Double)
unfolding actions
all_actions [] = []
all_actions (e ∷ es) = actions e ++ all_actions es

-- A thread between two actions, or with a reference in its hand; and the actions that are left.
pub data Thread (Double : Type 0) : Type 0 where
  idle : List (Action Double) → Thread Double
  at_counter : Ref → List (Action Double) → Thread Double
  at_histogram : Ref → Double → List (Action Double) → Thread Double

module _ (fl : Floating) where
  open fl use {Double, thousandths}

  -- What a thread does while it holds a mutex once; none when it has nothing left to do.
  unfoldable pub advance :
      Thread Double → Registry Double → Option (Thread Double × Registry Double)
  advance (idle []) r = none
  advance (idle (counts name help labels ∷ rest)) r =
      let (ref, r') = get_counter fl name help labels r in some (at_counter ref rest, r')
  advance (idle (observes seconds ∷ rest)) r =
      let (ref, r') =
        get_histogram fl "http_request_duration_seconds" duration_help (duration_buckets fl) [] r in
      some (at_histogram ref seconds rest, r')
  advance (idle (sets_up ∷ rest)) r = some (idle rest, initialize fl r)
  advance (at_counter ref rest) r = some (idle rest, increment_at fl (thousandths 1000) ref r)
  advance (at_histogram ref seconds rest) r = some (idle rest, observe_at fl seconds ref r)

  -- One thread of several makes one move.
  pub data Turn
      : List (Thread Double)
        → Registry Double
        → List (Thread Double)
        → Registry Double
        → Type 0 where
    this :
        {t t' : Thread Double} {ts : List (Thread Double)} {r r' : Registry Double}
        → advance t r ≡ some (t', r')
        → Turn (t ∷ ts) r (t' ∷ ts) r'
    other :
        {t : Thread Double} {ts ts' : List (Thread Double)} {r r' : Registry Double}
        → Turn ts r ts' r'
        → Turn (t ∷ ts) r (t ∷ ts') r'

  -- So many turns, in whatever order the threads are scheduled.
  pub data Turns
      : ℕ
        → List (Thread Double)
        → Registry Double
        → List (Thread Double)
        → Registry Double
        → Type 0 where
    stop : {ts : List (Thread Double)} {r : Registry Double} → Turns zero ts r ts r
    go :
        {k : ℕ} {ts us vs : List (Thread Double)} {r r' r'' : Registry Double}
        → Turn ts r us r'
        → Turns k us r' vs r''
        → Turns (suc k) ts r vs r''
