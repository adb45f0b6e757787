-- ===== src/Metrics/Registry/Schedule/Alone.antt =====
-- The two translations of the methods that record, turn by turn and as a whole, agree.
use computer_service_system.Common.{[], ◌∷◌, true, false, refl}
use computer_service_system.Std.Floating.{Floating}
use computer_service_system.Metrics.Registry.{Registry}
use computer_service_system.Metrics.Registry.Record.{
  count, observe_duration, record_http_request, record_db_operation, record_auth_attempt,
  record_device_operation, record_service_operation,
}
use computer_service_system.Metrics.Registry.History.{
  Event, initializes, http_request, db_operation, auth_attempt, device_operation, service_operation,
  apply,
}
use computer_service_system.Metrics.Registry.Schedule.{
  idle, advance, this, Turns, stop, go, actions,
}
use computer_service_system.Metrics.Registry.Schedule.Owed.{moves}

module _ (fl : Floating) where
  open fl use {Double}

  -- A thread that takes its turns with no other in between does, step by step, what the method that
  -- records the event does.
  actions-apply :
      (e : Event Double) (r : Registry Double)
      → Turns fl (moves (actions e)) (idle (actions e) ∷ []) r (idle [] ∷ []) (apply fl e r)
  unfolding actions advance apply count observe_duration record_http_request record_db_operation
      record_auth_attempt record_device_operation record_service_operation
  actions-apply initializes r = go (this refl) stop
  actions-apply (http_request method path status seconds) r =
      go (this refl) (go (this refl) (go (this refl) (go (this refl) stop)))
  actions-apply (db_operation operation success) r = go (this refl) (go (this refl) stop)
  actions-apply (auth_attempt username true) r = go (this refl) (go (this refl) stop)
  actions-apply (auth_attempt username false) r =
      go (this refl) (go (this refl) (go (this refl) (go (this refl) stop)))
  actions-apply (device_operation operation device_id success) r =
      go (this refl) (go (this refl) stop)
  actions-apply (service_operation operation record_id success) r =
      go (this refl) (go (this refl) stop)
