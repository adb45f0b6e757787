-- ===== src/Metrics/Registry/Document/Events.antt =====
-- Events whose texts hold no line feed.
use computer_service_system.Common.{List, [], ◌∷◌, Bool, true, ◌&&◌, ◌≡◌, arith, All}
use computer_service_system.Std.Lines.{one_line, one_line-Lacks}
use computer_service_system.Metrics.Registry.History.{
  Event, initializes, http_request, db_operation, auth_attempt, device_operation, service_operation,
}
use computer_service_system.Metrics.Registry.Document.Plain.{IsLine}

-- The texts that the client and the server give to an event hold no line feed.
abbrev pub PlainEvent : {Double : Type 0} → Event Double → Type 0
PlainEvent initializes = Unit
PlainEvent (http_request method path status seconds) = IsLine method × IsLine path
PlainEvent (db_operation operation success) = IsLine operation
PlainEvent (auth_attempt username success) = IsLine username
PlainEvent (device_operation operation device_id success) = IsLine operation
PlainEvent (service_operation operation record_id success) = IsLine operation

-- The same as a test, for the events whose texts the server writes out.
abbrev is_plain_event : {Double : Type 0} → Event Double → Bool
is_plain_event initializes = true
is_plain_event (http_request method path status seconds) = one_line method && one_line path
is_plain_event (db_operation operation success) = one_line operation
is_plain_event (auth_attempt username success) = one_line username
is_plain_event (device_operation operation device_id success) = one_line operation
is_plain_event (service_operation operation record_id success) = one_line operation

is_plain_event-PlainEvent :
    {Double : Type 0} (e : Event Double) → is_plain_event e ≡ true → PlainEvent e
is_plain_event-PlainEvent initializes h = tt
is_plain_event-PlainEvent (http_request method path status seconds) h =
    (one_line-Lacks method (ground arith), one_line-Lacks path (ground arith))
is_plain_event-PlainEvent (db_operation operation success) h = one_line-Lacks operation h
is_plain_event-PlainEvent (auth_attempt username success) h = one_line-Lacks username h
is_plain_event-PlainEvent (device_operation operation device_id success) h =
    one_line-Lacks operation h
is_plain_event-PlainEvent (service_operation operation record_id success) h =
    one_line-Lacks operation h

abbrev pub are_plain_events : {Double : Type 0} → List (Event Double) → Bool
are_plain_events [] = true
are_plain_events (e ∷ es) = is_plain_event e && are_plain_events es

pub are_plain_events-All :
    {Double : Type 0} (es : List (Event Double)) → are_plain_events es ≡ true → All PlainEvent es
are_plain_events-All [] h = tt
are_plain_events-All (e ∷ es) h =
    (is_plain_event-PlainEvent e (ground arith), are_plain_events-All es (ground arith))
