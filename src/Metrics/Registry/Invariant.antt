-- ===== src/Metrics/Registry/Invariant.antt =====
-- Counters whose own name and labels are the keys under which they are stored.
use computer_service_system.Common.{
  String, ◌≡◌, refl, List, [], ◌∷◌, Bool, true, false, if◌then◌else◌, inl, inr, Bool-cases, Option,
  none, some,
}
use computer_service_system.Std.Ord.{string_ord, pair_ord, list_ord}
use computer_service_system.Std.Floating.{Floating}
use computer_service_system.Std.HashMap
use computer_service_system.Std.HashMap.{get_or}
use computer_service_system.Std.Nested
use computer_service_system.Std.Nested.{same_place, same_place_iff, nested_find-emplace}
use computer_service_system.Metrics.Labels.{Labels}
use computer_service_system.Metrics.Counter
use computer_service_system.Metrics.Counter.{Counter}
use computer_service_system.Metrics.Registry.{Registry, empty}
use computer_service_system.Metrics.Registry.Start.{
  initialize, fill, initialize_helps, register_requests, register_request, emplace_counter,
  emplace_duration, methods, paths, statuses, http_labels, http_help, failures_help,
}
use computer_service_system.Metrics.Registry.Record.{
  count, observe_duration, record_http_request, record_db_operation, record_auth_attempt,
  record_device_operation, record_service_operation,
}
use computer_service_system.Metrics.Registry.Lookup.{
  counter_at, counter_at-count, counter_at-observe_duration,
}
use computer_service_system.Metrics.Registry.Counting.{for_each_inv}
use computer_service_system.Metrics.Registry.History.{
  Event, initializes, http_request, db_operation, auth_attempt, device_operation, service_operation,
  apply, run,
}

abbrev pub OwnPlace : {Double : Type 0} → String → Labels → Option (Counter Double) → Type 0
OwnPlace n l none = Unit
OwnPlace n l (some c) = (c.name ≡ n) × (c.labels ≡ l)

pub record IsPlaced {Double : Type 0} (r : Registry Double) : Type 0 where
  pub at : (n : String) (l : Labels) → OwnPlace n l (counter_at n l r)

module _ (fl : Floating) where
  open fl use {Double, thousandths}

  -- A new or an incremented counter at the place `(n, l)`.
  OwnPlace-create :
      (n help : String) (l : Labels) (n' : String) (l' : Labels) (o : Option (Counter Double))
      → same_place n l n' l' ≡ true
      → OwnPlace n' l' o
      → OwnPlace n' l' (some (get_or (Counter.create fl n help l) o))
  unfolding Counter.create
  OwnPlace-create n help l n' l' none same h =
      let here = same_place_iff n n' l l' same in (here.0, here.1)
  OwnPlace-create n help l n' l' (some c) same h = h

  OwnPlace-increment :
      (d : Double) (n : String) (l : Labels) (c : Counter Double)
      → OwnPlace n l (some c)
      → OwnPlace n l (some (Counter.increment fl d c))
  unfolding Counter.increment
  OwnPlace-increment d n l c h = h

  count-IsPlaced :
      (n help : String) (l : Labels) {r : Registry Double}
      → IsPlaced r
      → IsPlaced (count fl n help l r)
  count-IsPlaced n help l {r} p = record {
    at = λ n' l'. rw (counter_at-count fl n n' help l l' r) (step n' l');
  }
    where
      step :
          (n' : String) (l' : Labels)
          → OwnPlace n' l' (
              if same_place n l n' l'
              then some (
                  Counter.increment fl
                    (thousandths 1000)
                    (get_or (Counter.create fl n help l) (counter_at n' l' r)))
              else counter_at n' l' r)
      step n' l' = elim (Bool-cases (same_place n l n' l')) [
        | inl same ↦ rw same (
            OwnPlace-increment (thousandths 1000) n' l' _
              (OwnPlace-create n help l n' l' (counter_at n' l' r) same (p.at n' l')))
        | inr other ↦ rw other (p.at n' l')
      ]

  emplace_counter-IsPlaced :
      (n help : String) (l : Labels) {r : Registry Double}
      → IsPlaced r
      → IsPlaced (emplace_counter fl n help l r)
  unfolding emplace_counter counter_at
  emplace_counter-IsPlaced n help l {r} p = record {
    at = λ n' l'.
        rw (nested_find-emplace n n' l l' (Counter.create fl n help l) r.counters) (step n' l');
  }
    where
      step :
          (n' : String) (l' : Labels)
          → OwnPlace n' l' (
              if same_place n l n' l'
              then some (get_or (Counter.create fl n help l) (counter_at n' l' r))
              else counter_at n' l' r)
      step n' l' = elim (Bool-cases (same_place n l n' l')) [
        | inl same ↦ rw same (OwnPlace-create n help l n' l' (counter_at n' l' r) same (p.at n' l'))
        | inr other ↦ rw other (p.at n' l')
      ]

  register_requests-IsPlaced :
      {r : Registry Double} → IsPlaced r → IsPlaced (register_requests fl r)
  unfolding register_requests register_request
  register_requests-IsPlaced {r} p =
      for_each_inv IsPlaced _
        (λ method s hs.
          for_each_inv IsPlaced _
            (λ path t ht.
              for_each_inv IsPlaced _
                (λ status u hu.
                  emplace_counter-IsPlaced "http_requests_total" http_help
                    (http_labels method path status) hu)
                statuses t ht)
            paths s hs)
        methods r p

  -- What changes no counter keeps the places.
  same_counters-IsPlaced :
      {r s : Registry Double} → s.counters ≡ r.counters → IsPlaced r → IsPlaced s
  unfolding counter_at
  same_counters-IsPlaced e p = record { at = λ n l. rw e (p.at n l) }

  fill-IsPlaced : (r : Registry Double) → IsPlaced r → IsPlaced (fill fl r)
  unfolding fill
  fill-IsPlaced r p =
      let start = initialize_helps fl r in
      let requests = register_requests fl start in
      let registered = emplace_counter fl "auth_failures_total" failures_help [] requests in
      same_counters-IsPlaced {r = registered} (unfold emplace_duration in refl) (
        emplace_counter-IsPlaced "auth_failures_total" failures_help [] {r = requests} (
          register_requests-IsPlaced {r = start}
            (same_counters-IsPlaced {r = r} (unfold initialize_helps in refl) p)))

  either-IsPlaced :
      (b : Bool) {r s : Registry Double} → IsPlaced r → IsPlaced s → IsPlaced (if b then r else s)
  either-IsPlaced true p q = p
  either-IsPlaced false p q = q

  initialize-IsPlaced : {r : Registry Double} → IsPlaced r → IsPlaced (initialize fl r)
  unfolding initialize
  initialize-IsPlaced {r} p =
      either-IsPlaced r.initialized p
        (same_counters-IsPlaced {r = fill fl r} refl (fill-IsPlaced r p))

  observe-IsPlaced :
      (d : Double) {r : Registry Double} → IsPlaced r → IsPlaced (observe_duration fl d r)
  observe-IsPlaced d {r} p = record {
    at = λ n l. rw (counter_at-observe_duration fl n l d r) (p.at n l);
  }

  -- Every recorded event keeps each counter under its own name and labels.
  pub apply-IsPlaced :
      (e : Event Double) {r : Registry Double} → IsPlaced r → IsPlaced (apply fl e r)
  unfolding apply record_http_request record_db_operation record_auth_attempt
      record_device_operation record_service_operation
  apply-IsPlaced initializes p = initialize-IsPlaced p
  apply-IsPlaced (http_request method path status seconds) p =
      observe-IsPlaced seconds (count-IsPlaced _ _ _ p)
  apply-IsPlaced (db_operation operation success) p = count-IsPlaced _ _ _ p
  apply-IsPlaced (auth_attempt username true) p = count-IsPlaced _ _ _ p
  apply-IsPlaced (auth_attempt username false) p = count-IsPlaced _ _ _ (count-IsPlaced _ _ _ p)
  apply-IsPlaced (device_operation operation device_id success) p = count-IsPlaced _ _ _ p
  apply-IsPlaced (service_operation operation record_id success) p = count-IsPlaced _ _ _ p

  -- Every history keeps it: each counter that is there has, as its own name and labels, those of
  -- the place where it stands.
  pub run-IsPlaced :
      (es : List (Event Double)) {r : Registry Double} → IsPlaced r → IsPlaced (run fl es r)
  unfolding run
  run-IsPlaced [] p = p
  run-IsPlaced (e ∷ es) p = run-IsPlaced es (apply-IsPlaced e p)

pub empty-IsPlaced : {Double : Type 0} → IsPlaced (empty {Double = Double})
unfolding counter_at empty Nested.find HashMap.find
empty-IsPlaced = record { at = λ n l. tt }
