-- ===== src/Metrics/Registry/Schedule/There.antt =====
-- Which counters are there, before and after a move of a thread.
use text.Mathlib.TextEquality.{eq_iff}
use mathlib.Core.Option
use computer_service_system.Common.{
  String, [], Bool, true, false, Option, some, ◌≡◌, sym, ap, ◌∙◌, inl, inr, Bool-cases,
  if◌then◌else◌, arith,
}
use computer_service_system.Std.Ord.{string_ord, pair_ord, list_ord, same_key_iff}
use computer_service_system.Std.Floating.{Floating}
use computer_service_system.Std.HashMap.{get_or}
use computer_service_system.Std.Nested.{
  same_place, same_place_iff, find-update, find-find_or_create, nested_find-emplace,
}
use computer_service_system.Metrics.Labels.{Labels}
use computer_service_system.Metrics.Counter
use computer_service_system.Metrics.Counter.{Counter}
use computer_service_system.Metrics.Registry.{Registry, get_counter, increment_at}
use computer_service_system.Metrics.Registry.Start.{
  initialize, fill, initialize_helps, register_requests, register_request, emplace_counter,
  emplace_duration, methods, paths, statuses, http_labels, http_help, failures_help,
}
use computer_service_system.Metrics.Registry.Lookup.{counter_at, value_at, value_or_zero}
use computer_service_system.Metrics.Registry.Counting.{for_each_inv, value_or_zero-get_or}

same_place_refl : (n : String) (l : Labels) → same_place n l n l ≡ true
same_place_refl n l = ground (arith, eq_iff n n, same_key_iff l l)

module _ {Double : Type 0} where
  -- The registry has a counter at this place.
  abbrev pub There : String → Labels → Registry Double → Type 0
  There n l r = (c : Counter Double) × (counter_at n l r ≡ some c)

module _ (fl : Floating) where
  open fl use {Double, thousandths, add}

  counter_at-get_counter :
      (n n' : String) (help : String) (l l' : Labels) (r : Registry Double)
      → counter_at n' l' (get_counter fl n help l r).1 ≡ (
          if same_place n l n' l'
          then some (get_or (Counter.create fl n help l) (counter_at n' l' r))
          else counter_at n' l' r)
  unfolding counter_at get_counter
  counter_at-get_counter n n' help l l' r =
      find-find_or_create n n' l l' (Counter.create fl n help l) r.counters

  counter_at-increment_at :
      (n n' : String) (l l' : Labels) (v : Double) (r : Registry Double)
      → counter_at n' l' (increment_at fl v (record { name = n; labels = l }) r) ≡ (
          if same_place n l n' l'
          then Option.map (Counter.increment fl v) (counter_at n' l' r)
          else counter_at n' l' r)
  unfolding counter_at increment_at
  counter_at-increment_at n n' l l' v r = find-update n n' l l' (Counter.increment fl v) r.counters

  counter_at-emplace_counter :
      (n n' : String) (help : String) (l l' : Labels) (r : Registry Double)
      → counter_at n' l' (emplace_counter fl n help l r) ≡ (
          if same_place n l n' l'
          then some (get_or (Counter.create fl n help l) (counter_at n' l' r))
          else counter_at n' l' r)
  unfolding counter_at emplace_counter
  counter_at-emplace_counter n n' help l l' r =
      nested_find-emplace n n' l l' (Counter.create fl n help l) r.counters

  -- A counter in the form of the three equations above is there if it was.
  still :
      (b : Bool) (f : Counter Double → Counter Double) (d : Counter Double)
      {o : Option (Counter Double)}
      → (c : Counter Double) × (o ≡ some c)
      → ((c : Counter Double) × ((if b then some (get_or d o) else o) ≡ some c))
        × ((c : Counter Double) × ((if b then Option.map f o else o) ≡ some c))
  still true f d (c, e) = ((c, rw e), (f c, rw e))
  still false f d (c, e) = ((c, e), (c, e))

  pub get_counter-There :
      (n n' : String) (help : String) (l l' : Labels) (r : Registry Double)
      → There n' l' r
      → There n' l' (get_counter fl n help l r).1
  get_counter-There n n' help l l' r there =
      let (c, e) = (still (same_place n l n' l') (λ c. c) (Counter.create fl n help l) there).0 in
      (c, counter_at-get_counter n n' help l l' r ∙ e)

  pub increment_at-There :
      (n n' : String) (l l' : Labels) (v : Double) (r : Registry Double)
      → There n' l' r
      → There n' l' (increment_at fl v (record { name = n; labels = l }) r)
  increment_at-There n n' l l' v r there =
      let (c, e) = (still (same_place n l n' l') (Counter.increment fl v) there.0 there).1 in
      (c, counter_at-increment_at n n' l l' v r ∙ e)

  emplace_counter-There :
      (n n' : String) (help : String) (l l' : Labels) (r : Registry Double)
      → There n' l' r
      → There n' l' (emplace_counter fl n help l r)
  emplace_counter-There n n' help l l' r there =
      let (c, e) = (still (same_place n l n' l') (λ c. c) (Counter.create fl n help l) there).0 in
      (c, counter_at-emplace_counter n n' help l l' r ∙ e)

  register_requests-There :
      (n : String) (l : Labels) (r : Registry Double)
      → There n l r
      → There n l (register_requests fl r)
  unfolding register_requests register_request
  register_requests-There n l r there =
      for_each_inv (There n l) _
        (λ method s hs.
          for_each_inv (There n l) _
            (λ path t ht.
              for_each_inv (There n l) _
                (λ status u hu.
                  emplace_counter-There "http_requests_total" n http_help
                    (http_labels method path status) l u hu)
                statuses t ht)
            paths s hs)
        methods r there

  fill-There : (n : String) (l : Labels) (r : Registry Double) → There n l r → There n l (fill fl r)
  unfolding fill
  fill-There n l r there = keeps_emplace_duration _ (
      emplace_counter-There "auth_failures_total" n failures_help [] l _
        (register_requests-There n l _ (keeps_initialize_helps r there)))
    where
      keeps_emplace_duration :
          (r : Registry Double) → There n l r → There n l (emplace_duration fl r)
      keeps_emplace_duration r there = unfold emplace_duration counter_at in there

      keeps_initialize_helps :
          (r : Registry Double) → There n l r → There n l (initialize_helps fl r)
      keeps_initialize_helps r there = unfold initialize_helps counter_at in there

  pub initialize-There :
      (n : String) (l : Labels) (r : Registry Double) → There n l r → There n l (initialize fl r)
  unfolding initialize counter_at
  initialize-There n l r there = elim (Bool-cases r.initialized) [
    | inl done ↦ rw done there
    | inr first ↦ rw first (fill-There n l r there)
  ]

  -- The counter that was asked for is there.
  pub get_counter-There_self :
      (n help : String) (l : Labels) (r : Registry Double) → There n l (get_counter fl n help l r).1
  get_counter-There_self n help l r = (
    get_or (Counter.create fl n help l) (counter_at n l r),
    counter_at-get_counter n n help l l r ∙ rw (same_place_refl n l),
  )

  pub value_at-get_counter :
      (n n' : String) (help : String) (l l' : Labels) (r : Registry Double)
      → value_at fl n' l' (get_counter fl n help l r).1 ≡ value_at fl n' l' r
  unfolding value_at
  value_at-get_counter n n' help l l' r =
      ap (value_or_zero fl) (counter_at-get_counter n n' help l l' r)
      ∙ value_or_zero-get_or fl (same_place n l n' l') (counter_at n' l' r) n help l

  -- An increment of a counter that is there is seen at its place, and nowhere else.
  pub value_at-increment_at :
      (n n' : String) (l l' : Labels) (v : Double) (r : Registry Double)
      → There n l r
      → value_at fl n' l' (increment_at fl v (record { name = n; labels = l }) r)
        ≡ (if same_place n l n' l' then add (value_at fl n' l' r) v else value_at fl n' l' r)
  unfolding value_at Counter.increment
  value_at-increment_at n n' l l' v r (c, there) = elim (Bool-cases (same_place n l n' l')) [
    | inl same ↦
        let (en, el) = same_place_iff n n' l l' same in
        let there' : counter_at n' l' r ≡ some c = sym (λ i. counter_at (en i) (el i) r) ∙ there in
        ap (value_or_zero fl) (counter_at-increment_at n n' l l' v r) ∙ rw (same, there')
    | inr differs ↦ ap (value_or_zero fl) (counter_at-increment_at n n' l l' v r) ∙ rw differs
  ]
