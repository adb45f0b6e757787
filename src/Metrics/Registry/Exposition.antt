-- ===== src/Metrics/Registry/Exposition.antt =====
-- What a scrape shows of the counters.
use mathlib.Core.List.{Mem, mem-cons_self, mem-cons_of_mem}
use mathlib.Core.List.Perm
use text.Mathlib.TextEquality.{eq_iff}
use computer_service_system.Common.{
  String, ◌≡◌, refl, List, [], ◌∷◌, arith, inl, inr, Bool-cases, none, some, str_eq,
}
use computer_service_system.Std.Ord.{Ord, string_ord, pair_ord, list_ord}
use computer_service_system.Std.Floating.{Floating}
use computer_service_system.Std.OrderedMap
use computer_service_system.Std.OrderedMap.{OrderedMap}
use computer_service_system.Std.HashMap
use computer_service_system.Std.HashMap.{HashMap, Walk, get_or}
use computer_service_system.Std.Nested
use computer_service_system.Std.Text.{◌<<◌}
use computer_service_system.Std.Contains.{
  Contains, Contains-trans, Contains-append_left, Contains-append_right, Contains-print_each,
  print_each,
}
use computer_service_system.Metrics.Labels
use computer_service_system.Metrics.Labels.{Labels}
use computer_service_system.Metrics.Counter
use computer_service_system.Metrics.Counter.{Counter}
use computer_service_system.Metrics.Histogram.{Histogram}
use computer_service_system.Metrics.Registry.{Registry, empty}
use computer_service_system.Metrics.Registry.Format.{format, format_counters}
use computer_service_system.Metrics.Registry.Lookup.{counter_at, value_at, value_or_zero}
use computer_service_system.Metrics.Registry.Invariant.{OwnPlace, run-IsPlaced, empty-IsPlaced}
use computer_service_system.Metrics.Registry.History.{Event, run}

-- What a lookup finds stands in the container.
mem-hash_find {ℓ} :
    {V : Type ℓ} (k : String) (v : V) (m : HashMap V) → HashMap.find k m ≡ some v → Mem (k, v) m
unfolding HashMap.find
mem-hash_find {V} k v [] h = cc
mem-hash_find {V} k v ((j, w) ∷ m) h = elim (Bool-cases (str_eq j k)) [
  | inl same ↦
      let e : ◌≡◌ {A = String × V} (j, w) (k, v) = ground (arith, eq_iff j k) in
      rw (← e) mem-cons_self
  | inr other ↦ mem-cons_of_mem (j, w) (mem-hash_find k v m (rw other at h))
]

mem-map_find {ℓ κ} :
    {K : Type ℓ} {V : Type κ} ⦃o : Ord K⦄ (k : K) (v : V) (m : OrderedMap K V)
    → OrderedMap.find k m ≡ some v
    → Mem (k, v) m
unfolding OrderedMap.find
mem-map_find {K} {V} ⦃o⦄ k v [] h = cc
mem-map_find {K} {V} ⦃o⦄ k v ((j, w) ∷ m) h = elim (Bool-cases (o.lt k j)) [
  | inl before ↦ absurd (let e : none ≡ some v = rw before at h in cc)
  | inr not_before ↦ elim (Bool-cases (o.lt j k)) [
    | inl after ↦ mem-cons_of_mem (j, w) (mem-map_find k v m (rw (not_before, after) at h))
    | inr same ↦
        let e : ◌≡◌ {A = K × V} (j, w) (k, v) = ground (arith, o.connex k j) in
        rw (← e) mem-cons_self
  ]
]

module _ (fl : Floating) (wc : Walk (OrderedMap Labels (Counter fl.Double)))
    (wh : Walk (OrderedMap Labels (Histogram fl.Double))) where
  open fl use {Double, fixed}

  -- The lines of the registry hold the line of each counter that a lookup finds.
  Contains-format :
      (n : String) (l : Labels) (c : Counter Double) (r : Registry Double)
      → counter_at n l r ≡ some c
      → Contains (Counter.format fl c) (format fl wc wh r)
  unfolding format counter_at format_counters
  Contains-format n l c r h = in_family (Nested.find-some n l c r.counters h)
    where
      families : String
      families = print_each (format_counters fl r.counter_helps) (wc.entries r.counters)

      in_family :
          (inner : OrderedMap Labels (Counter Double)) × (HashMap.find n r.counters ≡ some inner)
            × (OrderedMap.find l inner ≡ some c)
          → Contains (Counter.format fl c) (format fl wc wh r)
      in_family (inner, found, there) =
          let line =
            Contains-print_each (λ (e : Labels × Counter Double). Counter.format fl e.1) (l, c)
              inner (mem-map_find l c inner there) in
          let family =
            Contains-print_each (format_counters fl r.counter_helps) (n, inner)
              (wc.entries r.counters)
              ((Perm.mem_iff (wc.entries-perm r.counters)).1
                (mem-hash_find n inner r.counters found)) in
          Contains-append_right _ families _ (
            Contains-trans _ (format_counters fl r.counter_helps (n, inner)) families
              (Contains-append_left _ _ _ line) family)

  -- After any history from the start of the program, the text of a scrape holds, for each counter
  -- that is there, the line with its own base name, its own labels and its value, whatever order
  -- the containers are walked in.
  pub run-exposed :
      (n : String) (l : Labels) (c : Counter Double) (es : List (Event Double))
      → counter_at n l (run fl es empty) ≡ some c
      → Contains
          (n << Labels.to_string l << " " << fixed 0 (value_at fl n l (run fl es empty)) << "\n")
          (format fl wc wh (run fl es empty))
  unfolding value_at
  run-exposed n l c es h =
      rw (own_line (rw h at ((run-IsPlaced fl es empty-IsPlaced).at n l)))
        (Contains-format n l c (run fl es empty) h)
    where
      own_line :
          OwnPlace n l (some c)
          → (n
              << Labels.to_string l
              << " "
              << fixed 0 (value_or_zero fl (counter_at n l (run fl es empty)))
              << "\n")
            ≡ Counter.format fl c
      own_line (name, labels) = rw (h, ← name, ← labels) (unfold Counter.format in refl)
