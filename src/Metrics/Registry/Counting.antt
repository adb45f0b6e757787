-- ===== src/Metrics/Registry/Counting.antt =====
-- The values of the counters after a history.
use native.Mathlib.Nat.{zero-add, suc-add, add-zero}
use computer_service_system.Std.HashMap
use computer_service_system.Common.{
  ℕ, zero, suc, ◌+◌, ◌*◌, ◌^◌, ◌≤◌, String, ◌≡◌, refl, sym, ap, ◌∙◌, List, [], ◌∷◌, Bool, true,
  false, if◌then◌else◌, arith, inl, inr, Bool-cases, Option, none, some,
}
use computer_service_system.Std.Ord.{string_ord, pair_ord, list_ord}
use computer_service_system.Std.Floating.{Floating}
use computer_service_system.Std.HashMap.{get_or}
use computer_service_system.Std.Nested
use computer_service_system.Std.Nested.{same_place, nested_find-emplace}
use computer_service_system.Metrics.Labels.{Labels}
use computer_service_system.Metrics.Counter
use computer_service_system.Metrics.Counter.{Counter}
use computer_service_system.Metrics.Registry.{Registry, empty}
use computer_service_system.Metrics.Registry.Start.{
  initialize, fill, initialize_helps, register_requests, register_request, emplace_counter,
  emplace_duration, for_each, methods, paths, statuses, http_labels, http_help, failures_help,
}
use computer_service_system.Metrics.Registry.Record.{
  count, record_http_request, record_db_operation, record_auth_attempt, record_device_operation,
  record_service_operation, auth_labels,
}
use computer_service_system.Metrics.Registry.Lookup.{
  counter_at, value_at, value_or_zero, value_at-count, value_at-observe_duration,
}
use computer_service_system.Metrics.Registry.History.{
  Event, initializes, http_request, db_operation, auth_attempt, device_operation, service_operation,
  places, hits, all_places, apply, run,
}
use computer_service_system.Metrics.Registry.Append.{hits-append}

-- What each round of the loops keeps, a range-for loop keeps.
pub for_each_inv {ℓ κ ι} :
    {A : Type ℓ} {S : Type κ} (P : S → Type ι) (body : A → S → S)
    → ((x : A) (s : S) → P s → P (body x s))
    → (xs : List A) (s : S) → P s
    → P (for_each xs body s)
unfolding for_each
for_each_inv P body keep [] s h = h
for_each_inv P body keep (x ∷ xs) s h = for_each_inv P body keep xs (body x s) (keep x s h)

module _ (fl : Floating) where
  open fl use {Double, thousandths, add, add_one}

  -- One added `k` times.
  abbrev pub plus : ℕ → Double → Double
  plus zero d = d
  plus (suc k) d = plus k (add d (thousandths 1000))

  pub plus-plus : (j k : ℕ) (d : Double) → plus k (plus j d) ≡ plus (j + k) d
  plus-plus zero k d = rw zero-add
  plus-plus (suc j) k d = rw (suc-add j k) (plus-plus j k (add d (thousandths 1000)))

  pub value_or_zero-get_or :
      (b : Bool) (o : Option (Counter Double)) (n help : String) (l : Labels)
      → value_or_zero fl (if b then some (get_or (Counter.create fl n help l) o) else o)
        ≡ value_or_zero fl o
  unfolding Counter.create
  value_or_zero-get_or true none n help l = refl
  value_or_zero-get_or true (some c) n help l = refl
  value_or_zero-get_or false o n help l = refl

  -- Registering a counter changes no value.
  pub value_at-emplace_counter :
      (n n' : String) (help : String) (l l' : Labels) (r : Registry Double)
      → value_at fl n' l' (emplace_counter fl n help l r) ≡ value_at fl n' l' r
  unfolding value_at counter_at emplace_counter
  value_at-emplace_counter n n' help l l' r =
      ap (value_or_zero fl) (nested_find-emplace n n' l l' (Counter.create fl n help l) r.counters)
      ∙ value_or_zero-get_or (same_place n l n' l') (counter_at n' l' r) n help l

  value_at-register_requests :
      (n : String) (l : Labels) (r : Registry Double)
      → value_at fl n l (register_requests fl r) ≡ value_at fl n l r
  unfolding register_requests register_request
  value_at-register_requests n l r =
      let P : Registry Double → Type 0 = λ s. value_at fl n l s ≡ value_at fl n l r in
      for_each_inv P _
        (λ method s hs.
          for_each_inv P _
            (λ path t ht.
              for_each_inv P _
                (λ status u hu.
                  value_at-emplace_counter "http_requests_total" n http_help
                    (http_labels method path status) l u
                  ∙ hu)
                statuses t ht)
            paths s hs)
        methods r refl

  value_at-fill :
      (n : String) (l : Labels) (r : Registry Double)
      → value_at fl n l (fill fl r) ≡ value_at fl n l r
  unfolding fill
  value_at-fill n l r =
      value_at-emplace_duration n l _
      ∙ value_at-emplace_counter "auth_failures_total" n failures_help [] l _
      ∙ value_at-register_requests n l _
      ∙ value_at-initialize_helps n l r
    where
      value_at-emplace_duration :
          (n : String) (l : Labels) (r : Registry Double)
          → value_at fl n l (emplace_duration fl r) ≡ value_at fl n l r
      value_at-emplace_duration n l r = unfold value_at counter_at emplace_duration in refl

      value_at-initialize_helps :
          (n : String) (l : Labels) (r : Registry Double)
          → value_at fl n l (initialize_helps fl r) ≡ value_at fl n l r
      value_at-initialize_helps n l r = unfold value_at counter_at initialize_helps in refl

  pub value_at-initialize :
      (n : String) (l : Labels) (r : Registry Double)
      → value_at fl n l (initialize fl r) ≡ value_at fl n l r
  unfolding initialize value_at counter_at
  value_at-initialize n l r = elim (Bool-cases r.initialized) [
    | inl done ↦ rw done
    | inr first ↦ rw first (value_at-fill n l r)
  ]

  -- One count in the words of `hits`.
  value_at-count_plus :
      (n n' : String) (help : String) (l l' : Labels) (r : Registry Double)
      → value_at fl n' l' (count fl n help l r)
        ≡ plus (hits n' l' ((n, l) ∷ [])) (value_at fl n' l' r)
  value_at-count_plus n n' help l l' r =
      value_at-count fl n n' help l l' r ∙ by_test (same_place n l n' l') (value_at fl n' l' r)
    where
      by_test :
          (b : Bool) (d : Double)
          → (if b then add d (thousandths 1000) else d) ≡ plus (if b then 1 else 0) d
      by_test true d = refl
      by_test false d = refl

  value_at-apply :
      (n : String) (l : Labels) (e : Event Double) (r : Registry Double)
      → value_at fl n l (apply fl e r) ≡ plus (hits n l (places e)) (value_at fl n l r)
  unfolding apply record_http_request record_db_operation record_auth_attempt
      record_device_operation record_service_operation
  value_at-apply n l initializes r = value_at-initialize n l r
  value_at-apply n l (http_request method path status seconds) r =
      value_at-observe_duration fl n l seconds _ ∙ value_at-count_plus _ n _ _ l r
  value_at-apply n l (db_operation operation success) r = value_at-count_plus _ n _ _ l r
  value_at-apply n l (auth_attempt username true) r = value_at-count_plus _ n _ _ l r
  value_at-apply n l (auth_attempt username false) r =
      let attempts : List (String × Labels) =
        ("auth_attempts_total", auth_labels username false) ∷ [] in
      let failures : List (String × Labels) = ("auth_failures_total", []) ∷ [] in
      value_at-count_plus _ n _ _ l _
      ∙ ap (plus (hits n l failures)) (value_at-count_plus _ n _ _ l r)
      ∙ plus-plus (hits n l attempts) (hits n l failures) (value_at fl n l r)
      ∙ ap (λ k. plus k (value_at fl n l r)) (sym (hits-append n l attempts failures))
  value_at-apply n l (device_operation operation device_id success) r =
      value_at-count_plus _ n _ _ l r
  value_at-apply n l (service_operation operation record_id success) r =
      value_at-count_plus _ n _ _ l r

  -- After any history, from any registry, a counter has grown by one for each event that counts in
  -- it, one after the other, and by nothing else.
  pub value_at-run :
      (n : String) (l : Labels) (es : List (Event Double)) (r : Registry Double)
      → value_at fl n l (run fl es r) ≡ plus (hits n l (all_places es)) (value_at fl n l r)
  unfolding run
  value_at-run n l [] r = refl
  value_at-run n l (e ∷ es) r =
      value_at-run n l es (apply fl e r)
      ∙ ap (plus (hits n l (all_places es))) (value_at-apply n l e r)
      ∙ plus-plus (hits n l (places e)) (hits n l (all_places es)) (value_at fl n l r)
      ∙ ap (λ k. plus k (value_at fl n l r)) (sym (hits-append n l (places e) (all_places es)))

  pub plus_exact :
      (k m : ℕ) → m + k ≤ 2 ^ 53 → plus k (thousandths (m * 1000)) ≡ thousandths ((m + k) * 1000)
  plus_exact zero m h = ap (λ i. thousandths (i * 1000)) (sym (add-zero m))
  plus_exact (suc k) m h =
      ap (plus k) (add_one m (omega arith))
      ∙ plus_exact k (m + 1) (omega arith)
      ∙ ap (λ i. thousandths (i * 1000)) (let e : (m + 1) + k ≡ m + suc k = omega arith in e)

  pub value_at-empty : (n : String) (l : Labels) → value_at fl n l empty ≡ thousandths 0
  unfolding value_at counter_at empty Nested.find HashMap.find
  value_at-empty n l = refl

  -- From the start of the program, a counter shows exactly the number of its events, whatever the
  -- other events were and whenever `initialize` ran, as long as that number is at most 2^53.
  pub value_at-run-exact :
      (n : String) (l : Labels) (es : List (Event Double))
      → hits n l (all_places es) ≤ 2 ^ 53
      → value_at fl n l (run fl es empty) ≡ thousandths (hits n l (all_places es) * 1000)
  value_at-run-exact n l es h =
      value_at-run n l es empty
      ∙ ap (plus (hits n l (all_places es))) (value_at-empty n l)
      ∙ exact (hits n l (all_places es)) h
    where
      exact : (k : ℕ) → k ≤ 2 ^ 53 → plus k (thousandths 0) ≡ thousandths (k * 1000)
      exact k h =
          plus_exact k 0 (omega arith)
          ∙ ap (λ i. thousandths (i * 1000)) (let e : 0 + k ≡ k = omega arith in e)
