-- ===== src/Metrics/Registry/Schedule/Together.antt =====
-- What any number of turns pays of what the threads owe together.
use computer_service_system.Common.{
  ℕ, ◌+◌, suc, String, List, [], ◌∷◌, ◌≡◌, refl, ap, ◌∙◌, arith, All,
}
use computer_service_system.Std.Ord.{string_ord, pair_ord, list_ord}
use computer_service_system.Std.Floating.{Floating}
use computer_service_system.Metrics.Labels.{Labels}
use computer_service_system.Metrics.Registry.{Registry}
use computer_service_system.Metrics.Registry.Lookup.{value_at}
use computer_service_system.Metrics.Registry.Counting.{plus, plus-plus}
use computer_service_system.Metrics.Registry.Schedule.{
  Thread, idle, at_counter, at_histogram, Turn, this, other, Turns, stop, go,
}
use computer_service_system.Metrics.Registry.Schedule.There.{There}
use computer_service_system.Metrics.Registry.Schedule.Owed.{
  owed_by_all, all_moves_left, IsReady, Pays, advance-Pays,
}

module _ {Double : Type 0} where
  AllReady-keeps :
      (r r' : Registry Double) (ts : List (Thread Double))
      → ((n : String) (l : Labels) → There n l r → There n l r')
      → All (IsReady r) ts
      → All (IsReady r') ts
  AllReady-keeps r r' [] keeps h = tt
  AllReady-keeps r r' (idle rest ∷ ts) keeps (h, hs) = (tt, AllReady-keeps r r' ts keeps hs)
  AllReady-keeps r r' (at_counter ref rest ∷ ts) keeps (h, hs) =
      (keeps ref.name ref.labels h, AllReady-keeps r r' ts keeps hs)
  AllReady-keeps r r' (at_histogram ref seconds rest ∷ ts) keeps (h, hs) =
      (tt, AllReady-keeps r r' ts keeps hs)

module _ (fl : Floating) where
  open fl use {Double, thousandths}

  -- `Pays` of all threads together.
  pub record AllPay (ts : List (Thread Double)) (r : Registry Double) (ts' : List (Thread Double))
      (r' : Registry Double) : Type 0 where
    pub ready : All (IsReady r') ts'
    pub keeps : (n : String) (l : Labels) → There n l r → There n l r'
    pub pays :
        (n : String) (l : Labels)
        → (k : ℕ) × (value_at fl n l r' ≡ plus fl k (value_at fl n l r))
          × (owed_by_all n l ts ≡ k + owed_by_all n l ts')

  Turn-AllPay :
      {ts ts' : List (Thread Double)} {r r' : Registry Double}
      → Turn fl ts r ts' r'
      → All (IsReady r) ts
      → AllPay ts r ts' r' × (all_moves_left ts ≡ suc (all_moves_left ts'))
  Turn-AllPay (this {t} {t'} {ts} {r} {r'} e) (h, hs) =
      let p : Pays fl t r t' r' = rw e at (advance-Pays fl t r h) in
      (
        record {
          ready = (p.ready, AllReady-keeps r r' ts p.keeps hs);
          keeps = p.keeps;
          pays = λ n l. let (k, value, owing) = p.pays n l in (k, value, omega (arith, owing));
        },
        omega (arith, p.shorter),
      )
  Turn-AllPay (other {t} {ts} {ts'} {r} {r'} x) (h, hs) =
      let (p, shorter) = Turn-AllPay x hs in
      (
        record {
          ready = ((AllReady-keeps r r' (t ∷ []) p.keeps (h, tt)).0, p.ready);
          keeps = p.keeps;
          pays = λ n l. let (k, value, owing) = p.pays n l in (k, value, omega (arith, owing));
        },
        omega (arith, shorter),
      )

  pub Turns-AllPay :
      {k : ℕ} {ts ts' : List (Thread Double)} {r r' : Registry Double}
      → Turns fl k ts r ts' r'
      → All (IsReady r) ts
      → AllPay ts r ts' r' × (all_moves_left ts ≡ k + all_moves_left ts')
  Turns-AllPay (stop {ts} {r}) h = (
    record { ready = h; keeps = λ n l there. there; pays = λ n l. (0, refl, omega arith) },
    omega arith,
  )
  Turns-AllPay (go {k} {ts} {us} {vs} {r} {r'} {r''} x xs) h =
      let (p, shorter) = Turn-AllPay x h in
      let (q, rest) = Turns-AllPay xs p.ready in
      (
        record {
          ready = q.ready;
          keeps = λ n l there. q.keeps n l (p.keeps n l there);
          pays = λ n l.
              let (j, value, owing) = p.pays n l in
              let (k, value', owing') = q.pays n l in
              (
                j + k,
                value' ∙ ap (plus fl k) value ∙ plus-plus fl j k (value_at fl n l r),
                omega (arith, owing, owing'),
              );
        },
        omega (arith, shorter, rest),
      )
