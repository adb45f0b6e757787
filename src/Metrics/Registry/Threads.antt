-- ===== src/Metrics/Registry/Threads.antt =====
-- Two threads that record events, each call taken whole: what the registry sees is an interleaving of
-- their calls. Schedule has the steps in between.
use computer_service_system.Common.{
  ◌+◌, ◌*◌, ◌^◌, ◌≤◌, String, ◌≡◌, refl, ap, ◌∙◌, List, [], ◌∷◌, arith,
}
use computer_service_system.Std.Floating.{Floating}
use computer_service_system.Metrics.Labels.{Labels}
use computer_service_system.Metrics.Registry.{empty}
use computer_service_system.Metrics.Registry.Lookup.{value_at}
use computer_service_system.Metrics.Registry.History.{Event, places, hits, all_places, run}
use computer_service_system.Metrics.Registry.Append.{hits-append}
use computer_service_system.Metrics.Registry.Counting.{value_at-run-exact}

-- The third list is an interleaving of the first two, each in its own order.
data Interleaves {A : Type 0} : List A → List A → List A → Type 0 where
  done : Interleaves [] [] []
  first : (x : A) {xs ys zs : List A} → Interleaves xs ys zs → Interleaves (x ∷ xs) ys (x ∷ zs)
  second : (y : A) {xs ys zs : List A} → Interleaves xs ys zs → Interleaves xs (y ∷ ys) (y ∷ zs)

hits-Interleaves :
    {Double : Type 0} (n : String) (l : Labels) {xs ys zs : List (Event Double)}
    → Interleaves xs ys zs
    → hits n l (all_places zs) ≡ hits n l (all_places xs) + hits n l (all_places ys)
hits-Interleaves n l done = refl
hits-Interleaves n l (first x {xs} {ys} {zs} i) = omega (
  arith,
  hits-Interleaves n l i,
  hits-append n l (places x) (all_places xs),
  hits-append n l (places x) (all_places zs),
)
hits-Interleaves n l (second y {xs} {ys} {zs} i) = omega (
  arith,
  hits-Interleaves n l i,
  hits-append n l (places y) (all_places ys),
  hits-append n l (places y) (all_places zs),
)

module _ (fl : Floating) where
  open fl use {Double, thousandths}

  -- In whatever order the calls of two threads interleave, from the start of the program each
  -- counter shows the number of the events of both, as long as that number is at most 2^53; each
  -- call is taken whole.
  value_at-run-Interleaves :
      (n : String) (l : Labels) (xs ys zs : List (Event Double))
      → Interleaves xs ys zs
      → hits n l (all_places xs) + hits n l (all_places ys) ≤ 2 ^ 53
      → value_at fl n l (run fl zs empty)
        ≡ thousandths ((hits n l (all_places xs) + hits n l (all_places ys)) * 1000)
  value_at-run-Interleaves n l xs ys zs i fits =
      value_at-run-exact fl n l zs (omega (arith, hits-Interleaves n l i))
      ∙ ap (λ k. thousandths (k * 1000)) (hits-Interleaves n l i)
