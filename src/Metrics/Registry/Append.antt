-- ===== src/Metrics/Registry/Append.antt =====
-- Histories of the registry, one after the other.
use computer_service_system.Common.{
  ◌+◌, String, ◌≡◌, refl, List, [], ◌∷◌, ◌++◌, arith, inl, inr, Bool-cases,
}
use computer_service_system.Std.Ord.{string_ord, pair_ord, list_ord}
use computer_service_system.Std.Floating.{Floating}
use computer_service_system.Std.Nested.{same_place}
use computer_service_system.Metrics.Labels.{Labels}
use computer_service_system.Metrics.Registry.{Registry}
use computer_service_system.Metrics.Registry.History.{Event, places, hits, all_places, apply, run}

pub hits-append :
    (n : String) (l : Labels) (ps qs : List (String × Labels))
    → hits n l (ps ++ qs) ≡ hits n l ps + hits n l qs
hits-append n l [] qs = omega arith
hits-append n l ((n', l') ∷ ps) qs = elim (Bool-cases (same_place n' l' n l)) [
  | inl same ↦ rw same (omega (arith, hits-append n l ps qs))
  | inr other ↦ rw other (hits-append n l ps qs)
]

-- The events of two histories count as those of both.
pub hits-all_places :
    {Double : Type 0} (n : String) (l : Labels) (es es' : List (Event Double))
    → hits n l (all_places (es ++ es')) ≡ hits n l (all_places es) + hits n l (all_places es')
hits-all_places n l [] es' = omega arith
hits-all_places n l (e ∷ es) es' = omega (
  arith,
  hits-append n l (places e) (all_places (es ++ es')),
  hits-append n l (places e) (all_places es),
  hits-all_places n l es es',
)

pub run-append :
    (fl : Floating) (es es' : List (Event fl.Double)) (r : Registry fl.Double)
    → run fl (es ++ es') r ≡ run fl es' (run fl es r)
unfolding run
run-append fl [] es' r = refl
run-append fl (e ∷ es) es' r = run-append fl es es' (apply fl e r)
