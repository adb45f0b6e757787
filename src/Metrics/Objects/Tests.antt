-- ===== src/Metrics/Objects/Tests.antt =====
-- The theorem on copied and moved histograms at a concrete run.
use computer_service_system.Common.{ℕ, refl, List, [], ◌∷◌}
use computer_service_system.Std.Floating.{milli}
use computer_service_system.Metrics.Histogram.{Histogram}
use computer_service_system.Metrics.Objects.{Store, Leftover}
use computer_service_system.Metrics.Objects.Consistent.{
  Step, creates, observes, copies, assigns, moves, move_assigns, total, AllConsistent, perform_all,
  perform_all-AllConsistent,
}

-- A machine on which a member that was moved out of is empty.
abbrev drained : Leftover ℕ
drained = record { string = λ s. ""; labels = λ l. []; doubles = λ ds. [] }

abbrev blank : Store (Histogram ℕ)
blank i = record {
  sum = 0;
  count = 0;
  values = [];
  name = "";
  help = "";
  labels = [];
  buckets = [];
}

blank-AllConsistent : AllConsistent milli blank
unfolding total
blank-AllConsistent i = record { counted = refl; summed = refl }

abbrev steps : List (Step ℕ)
steps =
    creates 1 "d" "" (10 ∷ []) []
    ∷ observes 1 7
    ∷ copies 2 1
    ∷ observes 2 30
    ∷ moves 3 1
    ∷ move_assigns 1 2
    ∷ assigns 3 1
    ∷ []

perform_all-AllConsistent_example : AllConsistent milli (perform_all milli drained steps blank)
perform_all-AllConsistent_example =
    perform_all-AllConsistent milli drained (λ vs. refl) steps blank blank-AllConsistent
