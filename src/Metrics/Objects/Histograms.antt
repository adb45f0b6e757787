-- ===== src/Metrics/Objects/Histograms.antt =====
-- The copy and move operations of `Histogram`, and its setters.
use computer_service_system.Common.{ℕ, String, if◌then◌else◌, ◌==◌}
use computer_service_system.Std.Floating.{Floating}
use computer_service_system.Metrics.Histogram.{Histogram}
use computer_service_system.Metrics.Objects.{Store, put, Leftover}

module _ {Double : Type 0} where
  -- Histogram(const Histogram& other)
  unfoldable pub copy : Histogram Double → Histogram Double
  copy other = record {
    name = other.name;
    help = other.help;
    sum = other.sum;
    count = other.count;
    values = other.values;
    buckets = other.buckets;
    labels = other.labels;
  }

  -- The members that both assignments give `*this`.
  unfoldable pub take_over : Histogram Double → Histogram Double → Histogram Double
  take_over other this = record this {
    name = other.name;
    help = other.help;
    sum = other.sum;
    count = other.count;
    values = other.values;
    buckets = other.buckets;
    labels = other.labels;
  }

  -- operator=(const Histogram& other), with the addresses of `*this` and `other`
  unfoldable pub assign : ℕ → ℕ → Store (Histogram Double) → Store (Histogram Double)
  unfolding take_over
  assign this other s = if this == other then s else put this (take_over (s other) (s this)) s

  unfoldable pub set_name : String → Histogram Double → Histogram Double
  set_name name h = record h { name = name }

  unfoldable pub set_help : String → Histogram Double → Histogram Double
  set_help help h = record h { help = help }

module _ (fl : Floating) (left : Leftover fl.Double) where
  open fl use {Double, thousandths}

  -- What a move leaves in the histogram that was moved out of.
  unfoldable pub emptied : Histogram Double → Histogram Double
  emptied other = record {
    name = left.string other.name;
    help = left.string other.help;
    sum = thousandths 0;
    count = 0;
    values = left.doubles other.values;
    buckets = left.doubles other.buckets;
    labels = left.labels other.labels;
  }

  -- Histogram(Histogram&& other): the new histogram, and what is left of the other
  unfoldable pub move : Histogram Double → Histogram Double × Histogram Double
  unfolding copy emptied
  move other = (copy other, emptied other)

  -- operator=(Histogram&& other)
  unfoldable pub move_assign : ℕ → ℕ → Store (Histogram Double) → Store (Histogram Double)
  unfolding take_over emptied
  move_assign this other s =
      if this == other
      then s
      else put other (emptied (s other)) (put this (take_over (s other) (s this)) s)
