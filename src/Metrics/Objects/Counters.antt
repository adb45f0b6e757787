-- ===== src/Metrics/Objects/Counters.antt =====
-- The copy and move operations of `Counter`, and its setters.
use computer_service_system.Common.{ℕ, String, if◌then◌else◌, ◌==◌}
use computer_service_system.Std.Floating.{Floating}
use computer_service_system.Metrics.Counter.{Counter}
use computer_service_system.Metrics.Objects.{Store, put, Leftover}

module _ (fl : Floating) (left : Leftover fl.Double) where
  open fl use {Double, thousandths}

  -- Counter(const Counter& other)
  unfoldable pub copy : Counter Double → Counter Double
  copy other = record {
    name = other.name;
    help = other.help;
    value = other.value;
    labels = other.labels;
  }

  -- operator=(const Counter& other), with the addresses of `*this` and `other`
  unfoldable pub assign : ℕ → ℕ → Store (Counter Double) → Store (Counter Double)
  assign this other s =
      if this == other
      then s
      else put this
          (record (s this) {
            name = (s other).name;
            help = (s other).help;
            value = (s other).value;
            labels = (s other).labels;
          })
          s

  -- What a move leaves in the counter that was moved out of.
  unfoldable pub emptied : Counter Double → Counter Double
  emptied other = record {
    name = left.string other.name;
    help = left.string other.help;
    labels = left.labels other.labels;
    value = thousandths 0;
  }

  -- Counter(Counter&& other): the new counter, and what is left of the other
  unfoldable pub move : Counter Double → Counter Double × Counter Double
  unfolding emptied
  move other = (
    record { name = other.name; help = other.help; value = other.value; labels = other.labels },
    emptied other,
  )

  -- operator=(Counter&& other)
  unfoldable pub move_assign : ℕ → ℕ → Store (Counter Double) → Store (Counter Double)
  unfolding emptied
  move_assign this other s =
      if this == other
      then s
      else put other (emptied (s other)) (
          put this
            (record (s this) {
              name = (s other).name;
              help = (s other).help;
              value = (s other).value;
              labels = (s other).labels;
            })
            s)

module _ {Double : Type 0} where
  unfoldable pub set_name : String → Counter Double → Counter Double
  set_name name c = record c { name = name }

  unfoldable pub set_help : String → Counter Double → Counter Double
  set_help help c = record c { help = help }
