-- ===== src/Metrics/Counter.antt =====
-- `Counter` of src/metrics.h, each operation taken whole; its copy and move operations are in Objects.
use computer_service_system.Common.{String, if◌then◌else◌, str_eq}
use computer_service_system.Std.Floating.{Floating}
use computer_service_system.Std.Text.{◌<<◌}
use computer_service_system.Metrics.Labels
use computer_service_system.Metrics.Labels.{Labels}

pub record Counter (Double : Type 0) : Type 0 where
  pub value : Double
  pub name : String
  pub help : String
  pub labels : Labels

-- "# TYPE" and "# HELP" lines; there is no "# HELP" line for an empty help text.
unfoldable pub format_type_help : String → String → String → String
format_type_help name help type =
    "# TYPE "
    << name
    << " "
    << type
    << "\n"
    << (if str_eq help "" then "" else "# HELP " << name << " " << help << "\n")

module _ (fl : Floating) where
  open fl use {Double, thousandths, add, fixed}

  unfoldable pub create : String → String → Labels → Counter Double
  create name help labels = record {
    value = thousandths 0;
    name = name;
    help = help;
    labels = labels;
  }

  -- `val` defaults to 1.0, which is `thousandths 1000`.
  unfoldable pub increment : Double → Counter Double → Counter Double
  increment val c = record c { value = add c.value val }

  unfoldable pub format : Counter Double → String
  format c = c.name << Labels.to_string c.labels << " " << fixed 0 c.value << "\n"
