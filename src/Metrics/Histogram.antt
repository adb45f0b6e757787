-- ===== src/Metrics/Histogram.antt =====
-- `Histogram` of src/metrics.h.

pub mod Buckets
pub mod Braces
use Prim.Native.Char.{code}
use computer_service_system.Common.{
  ℕ, ◌+◌, ◌%◌, ◌^◌, String, List, [], ◌∷◌, ◌++◌, if◌then◌else◌, str_eq, ◌==◌,
}
use computer_service_system.Std.Floating.{Floating}
use computer_service_system.Std.Text.{◌<<◌}
use computer_service_system.Std.Text as Text
use computer_service_system.Metrics.Labels
use computer_service_system.Metrics.Labels.{Labels}

pub record Histogram (Double : Type 0) : Type 0 where
  pub sum : Double
  pub count : ℕ
  pub values : List Double
  pub name : String
  pub help : String
  pub labels : Labels
  pub buckets : List Double

-- an increment of a `uint64_t`
unfoldable pub next_u64 : ℕ → ℕ
next_u64 n = (n + 1) % 2 ^ 64

-- The label part without its leading '{'.
unfoldable pub label_part : String → String
label_part String.[] = ""
label_part (String.◌∷◌ c s) = if code c == b'{' then s else String.◌∷◌ c s

unfoldable pub format_type_help : String → String → String
format_type_help name help =
    "# TYPE "
    << name
    << " histogram\n"
    << (if str_eq help "" then "" else "# HELP " << name << " " << help << "\n")

-- One "_bucket" line; the label part already holds its closing brace.
unfoldable pub bucket_line : String → String → String → ℕ → String
bucket_line name part bound n =
    name
    << "_bucket{le=\""
    << bound
    << "\""
    << (if str_eq part "" then "" else "," << part)
    << "} "
    << Text.to_string_ℕ n
    << "\n"

module _ (fl : Floating) where
  open fl use {Double, thousandths, add, le, fixed}

  unfoldable pub create : String → String → List Double → Labels → Histogram Double
  create name help buckets labels = record {
    sum = thousandths 0;
    count = 0;
    values = [];
    name = name;
    help = help;
    labels = labels;
    buckets = buckets;
  }

  unfoldable pub observe : Double → Histogram Double → Histogram Double
  unfolding next_u64
  observe value h = record h {
    values = h.values ++ value ∷ [];
    sum = add h.sum value;
    count = next_u64 h.count;
  }

  -- The inner loop of `format`: a value counts in each bucket that it does not exceed.
  unfoldable pub bump : Double → List Double → List ℕ → List ℕ
  unfolding next_u64
  bump v [] counts = counts
  bump v (b ∷ buckets) [] = []
  bump v (b ∷ buckets) (n ∷ counts) = (if le v b then next_u64 n else n) ∷ bump v buckets counts

  -- The outer loop.
  unfoldable pub tally : List Double → List Double → List ℕ → List ℕ
  unfolding bump
  tally [] buckets counts = counts
  tally (v ∷ values) buckets counts = tally values buckets (bump v buckets counts)

  unfoldable pub zeros : List Double → List ℕ
  zeros [] = []
  zeros (b ∷ buckets) = 0 ∷ zeros buckets

  unfoldable pub bucket_counts : Histogram Double → List ℕ
  unfolding tally zeros
  bucket_counts h = tally h.values h.buckets (zeros h.buckets)

  unfoldable pub bucket_lines : String → String → List Double → List ℕ → String
  unfolding bucket_line
  bucket_lines name part [] counts = ""
  bucket_lines name part (b ∷ buckets) [] = ""
  bucket_lines name part (b ∷ buckets) (n ∷ counts) =
      bucket_line name part (fixed 4 b) n << bucket_lines name part buckets counts

  unfoldable pub format : Histogram Double → String
  unfolding bucket_lines bucket_counts label_part
  format h =
      let shown = Labels.to_string h.labels in
      let part = label_part shown in
      bucket_lines h.name part h.buckets (bucket_counts h)
      << bucket_line h.name part "+Inf" h.count
      << h.name
      << "_sum"
      << shown
      << " "
      << fixed 6 h.sum
      << "\n"
      << h.name
      << "_count"
      << shown
      << " "
      << Text.to_string_ℕ h.count
      << "\n"
