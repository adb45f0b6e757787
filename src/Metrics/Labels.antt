-- ===== src/Metrics/Labels.antt =====
-- `Labels` of src/metrics.h: an ordered map of label names and values, and its printed form.
pub mod Distinct
use computer_service_system.Common.{String, [], ◌∷◌, Bool, true, false, if◌then◌else◌}
use computer_service_system.Std.Ord.{string_ord}
use computer_service_system.Std.OrderedMap
use computer_service_system.Std.OrderedMap.{OrderedMap}
use computer_service_system.Std.Text.{◌<<◌}

-- The order of `Labels`, its `operator<`, is that of the map: `list_ord` over `pair_ord`.
abbrev pub Labels : Type 0
Labels = OrderedMap String String

-- labels[key] = value
abbrev pub with_label : String → String → Labels → Labels
with_label key value labels = OrderedMap.assign key value labels

-- The loop of `toString`, with its flag for the first pair.
unfoldable pub print_pairs : Bool → Labels → String
print_pairs first [] = ""
print_pairs first ((key, value) ∷ rest) =
    (if first then "" else ",") << key << "=\"" << value << "\"" << print_pairs false rest

unfoldable pub to_string : Labels → String
unfolding print_pairs
to_string [] = ""
to_string (pair ∷ rest) = "{" << print_pairs true (pair ∷ rest) << "}"
