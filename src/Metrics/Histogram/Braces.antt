-- ===== src/Metrics/Histogram/Braces.antt =====
-- The lines of a histogram that has labels.
use text.Mathlib.TextLemmas.{append_assoc, nil-append, cons-append, concat-ne-nil}
use text.Mathlib.TextEquality.{eq_iff}
use computer_service_system.Common.{
  ℕ, String, ◌≡◌, sym, ap, ◌∙◌, ◌∷◌, true, false, str_eq, inl, inr, Bool-cases,
}
use computer_service_system.Std.Text as Text
use computer_service_system.Std.Text.{◌<<◌}
use computer_service_system.Metrics.Labels
use computer_service_system.Metrics.Labels.{Labels, print_pairs}
use computer_service_system.Metrics.Histogram.{label_part, bucket_line}

label_part-brace : (s : String) → label_part ("{" << s) ≡ s
unfolding label_part
label_part-brace s = rw (cons-append _ "" s) (nil-append s)

-- The label part of a printed set of labels keeps the closing brace.
label_part-to_string :
    (p : String × String) (l : Labels)
    → label_part (Labels.to_string (p ∷ l)) ≡ print_pairs true (p ∷ l) << "}"
unfolding Labels.to_string
label_part-to_string p l = label_part-brace (print_pairs true (p ∷ l) << "}")

str_eq-brace : (s : String) → str_eq (s << "}") "" ≡ false
str_eq-brace s = elim (Bool-cases (str_eq (s << "}") "")) [
  | inl same ↦ absurd (concat-ne-nil _ s ((eq_iff (s << "}") "").0 same))
  | inr other ↦ other
]

-- A bucket line of a histogram that has labels closes its braces twice.
pub bucket_line_doubled :
    (name bound : String) (p : String × String) (l : Labels) (n : ℕ)
    → bucket_line name (label_part (Labels.to_string (p ∷ l))) bound n ≡ (
        name
        << "_bucket{le=\""
        << bound
        << "\","
        << print_pairs true (p ∷ l)
        << "}} "
        << Text.to_string_ℕ n
        << "\n")
unfolding bucket_line
bucket_line_doubled name bound p l n = rw (label_part-to_string p l) (
    rw (str_eq-brace (print_pairs true (p ∷ l)))
      (ap (λ t. name << "_bucket{le=\"" << bound << t) (rest (print_pairs true (p ∷ l)))))
  where
    rest :
        (s : String)
        → ("\"" << ("," << (s << "}")) << "} " << Text.to_string_ℕ n << "\n")
          ≡ ("\"," << s << "}} " << Text.to_string_ℕ n << "\n")
    rest s =
        ap (λ t. "\"" << t) (append_assoc "," (s << "}") tail ∙ ap (λ t. "," << t) closing)
        ∙ sym (append_assoc "\"" "," (s << "}} " << Text.to_string_ℕ n << "\n"))
      where
        tail : String
        tail = "} " << Text.to_string_ℕ n << "\n"

        closing : ((s << "}") << tail) ≡ (s << "}} " << Text.to_string_ℕ n << "\n")
        closing =
            append_assoc s "}" tail
            ∙ ap (λ t. s << t) (sym (append_assoc "}" "} " (Text.to_string_ℕ n << "\n")))
