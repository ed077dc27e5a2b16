-- ===== src/Validator/Tests.antt =====
-- Ranges on concrete numbers.
use py_qgis_wps.Prelude.{◌≡◌, ◌↔◌, refl, true, false, some}
use py_qgis_wps.Prelude.Int.{pos, negsuc}
use py_qgis_wps.Exceptions.{ok, raise, type_error}
use py_qgis_wps.Validator.{
  closed_open, number, text, simple, positive_value, range, validate_bounds, validate_range,
  validate_allowed_values,
}
use py_qgis_wps.Validator.Range.{InRange, validate_bounds-InRange}

validate_bounds-InRange_example :
    (validate_bounds (some (negsuc 4)) (some (pos 10)) (some (pos 5)) closed_open (pos 5) ≡ true)
    ↔ InRange (some (negsuc 4)) (some (pos 10)) (some (pos 5)) closed_open (pos 5)
validate_bounds-InRange_example =
    validate_bounds-InRange (some (negsuc 4)) (some (pos 10)) (some (pos 5)) closed_open (pos 5)

on_a_step :
    validate_allowed_values
      (λ s. s)
      (range (negsuc 4) (pos 10) (some (pos 5)) closed_open)
      (number (pos 5))
      simple
    ≡ ok true
unfolding validate_allowed_values
on_a_step = refl

upper_bound :
    validate_allowed_values
      (λ s. s)
      (range (negsuc 4) (pos 10) (some (pos 5)) closed_open)
      (number (pos 10))
      simple
    ≡ ok false
unfolding validate_allowed_values
upper_bound = refl

zero_not_positive : validate_range positive_value (number (pos 0)) ≡ ok false
unfolding validate_range
zero_not_positive = refl

text_in_a_range : validate_range positive_value (text "1") ≡ raise type_error
unfolding validate_range
text_in_a_range = refl
