-- ===== src/Service/Tests.antt =====
-- Checks of a process with a width between 0 and 100, in metres or feet.
use py_qgis_wps.Prelude.{
  ◌≤◌, ◌≡◌, refl, String, Option, none, some, List, [], ◌∷◌, Dict, lookup, str_dec, length, All,
}
use py_qgis_wps.Prelude.Int.{pos}
use py_qgis_wps.Exceptions.{Result, ok, raise, type_error, value_error, missing_parameter_value}
use py_qgis_wps.Json.{Json, str, num, obj, Fields, end, field, get_field}
use py_qgis_wps.Validator.{
  AllowedValues, Value, number, simple, range, closed_range, validate_allowed_values,
}
use py_qgis_wps.Validator.Range.{InRange}
use py_qgis_wps.Service.{
  Conversions, LiteralInput, InputDef, literal_input, Given, literal, validate_literal,
  validate_request_inputs, set_data,
}
use py_qgis_wps.Service.Requested.{IsRequested, values_of, validate_request_inputs-IsRequested}
use py_qgis_wps.Service.Accepted.{validate_literal-InRange, validate_literal-uom}

-- Only numbers of JSON are converted here.
abbrev number_of : Option Json → Result Value
number_of (some (num z)) = ok (number z)
number_of j = raise value_error

abbrev conv : Conversions
conv = record {
  convert_string = number_of;
  convert_integer = number_of;
  convert_float = number_of;
  convert_boolean = number_of;
  convert_any_uri = number_of;
  convert_time = number_of;
  convert_date = number_of;
  convert_datetime = number_of;
  convert_angle = number_of;
  layer_path = λ s. s;
}

abbrev width_range : AllowedValues
width_range = range (pos 0) (pos 100) none closed_range

abbrev width : LiteralInput
width = record {
  data_type = "integer";
  supported_uoms = "m" ∷ "ft" ∷ [];
  allowed_values = some width_range;
  mode = simple;
}

abbrev width_12 : Fields
width_12 = field "identifier" (str "width") (field "data" (num (pos 12)) end)

abbrev width_feet : Fields
width_feet = field "uom" (str "ft") width_12

accepted_12 : validate_literal conv width width_12 ≡ ok (literal (some "m") (number (pos 12)))
unfolding validate_literal set_data validate_allowed_values str_dec
accepted_12 = refl

validate_literal-InRange_example :
    InRange (some (pos 0)) (some (pos 100)) none closed_range (pos 12)
validate_literal-InRange_example =
    validate_literal-InRange conv width width_range width_12 (some "m") (pos 12) refl refl refl
      accepted_12

feet : get_field "uom" width_feet ≡ some (str "ft")
unfolding get_field str_dec
feet = refl

second_unit : validate_literal conv width width_feet ≡ raise type_error
second_unit = validate_literal-uom conv width width_feet "m" "ft" ("ft" ∷ []) refl feet (cc) (cc)

abbrev defs : List InputDef
defs =
    record { identifier = "width"; min_occurs = 1; max_occurs = 1; kind = literal_input width }
    ∷ record { identifier = "height"; min_occurs = 0; max_occurs = 1; kind = literal_input width }
    ∷ []

abbrev requested : Dict String (List Json)
requested = ("width", obj width_12 ∷ obj width_12 ∷ []) ∷ ("colour", obj width_12 ∷ []) ∷ []

-- Twice the input that may occur once; the one that is not declared is left out.
abbrev accepted : Dict String (List Given)
accepted =
    ("width", literal (some "m") (number (pos 12)) ∷ literal (some "m") (number (pos 12)) ∷ []) ∷ []

check_passes : validate_request_inputs conv defs requested ≡ ok accepted
unfolding validate_request_inputs set_data validate_allowed_values str_dec
check_passes = refl

validate_request_inputs-IsRequested_example :
    All (λ i. i.min_occurs ≤ length (values_of i.identifier requested)) defs
    × ((k : String) (gs : List Given)
        → lookup str_dec k accepted ≡ some gs
        → IsRequested conv requested defs k gs)
validate_request_inputs-IsRequested_example =
    validate_request_inputs-IsRequested conv defs requested accepted check_passes

missing_refused :
    validate_request_inputs conv defs (("colour", []) ∷ [])
    ≡ raise (missing_parameter_value "width")
unfolding validate_request_inputs str_dec
missing_refused = refl
