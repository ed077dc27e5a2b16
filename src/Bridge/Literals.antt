-- ===== src/Bridge/Literals.antt =====
-- pyqgiswps/executors/processingio.py: the parameters that become literals.
use py_qgis_wps.Prelude.{
  ℕ, zero, suc, String, Bool, true, false, Option, none, some, List, [], ◌∷◌, map, length, ltb,
  if◌then◌else◌,
}
use py_qgis_wps.Prelude.Int.{ℤ, pos, negsuc}
use py_qgis_wps.Exceptions.{index_error, invalid_parameter_value, Result, ok, raise}
use py_qgis_wps.Json.{Json, null, bool, num, str, arr, nil, cons}
use py_qgis_wps.Validator.{AllowedValues, text, value_type, closed_range, range, non_negative_value}
use py_qgis_wps.Bridge.Params.{
  DefaultValue, python, qvariant, NumberType, double_type, integer_type, DistanceUnit, meters,
  kilometers, feet, nautical_miles, yards, miles, degrees, centimeters, millimeters, other_unit,
  FieldType, any_field, numeric_field, string_field, date_time_field, Kind, string_param,
  boolean_param, band_param, enum_param, number_param, distance_param, scale_param, duration_param,
  field_param, Arguments, WpsInput, make_literal, add_metadata,
}

-- `DISTANCE_UOMS`
unfoldable pub distance_uom : DistanceUnit → List String
distance_uom meters = "meter" ∷ []
distance_uom kilometers = "kilometer" ∷ []
distance_uom feet = "feet" ∷ []
distance_uom nautical_miles = "nautical miles" ∷ []
distance_uom yards = "yards" ∷ []
distance_uom miles = "miles" ∷ []
distance_uom degrees = "degrees" ∷ []
distance_uom centimeters = "centimeter" ∷ []
distance_uom millimeters = "millimeter" ∷ []
distance_uom other_unit = []

unfoldable pub number_data_type : NumberType → String
number_data_type double_type = "float"
number_data_type integer_type = "integer"

unfoldable pub field_type_name : FieldType → String
field_type_name any_field = "Any"
field_type_name numeric_field = "Numeric"
field_type_name string_field = "String"
field_type_name date_time_field = "DateTime"

-- `AllowedValues(values=...)`
unfoldable pub allowed_texts : List String → AllowedValues
allowed_texts texts = record {
  allowed_type = value_type;
  values = some (map text texts);
  minval = none;
  maxval = none;
  spacing = none;
  range_closure = closed_range;
}

unfoldable pub allowed_range : ℤ → ℤ → Option AllowedValues
allowed_range lo hi = some (range lo hi none closed_range)

-- `l[i]`: `none` is the `IndexError`.
abbrev pub get_elem? {ℓ} : {A : Type ℓ} → List A → ℕ → Option A
get_elem? [] i = none
get_elem? (x ∷ xs) zero = some x
get_elem? (x ∷ xs) (suc i) = get_elem? xs i

-- An `int`, which `True` and `False` are.
unfoldable pub as_index : Json → Result (Option ℤ)
as_index (num z) = ok (some z)
as_index (bool true) = ok (some (pos 1))
as_index (bool false) = ok (some (pos 0))
as_index j = raise (invalid_parameter_value "")

-- The index that the default value of an enumeration is; `none` where there is no default value.
unfoldable pub enum_index : DefaultValue → Result (Option ℤ)
unfolding as_index
enum_index (python null) = ok none
enum_index (python (arr nil)) = raise index_error
enum_index (python (arr (cons j js))) = as_index j
enum_index (python j) = as_index j
enum_index (qvariant j) = raise (invalid_parameter_value "")

-- An index out of range counts as 0.
unfoldable pub in_range : ℕ → ℤ → ℕ
in_range n (pos i) = if ltb i n then i else 0
in_range n (negsuc i) = 0

unfoldable pub enum_default : List String → DefaultValue → Json → Result Json
unfolding enum_index in_range
enum_default options d default = elim (enum_index d) [
  | raise e ↦ raise e
  | ok none ↦ ok default
  | ok (some z) ↦ elim (get_elem? options (in_range (length options) z)) [
    | none ↦ raise index_error
    | some option ↦ ok (str option)
  ]
]

unfoldable pub enum_input : List String → Bool → DefaultValue → Arguments → Result (Option WpsInput)
unfolding enum_default make_literal allowed_texts
enum_input options multiple d k = elim (enum_default options d k.default) [
  | raise e ↦ raise e
  | ok default ↦ ok (
      some (
        make_literal
          (record k { default = default; max_occurs = if multiple then length options else 1 })
          "string" [] (some (allowed_texts options))))
]

-- `parse_literal_input`
unfoldable pub parse_literal_input : Kind → DefaultValue → Arguments → Result (Option WpsInput)
unfolding enum_input make_literal add_metadata allowed_range distance_uom number_data_type
    field_type_name
parse_literal_input string_param d k = ok (some (make_literal k "string" [] none))
parse_literal_input boolean_param d k = ok (some (make_literal k "boolean" [] none))
parse_literal_input (enum_param options multiple) d k = enum_input options multiple d k
parse_literal_input (number_param t lo hi) d k =
    ok (some (make_literal k (number_data_type t) [] (allowed_range lo hi)))
parse_literal_input (distance_param parent unit unit_name lo hi) d k = ok (
    some (
      make_literal
        (add_metadata
          (("processing:parentParameterName", parent) ∷ ("processing:defaultUnit", unit_name) ∷ [])
          k)
        "length" (distance_uom unit) (allowed_range lo hi)))
parse_literal_input (scale_param lo hi) d k =
    ok (some (make_literal k "scale" [] (allowed_range lo hi)))
parse_literal_input (duration_param unit_name lo hi) d k = ok (
    some (
      make_literal (add_metadata (("processing:defaultUnit", unit_name) ∷ []) k) "time" []
        (allowed_range lo hi)))
parse_literal_input (field_param parent t) d k = ok (
    some (
      make_literal
        (add_metadata
          (("processing:parentLayerParameterName", parent)
            ∷ ("processing:dataType", field_type_name t)
            ∷ [])
          k)
        "string" [] none))
parse_literal_input band_param d k =
    ok (some (make_literal k "integer" [] (some non_negative_value)))
parse_literal_input kind d k = ok none
