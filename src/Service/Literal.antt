-- ===== src/Service/Literal.antt =====
-- inout/inputs.py, inout/basic.py and inout/literaltypes.py: literal inputs.
use py_qgis_wps.Prelude.{
  String, Bool, false, Option, none, some, List, [], ◌∷◌, str_dec, holds, if◌then◌else◌,
}
use py_qgis_wps.Exceptions.{type_error, value_error, invalid_parameter_value, Result, ok, raise}
use py_qgis_wps.Json.{Json, str, Fields, get_field}
use py_qgis_wps.Access.{truthy}
use py_qgis_wps.Validator.{Value, validate_allowed_values}
use py_qgis_wps.Service.Inputs.{Conversions, LiteralInput, Given, literal}

module _ (conv : Conversions) where
  open conv use {
    convert_string, convert_integer, convert_float, convert_boolean, convert_any_uri, convert_time,
    convert_date, convert_datetime, convert_angle, layer_path,
  }

  -- The `match` over the data type; `none` is a type that is not known.
  unfoldable pub converter : String → Option (Option Json → Result Value)
  converter data_type =
      if holds (str_dec data_type "string")
      then some convert_string
      else if holds (str_dec data_type "integer")
      then some convert_integer
      else if holds (str_dec data_type "float")
      then some convert_float
      else if holds (str_dec data_type "boolean")
      then some convert_boolean
      else if holds (str_dec data_type "anyURI")
      then some convert_any_uri
      else if holds (str_dec data_type "time")
      then some convert_time
      else if holds (str_dec data_type "date")
      then some convert_date
      else if holds (str_dec data_type "dateTime")
      then some convert_datetime
      else if holds (str_dec data_type "scale")
      then some convert_float
      else if holds (str_dec data_type "angle")
      then some convert_angle
      else if holds (str_dec data_type "length")
      then some convert_float
      else none

  -- `except ValueError`
  unfoldable pub value_checked : Result Value → Result Value
  value_checked (raise value_error) = raise (invalid_parameter_value "")
  value_checked r = r

  unfoldable pub convert : String → Option Json → Result Value
  unfolding converter value_checked
  convert data_type data_ = elim (converter data_type) [
    | none ↦ raise (invalid_parameter_value "")
    | some f ↦ value_checked (f data_)
  ]

  -- `check_valid`
  unfoldable pub check_valid : LiteralInput → Value → Result Value
  unfolding validate_allowed_values
  check_valid i x = elim i.allowed_values [
    | none ↦ ok x
    | some a ↦ elim (validate_allowed_values layer_path a x i.mode) [
      | raise e ↦ raise e
      | ok valid ↦ if valid then ok x else raise (invalid_parameter_value "")
    ]
  ]

  -- `set_data`; a type that is empty converts nothing, which no literal has.
  unfoldable pub set_data : LiteralInput → Option Json → Result Value
  unfolding convert check_valid
  set_data i data_ = elim (convert i.data_type data_) [ raise e ↦ raise e | ok x ↦ check_valid i x ]

-- `uom.code == code_or_ref`
unfoldable pub is_code : String → Json → Bool
is_code code (str s) = holds (str_dec code s)
is_code code j = false

-- `get_supported_uom`: `uom.ref()` calls the text, or the `None`, that the property `ref` is.
unfoldable pub get_supported_uom : List String → Json → Result (Option String)
unfolding is_code
get_supported_uom [] code_or_ref = ok none
get_supported_uom (code ∷ uoms) code_or_ref =
    if is_code code code_or_ref then ok (some code) else raise type_error

unfoldable pub set_default_uom : List String → Option String
set_default_uom [] = none
set_default_uom (code ∷ uoms) = some code

-- `if code: self.uom = code else: self.set_default_uom()`
unfoldable pub uom_of : List String → Option Json → Result (Option String)
unfolding get_supported_uom set_default_uom truthy
uom_of uoms none = ok (set_default_uom uoms)
uom_of uoms (some code) =
    if truthy (some code)
    then elim (get_supported_uom uoms code) [
      | raise e ↦ raise e
      | ok none ↦ raise (invalid_parameter_value "")
      | ok (some c) ↦ ok (some c)
    ]
    else ok (set_default_uom uoms)

-- `LiteralInput.validate_input`
unfoldable pub validate_literal : Conversions → LiteralInput → Fields → Result Given
unfolding uom_of get_field set_data
validate_literal conv i inpt = elim (uom_of i.supported_uoms (get_field "uom" inpt)) [
  | raise e ↦ raise e
  | ok uom ↦ elim (set_data conv i (get_field "data" inpt)) [
    | raise e ↦ raise e
    | ok x ↦ ok (literal uom x)
  ]
]
