-- ===== src/Service.antt =====
-- app/service.py: how a request is checked against the process, input by input.
pub mod Requested
pub mod Accepted
mod Inputs
mod Literal
mod Complex
mod Boxes
mod Tests
use py_qgis_wps.Prelude.{
  ℕ, suc, String, Bool, true, false, not, ◌&&◌, Option, none, some, List, [], ◌∷◌, Dict, lookup,
  insert, str_dec, holds, any, ltb, length, if◌then◌else◌,
}
use py_qgis_wps.Prelude.Text.{text_length}
use py_qgis_wps.Prelude.Int.{ℤ, max_zero}
use py_qgis_wps.Exceptions.{
  Exn, type_error, value_error, attribute_error, unbound_local_error, invalid_parameter_value,
  missing_parameter_value, Result, ok, raise,
}
use py_qgis_wps.Json.{
  Json, null, str, arr, obj, num, Items, nil, cons, Fields, end, field, get_field,
}
use py_qgis_wps.Access.{truthy}
use py_qgis_wps.Validator.{
  Mode, mode_none, AllowedValues, Value, validate_allowed_values, emptyvalidator,
}
pub use Inputs.*
pub use Literal.*
pub use Complex.*
pub use Boxes.*
unfoldable pub use Literal.{
  converter, convert, value_checked, check_valid, set_data, is_code, get_supported_uom,
  set_default_uom, uom_of, validate_literal,
}
unfoldable pub use Complex.{get_format, format_of, given_data, validate_complex}
unfoldable pub use Boxes.{len_of, box_data, box_crs, validate_box}

pub data InputKind : Type 0 where
  literal_input : LiteralInput → InputKind
  complex_input : ComplexInput → InputKind
  bounding_box_input : BoundingBoxInput → InputKind

-- An input of a process.
pub record InputDef : Type 0 where
  pub identifier : String
  pub min_occurs : ℕ
  pub max_occurs : ℕ
  pub kind : InputKind

module _ (conv : Conversions) where
  -- `inpt.clone().validate_input(inp)`; only an object has `get`.
  unfoldable pub validate_input : InputKind → Json → Result Given
  unfolding validate_literal validate_complex validate_box
  validate_input (literal_input i) (obj inpt) = validate_literal conv i inpt
  validate_input (complex_input i) (obj inpt) = validate_complex i inpt
  validate_input (bounding_box_input i) (obj inpt) = validate_box i inpt
  validate_input kind j = raise attribute_error

  unfoldable pub validate_values : InputKind → List Json → Result (List Given)
  unfolding validate_input
  validate_values kind [] = ok []
  validate_values kind (inp ∷ inputs) =
      let rest = validate_values kind inputs in
      elim (validate_input kind inp) [
        | raise e ↦ raise e
        | ok g ↦ elim rest [ raise e ↦ raise e | ok gs ↦ ok (g ∷ gs) ]
      ]

  -- One turn of the loop over the inputs of the process.
  unfoldable pub check_input :
      Dict String (List Json)
      → InputDef
      → Dict String (List Given)
      → Result (Dict String (List Given))
  unfolding lookup insert validate_values
  check_input requested i data_inputs = elim (lookup str_dec i.identifier requested) [
    | none ↦
        if ltb 0 i.min_occurs then raise (missing_parameter_value i.identifier) else ok data_inputs
    | some inputs ↦
        if ltb (length inputs) i.min_occurs
        then raise (missing_parameter_value i.identifier)
        else elim (validate_values i.kind inputs) [
          | raise e ↦ raise e
          | ok gs ↦ ok (insert str_dec i.identifier gs data_inputs)
        ]
  ]

  unfoldable pub check_inputs :
      Dict String (List Json)
      → List InputDef
      → Dict String (List Given)
      → Result (Dict String (List Given))
  unfolding check_input
  check_inputs requested [] data_inputs = ok data_inputs
  check_inputs requested (i ∷ defs) data_inputs = elim (check_input requested i data_inputs) [
    | raise e ↦ raise e
    | ok added ↦ check_inputs requested defs added
  ]

  -- `validate_request_inputs`: what becomes the inputs of the request. The outputs accept anything.
  unfoldable pub validate_request_inputs :
      List InputDef → Dict String (List Json) → Result (Dict String (List Given))
  unfolding check_inputs
  validate_request_inputs defs requested = check_inputs requested defs []
