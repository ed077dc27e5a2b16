-- ===== src/Service/Complex.antt =====
-- inout/inputs.py and inout/basic.py: complex inputs.
use py_qgis_wps.Prelude.{Option, none, some, List, [], ◌∷◌, if◌then◌else◌}
use py_qgis_wps.Exceptions.{unbound_local_error, invalid_parameter_value, Result, ok, raise}
use py_qgis_wps.Json.{Json, str, Fields, get_field}
use py_qgis_wps.Access.{truthy}
use py_qgis_wps.Validator.{emptyvalidator}
use py_qgis_wps.Service.Inputs.{Format, ComplexInput, Given, value, reference}
use py_qgis_wps.Service.Literal.{is_code}

-- `BasicComplex.get_format`
unfoldable pub get_format : List Format → Json → Option Format
unfolding is_code
get_format [] mime_type = none
get_format (f ∷ formats) mime_type =
    let rest = get_format formats mime_type in
    if is_code f.mime_type mime_type then some f else rest

-- The format of a complex input, which is one of the supported formats: without any, the variable
-- is only annotated and never assigned.
unfoldable pub format_of : List Format → Option Json → Result Format
unfolding get_format truthy
format_of formats mimetype =
    if truthy mimetype
    then elim mimetype [
      | none ↦ raise unbound_local_error
      | some m ↦ elim (get_format formats m) [
        | none ↦ raise (invalid_parameter_value "")
        | some f ↦ ok f
      ]
    ]
    else elim formats [ [] ↦ raise unbound_local_error | f ∷ rest ↦ ok f ]

-- `ComplexInput.validate_input`: data are checked by the empty validator, a reference is not.
unfoldable pub given_data : ComplexInput → Fields → Format → Result Given
unfolding get_field truthy emptyvalidator
given_data i inpt f = elim (get_field "href" inpt) [
  | none ↦
      if emptyvalidator i.mode
      then ok (value f (get_field "data" inpt))
      else raise (invalid_parameter_value "")
  | some href ↦
      if truthy (some href)
      then ok (
          reference f href (elim (get_field "method" inpt) [ none ↦ str "GET" | some m ↦ m ])
            (get_field "body" inpt))
      else if emptyvalidator i.mode
      then ok (value f (get_field "data" inpt))
      else raise (invalid_parameter_value "")
]

unfoldable pub validate_complex : ComplexInput → Fields → Result Given
unfolding format_of get_field given_data
validate_complex i inpt = elim (format_of i.supported_formats (get_field "mimeType" inpt)) [
  | raise e ↦ raise e
  | ok f ↦ given_data i inpt f
]
