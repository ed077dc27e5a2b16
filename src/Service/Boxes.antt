-- ===== src/Service/Boxes.antt =====
-- inout/inputs.py: bounding box inputs.
use py_qgis_wps.Prelude.{
  ℕ, suc, String, Option, none, some, ◌∷◌, str_dec, holds, any, ltb, if◌then◌else◌,
}
use py_qgis_wps.Prelude.Text.{text_length}
use py_qgis_wps.Exceptions.{type_error, invalid_parameter_value, Result, ok, raise}
use py_qgis_wps.Json.{Json, str, arr, obj, Items, nil, cons, Fields, end, field, get_field}
use py_qgis_wps.Access.{truthy}
use py_qgis_wps.Service.Inputs.{BoundingBoxInput, Given, box}
use py_qgis_wps.Service.Literal.{is_code}

abbrev pub items_length : Items → ℕ
items_length nil = 0
items_length (cons j js) = suc (items_length js)

abbrev pub fields_length : Fields → ℕ
fields_length end = 0
fields_length (field k j d) = suc (fields_length d)

-- `len(data)`: `none` is the `TypeError`. The keys of an object are counted as they are written.
unfoldable pub len_of : Json → Option ℕ
len_of (arr l) = some (items_length l)
len_of (str s) = some (text_length s)
len_of (obj d) = some (fields_length d)
len_of j = none

-- `BoundingBoxInput.validate_input`
unfoldable pub box_data : ℕ → Option Json → Result Json
unfolding truthy len_of
box_data dimensions none = raise (invalid_parameter_value "")
box_data dimensions (some j) =
    if truthy (some j)
    then elim (len_of j) [
      | none ↦ raise type_error
      | some n ↦ if ltb n dimensions then raise (invalid_parameter_value "") else ok j
    ]
    else raise (invalid_parameter_value "")

unfoldable pub box_crs : BoundingBoxInput → Option Json → Result String
unfolding truthy is_code
box_crs i none = ok i.crs
box_crs i (some (str s)) =
    if holds (str_dec s "")
    then ok i.crs
    else if any (λ c. holds (str_dec c s)) (i.crs ∷ i.other_crss)
    then ok s
    else raise (invalid_parameter_value "")
box_crs i (some j) = if truthy (some j) then raise (invalid_parameter_value "") else ok i.crs

unfoldable pub validate_box : BoundingBoxInput → Fields → Result Given
unfolding box_data box_crs get_field
validate_box i inpt = elim (box_data i.dimensions (get_field "data" inpt)) [
  | raise e ↦ raise e
  | ok j ↦ elim (box_crs i (get_field "crs" inpt)) [
    | raise e ↦ raise e
    | ok c ↦ ok (box j c (get_field "dimensions" inpt))
  ]
]
