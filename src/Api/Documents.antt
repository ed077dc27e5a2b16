-- ===== src/Api/Documents.antt =====
-- Checks of documents: the inputs of an execution and the schema of a range.
use py_qgis_wps.Prelude.{
  ◌≡◌, ◌↔◌, refl, true, false, none, some, List, [], ◌∷◌, Dict, String, lookup, str_dec,
}
use py_qgis_wps.Prelude.Int.{pos}
use py_qgis_wps.Exceptions.{ok, raise, invalid_parameter_value}
use py_qgis_wps.Json.{Json, null, str, num, arr, obj, nil, cons, end, field}
use py_qgis_wps.Validator.{AllowedValues, range, open_closed, number, validate_range}
use py_qgis_wps.Api.Inputs.{InputType, literal_type, bounding_box_type, get_inputs_from_document}
use py_qgis_wps.Api.Inputs.Read.{IsRead, get_inputs_from_document-IsRead}
use py_qgis_wps.Api.Schema.{Schema, ogcapi_schema}
use py_qgis_wps.Api.Schema.Ranges.{Satisfies, ogcapi_schema-validate_range}

abbrev input_types : Dict String InputType
input_types = ("width", literal_type) ∷ ("extent", bounding_box_type) ∷ []

abbrev document : Dict String Json
document =
    ("colour", str "red")
    ∷ ("width", arr (cons (num (pos 3)) (cons (obj (field "value" (num (pos 4)) end)) nil)))
    ∷ []

abbrev widths : List Json
widths =
    obj (field "identifier" (str "width") (field "data" (num (pos 3)) end))
    ∷ obj (field "identifier" (str "width") (field "data" (num (pos 4)) (field "uom" null end)))
    ∷ []

document_read :
    get_inputs_from_document (λ j. ok j) input_types document ≡ ok (("width", widths) ∷ [])
unfolding get_inputs_from_document str_dec
document_read = refl

width_there : lookup str_dec "width" (("width", widths) ∷ []) ≡ some widths
unfolding lookup str_dec
width_there = refl

get_inputs_from_document-IsRead_example : IsRead input_types document "width" widths
get_inputs_from_document-IsRead_example =
    get_inputs_from_document-IsRead (λ j. ok j) input_types document (("width", widths) ∷ [])
      "width" widths document_read width_there

box_missing :
    get_inputs_from_document (λ j. ok j) input_types (("extent", obj end) ∷ [])
    ≡ raise (invalid_parameter_value "")
unfolding get_inputs_from_document str_dec
box_missing = refl

abbrev percent : AllowedValues
percent = range (pos 0) (pos 100) none open_closed

abbrev percent_schema : Schema
percent_schema = record {
  minimum = some (pos 0);
  exclusive_minimum = true;
  maximum = some (pos 100);
  exclusive_maximum = false;
  multiple_of = none;
  enum = none;
}

percent_published : ogcapi_schema percent ≡ ok percent_schema
unfolding ogcapi_schema
percent_published = refl

ogcapi_schema-validate_range_example :
    Satisfies percent_schema (pos 100) ↔ (validate_range percent (number (pos 100)) ≡ ok true)
ogcapi_schema-validate_range_example =
    ogcapi_schema-validate_range percent percent_schema (pos 100) refl refl percent_published

-- With a spacing the two differ: 4 is 1 + 3, and no multiple of 3.
abbrev spaced : AllowedValues
spaced = range (pos 1) (pos 10) (some (pos 3)) open_closed

four_taken : validate_range spaced (number (pos 4)) ≡ ok true
unfolding validate_range
four_taken = refl
