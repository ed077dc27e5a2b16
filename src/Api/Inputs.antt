-- ===== src/Api/Inputs.antt =====
-- ogc/api/request.py: `get_inputs_from_document`, the inputs of an execution document.
pub mod Read
use py_qgis_wps.Prelude.{
  ℕ, String, Bool, true, false, Option, none, some, List, [], ◌∷◌, Dict, lookup, str_dec, holds,
  if◌then◌else◌,
}
use py_qgis_wps.Prelude.Text.{upper}
use py_qgis_wps.Exceptions.{
  Exn, key_error, type_error, attribute_error, invalid_parameter_value, Result, ok, raise,
}
use py_qgis_wps.Json.{Json, null, str, arr, obj, Items, nil, cons, Fields, end, field, get_field}

pub data InputType : Type 0 where
  literal_type complex_type bounding_box_type other_type : InputType

-- `data.get(k)` and `data[k]`
unfoldable pub get_or_null : String → Fields → Json
unfolding get_field
get_or_null k d = elim (get_field k d) [ none ↦ null | some v ↦ v ]

unfoldable pub required_field : String → Fields → Result Json
unfolding get_field
required_field k d = elim (get_field k d) [ none ↦ raise key_error | some v ↦ ok v ]

-- An input that is built, or the exception of a part of it.
unfoldable pub with_part : Result Json → (Json → Fields) → Result Json
with_part (raise e) build = raise e
with_part (ok j) build = ok (obj (build j))

unfoldable pub literal_data : String → Json → Result Json
unfolding required_field get_or_null with_part
literal_data ident (obj d) = with_part (required_field "value" d) (λ value.
    field "identifier" (str ident) (field "data" value (field "uom" (get_or_null "uom" d) end)))
literal_data ident data_ = ok (obj (field "identifier" (str ident) (field "data" data_ end)))

-- `data.get('method', 'GET').upper()`
unfoldable pub method_of : Option Json → Result Json
unfolding upper
method_of none = ok (str "GET")
method_of (some (str s)) = ok (str (upper s))
method_of (some j) = raise attribute_error

unfoldable pub reference_data : String → Fields → Result Json
unfolding required_field get_or_null with_part method_of get_field
reference_data ident d = elim (required_field "href" d) [
  | raise e ↦ raise e
  | ok href ↦ with_part (method_of (get_field "method" d)) (λ method.
      field "identifier" (str ident) (
        field "href" href (
          field "method" method
            (field "body" (get_or_null "body" d) (field "mimeType" (get_or_null "type" d) end)))))
]

unfoldable pub is_base64 : Json → Bool
is_base64 (str s) = holds (str_dec s "base64")
is_base64 j = false

-- `except KeyError`
unfoldable pub key_checked : Result (List Json) → Result (List Json)
key_checked (raise key_error) = raise (invalid_parameter_value "")
key_checked r = r

-- `base64.b64decode`, which may raise
module _ (b64decode : Json → Result Json) where
  -- A value that is given: its encoding is kept only if it was not decoded.
  unfoldable pub value_data : String → Json → Fields → Result Json
  unfolding is_base64 get_or_null with_part
  value_data ident value d =
      if is_base64 (get_or_null "encoding" d)
      then with_part (b64decode value) (λ decoded. field "identifier" (str ident) (
          field "mimeType" (get_or_null "mediaType" d)
            (field "schema" (get_or_null "schema" d) (field "data" decoded end))))
      else ok (
          obj (
            field "identifier" (str ident) (
              field "mimeType" (get_or_null "mediaType" d) (
                field "schema" (get_or_null "schema" d)
                  (field "encoding" (get_or_null "encoding" d) (field "data" value end))))))

  unfoldable pub complex_data : String → Json → Result Json
  unfolding value_data reference_data get_or_null
  complex_data ident (obj d) = elim (get_or_null "value" d) [
    | null ↦ reference_data ident d
    | value ↦ value_data ident value d
  ]
  complex_data ident data_ = raise attribute_error

  unfoldable pub box_of : String → Json → Result Json
  unfolding required_field get_or_null with_part
  box_of ident (obj d) = with_part (required_field "bbox" d) (λ bbox.
      field "identifier" (str ident) (field "data" bbox (field "crs" (get_or_null "crs" d) end)))
  box_of ident data_ = raise type_error

  -- `_input`
  unfoldable pub input_of : InputType → String → Json → Result Json
  unfolding literal_data complex_data box_of
  input_of literal_type ident data_ = literal_data ident data_
  input_of complex_type ident data_ = complex_data ident data_
  input_of bounding_box_type ident data_ = box_of ident data_
  input_of other_type ident data_ = ok (obj (field "identifier" (str ident) end))

  unfoldable pub inputs_of_items : InputType → String → Items → Result (List Json)
  unfolding input_of
  inputs_of_items typeclass ident nil = ok []
  inputs_of_items typeclass ident (cons data_ l) =
      let rest = inputs_of_items typeclass ident l in
      elim (input_of typeclass ident data_) [
        | raise e ↦ raise e
        | ok j ↦ elim rest [ raise e ↦ raise e | ok js ↦ ok (j ∷ js) ]
      ]

  unfoldable pub all_inputs : InputType → String → Json → Result (List Json)
  unfolding inputs_of_items
  all_inputs typeclass ident (arr l) = inputs_of_items typeclass ident l
  all_inputs typeclass ident data_ = inputs_of_items typeclass ident (cons data_ nil)

  -- `_inputs` and the `dict` of it, over the `inputs` of the document
  unfoldable pub get_inputs_from_document :
      Dict String InputType → Dict String Json → Result (Dict String (List Json))
  unfolding lookup all_inputs key_checked
  get_inputs_from_document typeclasses [] = ok []
  get_inputs_from_document typeclasses ((ident, inpts) ∷ rest) =
      let later = get_inputs_from_document typeclasses rest in
      elim (lookup str_dec ident typeclasses) [
        | none ↦ later
        | some typeclass ↦ elim (key_checked (all_inputs typeclass ident inpts)) [
          | raise e ↦ raise e
          | ok l ↦ elim later [ raise e ↦ raise e | ok d ↦ ok ((ident, l) ∷ d) ]
        ]
      ]
