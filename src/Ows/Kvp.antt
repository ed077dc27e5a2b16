-- ===== src/Ows/Kvp.antt =====
-- ogc/ows/request.py: `get_data_from_kvp`, the inputs and outputs of a request as text.
pub mod RoundTrip
use py_qgis_wps.Prelude.{
  String, Option, none, some, List, [], ◌∷◌, ◌++◌, Dict, lookup, insert, str_dec, holds, Bool, true,
  false, if◌then◌else◌,
}
use py_qgis_wps.Prelude.Text.{split}

-- `io`: the identifier, the data and the attributes.
abbrev pub Io : Type 0
Io = Dict String String

-- What stands under a key: the list of an input, or one dictionary.
pub data Entry : Type 0 where
  many : List Io → Entry
  single : Io → Entry

-- `(a, b) = s.split('=')`: `none` is the `ValueError`.
unfoldable pub two_parts : List String → Option (String × String)
two_parts (a ∷ b ∷ []) = some (a, b)
two_parts _ = none

unfoldable pub pair : String → Option (String × String)
unfolding split two_parts
pair s = two_parts (split "=" s)

-- `xlink:href` is kept under another name.
unfoldable pub set_attribute : String → String → Io → Io
unfolding insert
set_attribute attribute value io =
    insert str_dec (if holds (str_dec attribute "xlink:href") then "href" else attribute) value io

unfoldable pub set_attributes : List String → Io → Option Io
unfolding pair set_attribute
set_attributes [] io = some io
set_attributes (attr ∷ rest) io = elim (pair attr) [
  | none ↦ none
  | some (attribute, value) ↦ set_attributes rest (set_attribute attribute value io)
]

-- The first field gives the identifier and its value, the others are attributes.
unfoldable pub read_fields : List String → Option (String × Io)
unfolding pair set_attributes insert
read_fields [] = none
read_fields (first ∷ attrs) = elim (pair first) [
  | none ↦ none
  | some (identifier, val) ↦
      elim (set_attributes attrs (("identifier", identifier) ∷ ("data", val) ∷ [])) [
        | none ↦ none
        | some io ↦ some (identifier, io)
      ]
]

unfoldable pub read_item : String → Option (String × Io)
unfolding split read_fields
read_item d = read_fields (split "@" d)

-- `the_data[identifier].append(io)`, which a dictionary refuses.
unfoldable pub append_io : Io → Option Entry → Option Entry
append_io io none = some (many (io ∷ []))
append_io io (some (many l)) = some (many (l ++ io ∷ []))
append_io io (some (single d)) = none

-- The body of the `try`: `none` is an exception, before which nothing is changed.
unfoldable pub store_item :
    Bool → Option (String × Io) → Dict String Entry → Option (Dict String Entry)
unfolding insert lookup append_io
store_item part none the_data = none
store_item false (some (identifier, io)) the_data =
    some (insert str_dec identifier (single io) the_data)
store_item true (some (identifier, io)) the_data =
    elim (append_io io (lookup str_dec identifier the_data)) [
      | none ↦ none
      | some e ↦ some (insert str_dec identifier e the_data)
    ]

-- One turn of the loop; `part` is whether the data are the inputs.
unfoldable pub add_item : Bool → String → Dict String Entry → Dict String Entry
unfolding store_item read_item insert
add_item part d the_data = elim (store_item part (read_item d) the_data) [
  | some added ↦ added
  | none ↦ insert str_dec d (single (("identifier", d) ∷ ("data", "") ∷ [])) the_data
]

unfoldable pub add_items : Bool → List String → Dict String Entry → Dict String Entry
unfolding add_item
add_items part [] the_data = the_data
add_items part (d ∷ ds) the_data = add_items part ds (add_item part d the_data)

unfoldable pub get_data_from_kvp : Option String → Bool → Dict String Entry
unfolding split add_items
get_data_from_kvp none part = []
get_data_from_kvp (some data_) part = add_items part (split ";" data_) []
