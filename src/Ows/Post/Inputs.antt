-- ===== src/Ows/Post/Inputs.antt =====
-- ogc/ows/request.py: `get_inputs_from_xml`.
use py_qgis_wps.Prelude.{
  String, Option, none, some, List, [], ◌∷◌, ◌++◌, Dict, lookup, insert, str_dec, holds,
  if◌then◌else◌,
}
use py_qgis_wps.Prelude.Text.{lower}
use py_qgis_wps.Exceptions.{value_error, Result, ok, raise}
use py_qgis_wps.Json.{Json, null, str, arr, obj, nil, cons, Fields, end, field}

-- What is used of owslib's `BoundingBox`: the numbers, the dimensions and `crs.id`.
pub record Bbox : Type 0 where
  pub minx : Json
  pub miny : Json
  pub maxx : Json
  pub maxy : Json
  pub dimensions : Json
  pub crs : Option String

-- What is used of lxml, with `base64.b64decode` and owslib. `xpath` is with the namespaces of the
-- program, `attrib` is `attrib.get`, `fromstring` gives none where it raises.
pub record Xml : Type 1 where
  pub Element : Type 0
  pub fromstring : String → Option Element
  pub tag : Element → String
  pub text : Element → Option String
  pub attrib : Element → String → Option String
  pub children : Element → List Element
  pub xpath : Element → String → List Element
  pub tostring : Element → String
  pub b64decode : Option String → Result Json
  pub bounding_box : Element → Result Bbox

unfoldable pub text_json : Option String → Json
text_json none = null
text_json (some t) = str t

-- `str(text)`
unfoldable pub str_of : Option String → String
str_of none = "None"
str_of (some t) = t

unfoldable pub or_default : Option String → String → String
or_default none default = default
or_default (some t) default = t

pub option_dec : Discrete (Option String)
option_dec = hlevel str_dec

-- A key of `inpt` that is the text of an element: without a text it is `None`, which nothing reads.
unfoldable pub text_field : Option String → Json → Fields → Fields
text_field none j d = d
text_field (some k) j d = field k j d

unfoldable pub crs_field : Option String → Fields
crs_field none = end
crs_field (some crs) = field "crs" (str crs) end

module _ (xml : Xml) where
  open xml use {Element, text, attrib, children, xpath, tostring, b64decode, bounding_box}

  unfoldable pub get_rawvalue : Option String → Option String → Result Json
  unfolding text_json
  get_rawvalue content none = ok (text_json content)
  get_rawvalue content (some encoding) =
      if holds (str_dec encoding "base64") then b64decode content else ok (text_json content)

  -- `if len(el.getchildren()) > 0: ... el[0] ... else: ... el.text ...`
  unfoldable pub content_of : Element → Option String → Result Json
  unfolding get_rawvalue
  content_of el encoding = elim (children el) [
    | [] ↦ get_rawvalue (text el) encoding
    | value_el ∷ rest ↦ ok (str (tostring value_el))
  ]

  unfoldable pub literal_input : Option String → Element → Json
  unfolding text_json str_of or_default
  literal_input identifier el = obj (
      field "identifier" (text_json identifier) (
        field "data" (str (str_of (text el))) (
          field "uom" (str (or_default (attrib el "uom") ""))
            (field "datatype" (str (or_default (attrib el "datatype") "")) end))))

  unfoldable pub complex_input : Option String → Element → Result Json
  unfolding text_json or_default content_of lower
  complex_input identifier el =
      let encoding = lower (or_default (attrib el "encoding") "") in
      elim (content_of el (some encoding)) [
        | raise e ↦ raise e
        | ok content ↦ ok (
            obj (
              field "identifier" (text_json identifier) (
                field "mimeType" (str (or_default (attrib el "mimeType") "")) (
                  field "encoding" (str encoding) (
                    field "schema" (str (or_default (attrib el "schema") "")) (
                      field "method" (str (or_default (attrib el "method") "GET"))
                        (field "data" content end)))))))
      ]

  -- `_get_reference_body` of the first body, where there is one
  unfoldable pub body_field : List Element → Result Fields
  unfolding content_of
  body_field [] = ok end
  body_field (b ∷ bs) = elim (content_of b none) [
    | raise e ↦ raise e
    | ok content ↦ ok (field "body" content end)
  ]

  unfoldable pub reference_input : Option String → Element → Result Json
  unfolding text_json text_field or_default body_field
  reference_input identifier el = elim (body_field (xpath el "./wps:Body")) [
    | raise e ↦ raise e
    | ok body ↦ ok (
        obj (
          field "identifier" (text_json identifier) (
            text_field identifier (text_json (text el)) (
              field "href" (str (or_default (attrib el "{http://www.w3.org/1999/xlink}href") "")) (
                field "mimeType" (str (or_default (attrib el "mimeType") ""))
                  (field "method" (str (or_default (attrib el "method") "GET")) body))))))
  ]

  unfoldable pub box_json : Option String → Bbox → Json
  unfolding text_json crs_field
  box_json identifier b = obj (
      field "identifier" (text_json identifier) (
        field "data" (arr (cons b.minx (cons b.miny (cons b.maxx (cons b.maxy nil)))))
          (field "dimensions" b.dimensions (crs_field b.crs))))

  unfoldable pub box_inputs : Option String → List Element → Result (List Json)
  unfolding box_json
  box_inputs identifier [] = ok []
  box_inputs identifier (el ∷ els) =
      let rest = box_inputs identifier els in
      elim (bounding_box el) [
        | raise e ↦ raise e
        | ok b ↦ elim rest [ raise e ↦ raise e | ok l ↦ ok (box_json identifier b ∷ l) ]
      ]

  abbrev pub one_input : Result Json → Result (List Json)
  one_input r = elim r [ raise e ↦ raise e | ok j ↦ ok (j ∷ []) ]

  -- What is appended for an element: the first kind of data that it has.
  unfoldable pub inputs_of_element : Option String → Element → Result (List Json)
  unfolding literal_input complex_input reference_input box_inputs
  inputs_of_element identifier el = elim (xpath el "./wps:Data/wps:LiteralData") [
    | l ∷ ls ↦ ok (literal_input identifier l ∷ [])
    | [] ↦ elim (xpath el "./wps:Data/wps:ComplexData") [
      | c ∷ cs ↦ one_input (complex_input identifier c)
      | [] ↦ elim (xpath el "./wps:Reference") [
        | r ∷ rs ↦ one_input (reference_input identifier r)
        | [] ↦ box_inputs identifier (xpath el "./wps:Data/wps:BoundingBoxData")
      ]
    ]
  ]

  -- `[identifier_el] = ...`
  unfoldable pub only_element : List Element → Result Element
  only_element (e ∷ []) = ok e
  only_element es = raise value_error

abbrev pub Inputs : Type 0
Inputs = Dict (Option String) (List Json)

-- `the_inputs[identifier].append(...)`, on a list that is made where it is missing
unfoldable pub append_inputs : Option String → List Json → Inputs → Inputs
unfolding lookup insert
append_inputs identifier l d = elim (lookup option_dec identifier d) [
  | none ↦ insert option_dec identifier l d
  | some before ↦ insert option_dec identifier (before ++ l) d
]

module _ (xml : Xml) where
  open xml use {Element, text, xpath}

  -- One turn of the loop; an exception ends the reading, and what was read with it.
  unfoldable pub add_element : Element → Inputs → Result Inputs
  unfolding only_element inputs_of_element append_inputs
  add_element el d = elim (only_element xml (xpath el "./ows:Identifier")) [
    | raise e ↦ raise e
    | ok i ↦ elim (inputs_of_element xml (text i) el) [
      | raise e ↦ raise e
      | ok l ↦ ok (append_inputs (text i) l d)
    ]
  ]

  unfoldable pub add_elements : List Element → Inputs → Result Inputs
  unfolding add_element
  add_elements [] d = ok d
  add_elements (el ∷ els) d = elim (add_element el d) [
    | raise e ↦ raise e
    | ok added ↦ add_elements els added
  ]

  unfoldable pub get_inputs_from_xml : Element → Result Inputs
  unfolding add_elements
  get_inputs_from_xml doc = add_elements (xpath doc "/wps:Execute/wps:DataInputs/wps:Input") []
