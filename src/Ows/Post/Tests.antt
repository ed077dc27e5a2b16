-- ===== src/Ows/Post/Tests.antt =====
-- Documents as trees, with the names of elements written with their prefixes.
use py_qgis_wps.Prelude.{
  ◌≡◌, refl, String, true, Option, none, some, List, [], ◌∷◌, ◌++◌, Dict, map, lookup, str_dec,
  holds, if◌then◌else◌,
}
use py_qgis_wps.Prelude.Int.{ℤ, pos}
use py_qgis_wps.Prelude.Text.{append, split, join, lower}
use py_qgis_wps.Exceptions.{attribute_error, value_error, no_applicable_code, Result, ok, raise}
use py_qgis_wps.Json.{Json, str}
use py_qgis_wps.Request.{ServerConfig}
use py_qgis_wps.Request
use py_qgis_wps.Validator.{mode_none, Value, number}
use py_qgis_wps.Service.{literal, Conversions, InputDef, literal_input, validate_request_inputs}
use py_qgis_wps.Ows.Kvp.{get_data_from_kvp}
use py_qgis_wps.Ows.Kvp.RoundTrip.{print_items}
use py_qgis_wps.Ows.Get.{Arguments, ows_request, parse_get_request}
use py_qgis_wps.Ows.Post.{post_request, parse_post_request}
use py_qgis_wps.Ows.Post.Inputs.{Xml, Inputs, get_inputs_from_xml}
use py_qgis_wps.Ows.Post.Form.{post_outcome, get_outcome}
use py_qgis_wps.Ows.Post.Agree.{SameExecution, parse_post_request-parse_get_request}
use py_qgis_wps.Ows.Post.Values.{plain_item, kvp_values, post_values}
use py_qgis_wps.Ows.Post.Literal.{IsLiteral}
use py_qgis_wps.Ows.Post.Given.{validate_request_inputs-same}

mutual
  pub data Tree : Type 0 where
    tree : (name : String) → Dict String String → Option String → Trees → Tree

  pub data Trees : Type 0 where
    end : Trees
    next : Tree → Trees → Trees

-- The expanded name of a name with the prefix `wps`.
abbrev expanded : List String → String
expanded (p ∷ l ∷ []) = append "{http://www.opengis.net/wps/1.0.0}" l
expanded l = ""

abbrev name_of : Tree → String
name_of (tree name attribs text children) = name

abbrev tree_text : Tree → Option String
tree_text (tree name attribs text children) = text

abbrev attribs_of : Tree → Dict String String
attribs_of (tree name attribs text children) = attribs

abbrev list_of : Trees → List Tree
list_of end = []
list_of (next t ts) = t ∷ list_of ts

abbrev children_of : Tree → List Tree
children_of (tree name attribs text children) = list_of children

-- The children of some name, of each of the trees.
abbrev named : String → List Tree → List Tree
named name [] = []
named name (t ∷ ts) =
    let rest = named name ts in if holds (str_dec (name_of t) name) then t ∷ rest else rest

abbrev step : String → List Tree → List Tree
step name [] = []
step name (t ∷ ts) = named name (children_of t) ++ step name ts

abbrev steps : List String → List Tree → List Tree
steps [] ts = ts
steps (name ∷ names) ts = steps names (step name ts)

-- A path from the element, `./a/b`, or from the root, `/a/b`.
abbrev path : List String → Tree → List Tree
path (start ∷ name ∷ names) t =
    if holds (str_dec start ".")
    then steps (name ∷ names) (t ∷ [])
    else steps names (named name (t ∷ []))
path l t = []

abbrev leaf : String → String → Tree
leaf name text = tree name [] (some text) end

abbrev input : String → String → Tree
input k v = tree "wps:Input" [] none (
    next (leaf "ows:Identifier" k)
      (next (tree "wps:Data" [] none (next (leaf "wps:LiteralData" v) end)) end))

abbrev document : Tree
document = tree "wps:Execute" (("version", "1.0.0") ∷ []) none (
    next (leaf "ows:Identifier" "buffer") (
      next (tree "wps:DataInputs" [] none (next (input "width" "5") (next (input "width" "9") end)))
        (next
          (tree "wps:ResponseForm" [] none (
            next
              (tree "wps:ResponseDocument" (("lineage", "True") ∷ ("timeout", "9") ∷ []) none end)
              end))
          end)))

abbrev xml : Xml
xml = record {
  Element = Tree;
  fromstring = λ body. if holds (str_dec body "request") then some document else none;
  tag = λ t. expanded (split ":" (name_of t));
  text = tree_text;
  attrib = λ t k. lookup str_dec k (attribs_of t);
  children = children_of;
  xpath = λ t p. path (split "/" p) t;
  tostring = name_of;
  b64decode = λ t. raise value_error;
  bounding_box = λ t. raise value_error;
}

abbrev int : String → Option ℤ
int s = if holds (str_dec s "9") then some (pos 9) else none

abbrev sent : Dict String String
sent =
    ("SERVICE", "WPS")
    ∷ ("REQUEST", "Execute")
    ∷ ("VERSION", "1.0.0")
    ∷ ("IDENTIFIER", "buffer")
    ∷ ("LINEAGE", "True")
    ∷ ("TIMEOUT", "9")
    ∷ []

abbrev args : Arguments
args = record { get_argument = λ k. lookup str_dec k sent; int = int }

abbrev config : ServerConfig
config = record {
  response_timeout = 1800;
  response_expiration = 86400;
  enable_job_realm = true;
  admin_realm = "root";
  workdir = "/srv/wps";
}

same : SameExecution xml args "request"
unfolding str_dec split append lookup lower get_inputs_from_xml
same = record {
  doc = document;
  read = refl;
  root = refl;
  inputs = _;
  inputs_read = refl;
  process = "buffer";
  identifier = leaf "ows:Identifier" "buffer";
  others = [];
  identified = refl;
  named = refl;
  forms = _;
  formed = refl;
  service = "WPS";
  service_given = refl;
  service_wps = refl;
  request = "Execute";
  request_given = refl;
  request_execute = refl;
  same_version = refl;
  same_language = refl;
  same_process = refl;
  same_lineage = refl;
  same_store = refl;
  same_timeout = refl;
  same_expire = refl;
}

parse_post_request-parse_get_request_example :
    post_outcome (parse_post_request xml int "request" (post_request config))
    ≡ get_outcome (parse_get_request args (ows_request config))
parse_post_request-parse_get_request_example =
    parse_post_request-parse_get_request xml args config "request" same

no_document :
    (parse_post_request xml int "" (post_request config)).0 ≡ raise (no_applicable_code 400 "")
unfolding parse_post_request str_dec
no_document = refl

both_read :
    post_outcome (parse_post_request xml int "request" (post_request config))
    ≡ ok (
      record (post_request config).base {
        operation = some "execute";
        version = some "1.0.0";
        identifier = some "buffer";
        timeout = 9;
      },
      true,
    )
unfolding parse_post_request post_request Request.init str_dec split append lookup lower
both_read = refl

abbrev digit : Option Json → Result Value
digit (some (str s)) =
    if holds (str_dec s "5")
    then ok (number (pos 5))
    else if holds (str_dec s "9")
    then ok (number (pos 9))
    else raise value_error
digit j = raise value_error

abbrev conv : Conversions
conv = record {
  convert_string = digit;
  convert_integer = digit;
  convert_float = digit;
  convert_boolean = digit;
  convert_any_uri = digit;
  convert_time = digit;
  convert_date = digit;
  convert_datetime = digit;
  convert_angle = digit;
  layer_path = λ s. s;
}

abbrev width : InputDef
width = record {
  identifier = "width";
  min_occurs = 1;
  max_occurs = 2;
  kind = literal_input (record {
    data_type = "integer";
    supported_uoms = "m" ∷ [];
    allowed_values = none;
    mode = mode_none;
  });
}

abbrev widths : List (String × String)
widths = ("width", "5") ∷ ("width", "9") ∷ []

IsLiteral-width : (v : String) → IsLiteral xml (input "width" v) "width" v
unfolding str_dec split lookup
IsLiteral-width v = record {
  identifier = leaf "ows:Identifier" "width";
  identified = refl;
  named = refl;
  literal = leaf "wps:LiteralData" v;
  others = [];
  found_literal = refl;
  value = refl;
  no_uom = refl;
  no_datatype = refl;
}

validate_request_inputs-same_example :
    (inputs : Inputs) × (get_inputs_from_xml xml document ≡ ok inputs)
    × (validate_request_inputs conv (width ∷ []) (post_values inputs)
        ≡ validate_request_inputs conv (width ∷ []) (
            kvp_values
              (get_data_from_kvp (some (join ";" (print_items (map plain_item widths)))) true)))
unfolding str_dec split
validate_request_inputs-same_example =
    validate_request_inputs-same xml conv (width ∷ []) document ("width", "5") (("width", "9") ∷ [])
      refl (IsLiteral-width "5", (IsLiteral-width "9", tt))

both_widths :
    validate_request_inputs conv
      (width ∷ [])
      (kvp_values (get_data_from_kvp (some "width=5;width=9") true))
    ≡ ok (
        ("width", literal (some "m") (number (pos 5)) ∷ literal (some "m") (number (pos 9)) ∷ [])
        ∷ [])
unfolding validate_request_inputs kvp_values get_data_from_kvp str_dec split
both_widths = refl

-- A name without a value: the process is given the keys of a dictionary.
bare_name :
    validate_request_inputs conv (width ∷ []) (kvp_values (get_data_from_kvp (some "width") true))
    ≡ raise attribute_error
unfolding validate_request_inputs kvp_values get_data_from_kvp str_dec split
bare_name = refl
