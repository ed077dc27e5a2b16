-- ===== src/Bridge/Tests.antt =====
-- Checks of an algorithm with an enumeration, a layer, a folder and a hidden parameter.
use py_qgis_wps.Prelude.{
  ◌≡◌, refl, String, true, false, Option, none, some, List, [], ◌∷◌, map, keep, lookup, str_dec,
  if◌then◌else◌,
}
use py_qgis_wps.Prelude.Text.{split, free}
use py_qgis_wps.Exceptions.{invalid_parameter_value, value_error, Result, ok, raise}
use py_qgis_wps.Json.{Json, null, str, obj, end, field}
use py_qgis_wps.Validator.{Value, text, value_type, closed_range, simple, layer_type, value_dec}
use py_qgis_wps.Service.{
  Conversions, Given, literal, LiteralInput, literal_input, validate_values, check_valid,
}
use py_qgis_wps.Bridge.Params
use py_qgis_wps.Bridge.Params.{
  Kind, Param, WpsInput, python, qvariant, enum_param, layer_param, folder_destination,
  multiple_layers, vector, vector_point, SourceType_dec,
}
use py_qgis_wps.Bridge.Literals.{enum_index}
use py_qgis_wps.Bridge.Layers.{MapLayer, vector_type, raster_type, point, line}
use py_qgis_wps.Bridge.Files.{normalize_path, is_absolute}
use py_qgis_wps.Bridge.Definitions.{parse_input_definition, parse_input_definitions}
use py_qgis_wps.Bridge.Definitions.Parsed.{Listed, parse_input_definitions-Listed}
use py_qgis_wps.Bridge.Definitions.Offered.{asked_types, offers, parse_input_definition-offers}
use py_qgis_wps.Bridge.Values.{
  Parameter, indices, path, raw, LayerUrl, input_to_processing, get_processing_value,
}
use py_qgis_wps.Bridge.Values.Enums.{Chosen, input_to_processing-Chosen}
use py_qgis_wps.Bridge.Values.Paths.{
  is_parent, input_to_processing-folder, input_to_processing-at_root,
}

abbrev text_of_json : Option Json → Result Value
text_of_json (some (str s)) = ok (text s)
text_of_json j = raise value_error

abbrev conv : Conversions
conv = record {
  convert_string = text_of_json;
  convert_integer = text_of_json;
  convert_float = text_of_json;
  convert_boolean = text_of_json;
  convert_any_uri = text_of_json;
  convert_time = text_of_json;
  convert_date = text_of_json;
  convert_datetime = text_of_json;
  convert_angle = text_of_json;
  layer_path = λ s. s;
}

abbrev param_of : String → Kind → Param
param_of name kind = record {
  name = name;
  description = "";
  help = "";
  default_value = python null;
  is_optional = false;
  is_hidden = false;
  metadata = [];
  kind = kind;
}

abbrev mode_param : Param
mode_param = param_of "mode" (enum_param ("fast" ∷ "exact" ∷ []) true)

abbrev layer_kind : Kind
layer_kind = layer_param (multiple_layers 2 vector_point) []

abbrev params : List Param
params =
    mode_param
    ∷ record (param_of "debug" Params.boolean_param) { is_hidden = true }
    ∷ param_of "matrix" (Params.other_param "matrix")
    ∷ param_of "layers" layer_kind
    ∷ param_of "folder" folder_destination
    ∷ []

abbrev types_map : String → Option String
types_map extension = lookup str_dec extension ((".csv", "text/csv") ∷ [])

abbrev layers : List MapLayer
layers =
    record { name = "towns"; type = vector_type point }
    ∷ record { name = "roads"; type = vector_type line }
    ∷ record { name = "relief"; type = raster_type }
    ∷ []

parse_input_definitions-Listed_example :
    Listed types_map (some layers) params (parse_input_definitions types_map (some layers) params)
unfolding enum_index
parse_input_definitions-Listed_example =
    parse_input_definitions-Listed types_map (some layers) params refl

three_inputs :
    map (λ p. p.name) (keep (λ p. if p.is_hidden then false else true) params)
    ≡ "mode" ∷ "matrix" ∷ "layers" ∷ "folder" ∷ []
three_inputs = refl

abbrev mode_input : WpsInput
mode_input = record {
  title = "mode";
  abstract = "";
  metadata = ("processing:type", "enum") ∷ [];
  default = null;
  definition = record {
    identifier = "mode";
    min_occurs = 1;
    max_occurs = 2;
    kind = literal_input (record {
      data_type = "string";
      supported_uoms = [];
      allowed_values = some (record {
        allowed_type = value_type;
        values = some (text "fast" ∷ text "exact" ∷ []);
        minval = none;
        maxval = none;
        spacing = none;
        range_closure = closed_range;
      });
      mode = simple;
    });
  };
}

mode_parsed : parse_input_definition types_map none mode_param ≡ ok mode_input
unfolding parse_input_definition
mode_parsed = refl

abbrev asked : List Json
asked = obj (field "data" (str "exact") end) ∷ obj (field "data" (str "fast") end) ∷ []

abbrev given : String → Given
given s = literal none (text s)

asked_valid :
    validate_values conv mode_input.definition.kind asked ≡ ok (given "exact" ∷ given "fast" ∷ [])
unfolding validate_values value_dec
asked_valid = refl

-- No layer has a selection, and nothing is saved.
abbrev parse_url : String → LayerUrl
parse_url s = record { path = s; select = []; rect = [] }

abbrev nothing_done : String → Result (Unit {0})
nothing_done s = ok tt

abbrev with_suffix : String → String → Result String
with_suffix s extension = ok s

abbrev not_saved : String → Given → Result (Unit {0})
not_saved s g = ok tt

input_to_processing-Chosen_example :
    (v : Parameter) × (input_to_processing parse_url nothing_done with_suffix not_saved mode_param
        (given "exact" ∷ given "fast" ∷ [])
      ≡ ok ("mode", v))
    × Chosen ("fast" ∷ "exact" ∷ []) true (given "exact" ∷ given "fast" ∷ []) v
input_to_processing-Chosen_example =
    input_to_processing-Chosen parse_url nothing_done with_suffix not_saved conv types_map none
      mode_param ("fast" ∷ "exact" ∷ []) true mode_input asked (given "exact") (given "fast" ∷ [])
      refl mode_parsed asked_valid

indices_1_0 :
    get_processing_value mode_param.kind (given "exact" ∷ given "fast" ∷ [])
    ≡ ok (indices (1 ∷ 0 ∷ []))
unfolding get_processing_value str_dec
indices_1_0 = refl

-- An index as a text is refused as a default, and one out of range is the first option.
refused_default :
    parse_input_definition types_map none
      (record mode_param { default_value = python (str "fast") })
    ≡ raise (invalid_parameter_value "")
unfolding parse_input_definition
refused_default = refl

abbrev folder_param : Param
folder_param = param_of "folder" folder_destination

input_to_processing-folder_example :
    (input_to_processing parse_url nothing_done with_suffix not_saved folder_param
        (given "/tmp/maps/" ∷ [])
      ≡ ok ("folder", path (normalize_path "/tmp/maps/")))
    × (free "/" (normalize_path "/tmp/maps/") ≡ true)
    × (is_parent (normalize_path "/tmp/maps/") ≡ false)
unfolding split str_dec normalize_path
input_to_processing-folder_example =
    input_to_processing-folder parse_url nothing_done with_suffix not_saved folder_param
      "/tmp/maps/" none [] refl refl refl

maps : normalize_path "/tmp/maps/" ≡ "maps"
unfolding normalize_path str_dec
maps = refl

-- The parent folder is kept as it is.
parent_folder : normalize_path ".." ≡ ".."
unfolding normalize_path str_dec
parent_folder = refl

root_folder :
    input_to_processing parse_url nothing_done with_suffix not_saved folder_param (given "/.." ∷ [])
    ≡ ok ("folder", raw (given "/.."))
unfolding split str_dec is_absolute
root_folder =
    input_to_processing-at_root parse_url nothing_done with_suffix not_saved folder_param "/.." none
      [] refl refl refl

abbrev layers_param : Param
layers_param = param_of "layers" layer_kind

abbrev layers_input : WpsInput
layers_input = record {
  title = "layers";
  abstract = "";
  metadata = ("processing:type", "multilayer") ∷ ("processing:dataTypes", "TypeVectorPoint") ∷ [];
  default = null;
  definition = record {
    identifier = "layers";
    min_occurs = 2;
    max_occurs = 1;
    kind = literal_input (record {
      data_type = "string";
      supported_uoms = [];
      allowed_values = some (record {
        allowed_type = layer_type;
        values = some (text "towns" ∷ []);
        minval = none;
        maxval = none;
        spacing = none;
        range_closure = closed_range;
      });
      mode = simple;
    });
  };
}

layers_parsed : parse_input_definition types_map (some layers) layers_param ≡ ok layers_input
unfolding parse_input_definition SourceType_dec
layers_parsed = refl

parse_input_definition-offers_example :
    (i : LiteralInput) × (literal_input i ≡ layers_input.definition.kind)
    × (check_valid conv i (text "roads") ≡ (
        if offers (asked_types [] (multiple_layers 2 vector_point)) layers "roads"
        then ok (text "roads")
        else raise (invalid_parameter_value "")))
parse_input_definition-offers_example =
    parse_input_definition-offers conv types_map layers layers_param
      (multiple_layers 2 vector_point) [] layers_input "roads" refl layers_parsed
