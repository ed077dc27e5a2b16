-- ===== src/Bridge/Params.antt =====
-- The parameters of QGIS, as far as pyqgiswps/executors/processingio.py and io look at them, and the
-- arguments from which an input is built.
use py_qgis_wps.Prelude.{ℕ, String, Bool, Option, List, [], ◌∷◌, ◌++◌, if◌then◌else◌}
use py_qgis_wps.Prelude.Int.{ℤ}
use py_qgis_wps.Prelude.Text.{replace, or_else}
use py_qgis_wps.Json.{Json}
use py_qgis_wps.Validator.{AllowedValues, simple, mode_none}
use py_qgis_wps.Service.{Format, InputDef, literal_input, complex_input}

-- `param.defaultValue()`: a value of Python, `null` for `None`, or a `QVariant` that holds one.
pub data DefaultValue : Type 0 where
  python : Json → DefaultValue
  qvariant : Json → DefaultValue

pub data NumberType : Type 0 where
  double_type integer_type : NumberType

pub data DistanceUnit : Type 0 where
  meters kilometers feet nautical_miles yards miles degrees centimeters millimeters : DistanceUnit
  other_unit : DistanceUnit

pub data FieldType : Type 0 where
  any_field numeric_field string_field date_time_field : FieldType

-- `QgsProcessing.SourceType`; `other_source` is one that the table `SourceTypes` does not have, such as
-- that of point clouds.
pub data SourceType : Type 0 where
  map_layer vector_any_geometry vector_point vector_line vector_polygon : SourceType
  raster file vector mesh other_source : SourceType

unfoldable pub SourceType_dec : Discrete SourceType
SourceType_dec = hlevel

pub data LayerKind : Type 0 where
  vector_layer feature_source : LayerKind
  raster_layer any_layer mesh_layer : LayerKind
  -- with the least number of inputs and the type of the layers
  multiple_layers : ℕ → SourceType → LayerKind

-- The parameters by their types: `other_param` is a type for which the code has no case. Layers as
-- destinations, geometries, extents and times have cases that are left out.
pub data Kind : Type 0 where
  string_param boolean_param band_param : Kind
  enum_param : (options : List String) → (allow_multiple : Bool) → Kind
  number_param : NumberType → (minimum maximum : ℤ) → Kind
  distance_param :
      (parent : String) → DistanceUnit → (unit_name : String) → (minimum maximum : ℤ) → Kind
  scale_param : (minimum maximum : ℤ) → Kind
  duration_param : (unit_name : String) → (minimum maximum : ℤ) → Kind
  field_param : (parent_layer : String) → FieldType → Kind
  -- with `dataTypes()` where the parameter limits them
  layer_param : LayerKind → List SourceType → Kind
  file_param : (folder : Bool) → (extension : String) → Kind
  file_destination : (extension : String) → Kind
  folder_destination : Kind
  other_param : String → Kind

-- `param.type()`
unfoldable pub type_name : Kind → String
type_name string_param = "string"
type_name boolean_param = "boolean"
type_name band_param = "band"
type_name (enum_param options multiple) = "enum"
type_name (number_param t lo hi) = "number"
type_name (distance_param parent unit name lo hi) = "distance"
type_name (scale_param lo hi) = "scale"
type_name (duration_param name lo hi) = "duration"
type_name (field_param parent t) = "field"
type_name (layer_param vector_layer types) = "vector"
type_name (layer_param feature_source types) = "source"
type_name (layer_param raster_layer types) = "raster"
type_name (layer_param any_layer types) = "layer"
type_name (layer_param mesh_layer types) = "mesh"
type_name (layer_param (multiple_layers n t) types) = "multilayer"
type_name (file_param folder extension) = "file"
type_name (file_destination extension) = "fileDestination"
type_name folder_destination = "folderDestination"
type_name (other_param name) = name

pub record Param : Type 0 where
  pub name : String
  pub description : String
  pub help : String
  pub default_value : DefaultValue
  pub is_optional : Bool
  pub is_hidden : Bool
  pub metadata : List (String × String)
  pub kind : Kind

-- `kwargs`, as they stand before a case adds to them
pub record Arguments : Type 0 where
  pub identifier : String
  pub title : String
  pub abstract : String
  pub metadata : List (String × String)
  pub default : Json
  pub min_occurs : ℕ
  pub max_occurs : ℕ

-- The `QVariant` is opened.
unfoldable pub python_value : DefaultValue → Json
python_value (python j) = j
python_value (qvariant j) = j

unfoldable pub arguments : Param → Arguments
unfolding type_name python_value or_else replace
arguments p = record {
  identifier = p.name;
  title = or_else p.description (replace "_" " " p.name);
  abstract = p.help;
  metadata = ("processing:type", type_name p.kind) ∷ [];
  default = python_value p.default_value;
  min_occurs = if p.is_optional then 0 else 1;
  max_occurs = 1;
}

-- An input, with what only its description shows.
pub record WpsInput : Type 0 where
  pub title : String
  pub abstract : String
  pub metadata : List (String × String)
  pub default : Json
  pub definition : InputDef

-- `LiteralInput(**kwargs)` and `ComplexInput(**kwargs)`
unfoldable pub make_literal :
    Arguments → (data_type : String) → List String → Option AllowedValues → WpsInput
make_literal k data_type uoms allowed = record {
  title = k.title;
  abstract = k.abstract;
  metadata = k.metadata;
  default = k.default;
  definition = record {
    identifier = k.identifier;
    min_occurs = k.min_occurs;
    max_occurs = k.max_occurs;
    kind = literal_input (record {
      data_type = data_type;
      supported_uoms = uoms;
      allowed_values = allowed;
      mode = simple;
    });
  };
}

unfoldable pub make_complex : Arguments → List Format → WpsInput
make_complex k formats = record {
  title = k.title;
  abstract = k.abstract;
  metadata = k.metadata;
  default = k.default;
  definition = record {
    identifier = k.identifier;
    min_occurs = k.min_occurs;
    max_occurs = k.max_occurs;
    kind = complex_input (record { supported_formats = formats; mode = mode_none });
  };
}

-- `kwargs['metadata'].append`
unfoldable pub add_metadata : List (String × String) → Arguments → Arguments
add_metadata l k = record k { metadata = k.metadata ++ l }
