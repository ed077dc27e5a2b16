-- ===== src/Bridge/Layers.antt =====
-- pyqgiswps/executors/io/layersio.py: layers as inputs, over the layers of the project of the request.
use py_qgis_wps.Prelude.{
  ℕ, String, Bool, false, ◌||◌, Option, none, some, List, [], ◌∷◌, map, elem, length, keep, leb,
  if◌then◌else◌,
}
use py_qgis_wps.Prelude.Text.{join}
use py_qgis_wps.Exceptions.{key_error, Result, ok, raise}
use py_qgis_wps.Validator.{AllowedValues, layer_type}
use py_qgis_wps.Bridge.Params.{
  SourceType, map_layer, vector_any_geometry, vector_point, vector_line, vector_polygon, raster,
  file, vector, mesh, other_source, SourceType_dec, LayerKind, vector_layer, feature_source,
  raster_layer, any_layer, mesh_layer, multiple_layers, Kind, layer_param, Arguments, WpsInput,
  make_literal, add_metadata,
}
use py_qgis_wps.Bridge.Literals.{allowed_texts}

pub data Geometry : Type 0 where
  point line polygon no_geometry : Geometry

-- `lyr.type()`, with the geometry of a vector layer
pub data LayerType : Type 0 where
  vector_type : Geometry → LayerType
  raster_type mesh_type plugin_type : LayerType

pub record MapLayer : Type 0 where
  pub name : String
  pub type : LayerType

-- `SourceTypes[dtyp]`
unfoldable pub source_type_name : SourceType → Result String
source_type_name map_layer = ok "TypeMapLayer"
source_type_name vector_any_geometry = ok "TypeVectorAnyGeometry"
source_type_name vector_point = ok "TypeVectorPoint"
source_type_name vector_line = ok "TypeVectorLine"
source_type_name vector_polygon = ok "TypeVectorPolygon"
source_type_name raster = ok "TypeRaster"
source_type_name file = ok "TypeFile"
source_type_name vector = ok "TypeVector"
source_type_name mesh = ok "TypeMesh"
source_type_name other_source = raise key_error

abbrev pub add_name : Result String → Result (List String) → Result (List String)
add_name (raise e) names = raise e
add_name (ok name) (raise e) = raise e
add_name (ok name) (ok names) = ok (name ∷ names)

unfoldable pub type_names : List SourceType → Result (List String)
unfolding source_type_name
type_names [] = ok []
type_names (t ∷ types) = add_name (source_type_name t) (type_names types)

unfoldable pub default_types : LayerKind → List SourceType
default_types vector_layer = vector ∷ []
default_types feature_source = vector ∷ []
default_types raster_layer = raster ∷ []
default_types (multiple_layers n t) = t ∷ []
default_types mesh_layer = mesh ∷ []
default_types any_layer = map_layer ∷ []

-- The types of data: those of the parameter, if it limits them.
unfoldable pub data_types : LayerKind → List SourceType → List SourceType
unfolding default_types
data_types kind [] = default_types kind
data_types kind (t ∷ types) = t ∷ types

-- `get_layers_type`, which appends their names to the metadata
unfoldable pub get_layers_type :
    LayerKind → List SourceType → Arguments → Result (List SourceType × Arguments)
unfolding data_types add_metadata type_names join
get_layers_type kind limited k = elim (type_names (data_types kind limited)) [
  | raise e ↦ raise e
  | ok names ↦
      ok (data_types kind limited, add_metadata (("processing:dataTypes", join "," names) ∷ []) k)
]

abbrev has_type : SourceType → List SourceType → Bool
has_type = elem SourceType_dec

unfoldable pub is_geometry : Geometry → List SourceType → Bool
is_geometry point types = has_type vector_point types
is_geometry line types = has_type vector_line types
is_geometry polygon types = has_type vector_polygon types
is_geometry no_geometry types = false

-- `_is_allowed`
unfoldable pub is_allowed : List SourceType → LayerType → Bool
unfolding is_geometry
is_allowed types (vector_type g) =
    is_geometry g types
    || has_type vector_any_geometry types
    || has_type vector types
    || has_type map_layer types
is_allowed types raster_type = has_type raster types || has_type map_layer types
is_allowed types mesh_type = has_type mesh types || has_type map_layer types
is_allowed types plugin_type = false

-- `get_layers_from_context`
unfoldable pub allowed_layers : List SourceType → List MapLayer → List String
unfolding is_allowed
allowed_layers types layers = map (λ l. l.name) (keep (λ l. is_allowed types l.type) layers)

unfoldable pub layer_values : List SourceType → List MapLayer → AllowedValues
unfolding allowed_layers allowed_texts
layer_values types layers = record (allowed_texts (allowed_layers types layers)) {
  allowed_type = layer_type;
}

unfoldable pub occurs : LayerKind → Arguments → Arguments
occurs (multiple_layers n t) k =
    let least = if leb 1 n then n else 0 in record k { min_occurs = least; max_occurs = least }
occurs kind k = k

unfoldable pub context_occurs : LayerKind → ℕ → Arguments → Arguments
context_occurs (multiple_layers n t) count k = record k { max_occurs = count }
context_occurs kind count k = k

unfoldable pub layer_input :
    LayerKind → List SourceType → Option (List MapLayer) → Arguments → WpsInput
unfolding make_literal layer_values context_occurs
layer_input kind types none k = make_literal k "string" [] none
layer_input kind types (some layers) k =
    make_literal (context_occurs kind (length (allowed_layers types layers)) k) "string" []
      (some (layer_values types layers))

-- `parse_input_definition`
unfoldable pub parse_layer_input :
    Kind → Option (List MapLayer) → Arguments → Result (Option WpsInput)
unfolding get_layers_type occurs layer_input
parse_layer_input (layer_param kind limited) context k =
    elim (get_layers_type kind limited (occurs kind k)) [
      | raise e ↦ raise e
      | ok (types, k') ↦ ok (some (layer_input kind types context k'))
    ]
parse_layer_input kind context k = ok none
