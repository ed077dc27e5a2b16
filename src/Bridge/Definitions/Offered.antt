-- ===== src/Bridge/Definitions/Offered.antt =====
-- Which layers of the project an input of layers takes.
use py_qgis_wps.Prelude.{
  ◌≡◌, refl, ap, ◌∙◌, subst, sym, any_swap, arith, inl, inr, String, Bool, true, false, ◌&&◌, ◌||◌,
  Option, some, List, [], ◌∷◌, map, any, elem, str_dec, holds, Bool-cases, if◌then◌else◌,
}
use py_qgis_wps.Prelude.Text.{join}
use py_qgis_wps.Exceptions.{invalid_parameter_value, ok, raise, ok-eq, Result-cases}
use py_qgis_wps.Validator.{
  text, simple, value_dec, validate_allowed_values, validate_value, validate_layer,
}
use py_qgis_wps.Service.{Conversions, LiteralInput, literal_input, check_valid}
use py_qgis_wps.Bridge.Params.{
  LayerKind, SourceType, SourceType_dec, map_layer, vector_any_geometry, vector_point, vector_line,
  vector_polygon, raster, vector, mesh, vector_layer, feature_source, raster_layer, any_layer,
  mesh_layer, multiple_layers, Param, Arguments, arguments, add_metadata, WpsInput, make_literal,
  layer_param,
}
use py_qgis_wps.Bridge.Literals.{allowed_texts, parse_literal_input}
use py_qgis_wps.Bridge.Layers.{
  MapLayer, LayerType, vector_type, raster_type, mesh_type, plugin_type, point, line, polygon,
  no_geometry, is_geometry, default_types, data_types, type_names, is_allowed, get_layers_type,
  allowed_layers, layer_values, occurs, layer_input, parse_layer_input,
}
use py_qgis_wps.Bridge.Definitions.{
  parse_metadata, with_metadata, first_input, make_input, parse_input_definition,
}

-- The types of data that a layer is of: a vector layer with a geometry, say, is of the type of that
-- geometry and of those of any vector layer and of any layer of a map.
abbrev pub types_of : LayerType → List SourceType
types_of (vector_type point) = vector_point ∷ vector_any_geometry ∷ vector ∷ map_layer ∷ []
types_of (vector_type line) = vector_line ∷ vector_any_geometry ∷ vector ∷ map_layer ∷ []
types_of (vector_type polygon) = vector_polygon ∷ vector_any_geometry ∷ vector ∷ map_layer ∷ []
types_of (vector_type no_geometry) = vector_any_geometry ∷ vector ∷ map_layer ∷ []
types_of raster_type = raster ∷ map_layer ∷ []
types_of mesh_type = mesh ∷ map_layer ∷ []
types_of plugin_type = []

-- The types of data that a parameter asks for: those it names, or those of its kind.
abbrev pub asked_types : List SourceType → LayerKind → List SourceType
asked_types (t ∷ limited) kind = t ∷ limited
asked_types [] vector_layer = vector ∷ []
asked_types [] feature_source = vector ∷ []
asked_types [] raster_layer = raster ∷ []
asked_types [] any_layer = map_layer ∷ []
asked_types [] mesh_layer = mesh ∷ []
asked_types [] (multiple_layers least t) = t ∷ []

-- Whether a layer is of one of the types.
abbrev pub suits : List SourceType → LayerType → Bool
suits types type = any (λ t. any (λ x. holds (SourceType_dec t x)) (types_of type)) types

-- Whether a layer of the project has the name and is of a type that is among those asked for.
abbrev pub offers : List SourceType → List MapLayer → String → Bool
offers types layers name = any (λ l. suits types l.type && holds (str_dec l.name name)) layers

is_allowed-suits :
    (types : List SourceType) (type : LayerType) → is_allowed types type ≡ suits types type
unfolding is_allowed is_geometry
is_allowed-suits types type =
    listed type ∙ sym (any_swap (λ x t. holds (SourceType_dec t x)) (types_of type) types)
  where
    listed :
        (type : LayerType)
        → is_allowed types type
          ≡ any (λ x. any (λ t. holds (SourceType_dec t x)) types) (types_of type)
    listed (vector_type point) = ground arith
    listed (vector_type line) = ground arith
    listed (vector_type polygon) = ground arith
    listed (vector_type no_geometry) = ground arith
    listed raster_type = ground arith
    listed mesh_type = ground arith
    listed plugin_type = refl

data_types-asked_types :
    (limited : List SourceType) (kind : LayerKind)
    → data_types kind limited ≡ asked_types limited kind
unfolding data_types default_types
data_types-asked_types (t ∷ limited) kind = refl
data_types-asked_types [] vector_layer = refl
data_types-asked_types [] feature_source = refl
data_types-asked_types [] raster_layer = refl
data_types-asked_types [] any_layer = refl
data_types-asked_types [] mesh_layer = refl
data_types-asked_types [] (multiple_layers least t) = refl

text-holds : (s t : String) → holds (value_dec (text s) (text t)) ≡ holds (str_dec s t)
text-holds s t = elim (str_dec s t) as (λ d. holds (value_dec (text s) (text t)) ≡ holds d) [
  | yes same ↦ elim (value_dec (text s) (text t)) as (λ d. holds d ≡ true) [
    | yes e ↦ refl
    | no other ↦ absurd (other (ap text same))
  ]
  | no other ↦ elim (value_dec (text s) (text t)) as (λ d. holds d ≡ false) [
    | yes e ↦ absurd (other (text-eq e))
    | no e ↦ refl
  ]
]
  where
    text-eq : {s t : String} → text s ≡ text t → s ≡ t
    text-eq h = cc

elem-allowed_layers :
    (types : List SourceType) (layers : List MapLayer) (s : String)
    → elem value_dec (text s) (map text (allowed_layers types layers)) ≡ offers types layers s
unfolding allowed_layers
elem-allowed_layers types [] s = refl
elem-allowed_layers types (l ∷ layers) s = elim (Bool-cases (is_allowed types l.type)) [
  | inl fits ↦
      rw (fits, sym (is_allowed-suits types l.type) ∙ fits)
        (ap (λ b. b || elem value_dec (text s) (map text (allowed_layers types layers)))
            (text-holds l.name s)
          ∙ ap (λ b. holds (str_dec l.name s) || b) (elem-allowed_layers types layers s))
  | inr other ↦
      rw (other, sym (is_allowed-suits types l.type) ∙ other) (elem-allowed_layers types layers s)
]

-- The input of layers, by what is checked.
abbrev layer_literal : List SourceType → List MapLayer → LiteralInput
layer_literal types layers = record {
  data_type = "string";
  supported_uoms = [];
  allowed_values = some (layer_values types layers);
  mode = simple;
}

layer_input-kind :
    (kind : LayerKind) (types : List SourceType) (layers : List MapLayer) (k : Arguments)
    → literal_input (layer_literal types layers)
      ≡ (layer_input kind types (some layers) k).definition.kind
unfolding layer_input make_literal
layer_input-kind kind types layers k = refl

check_valid-offers :
    (conv : Conversions) (types : List SourceType) (layers : List MapLayer) (s : String)
    → check_valid conv (layer_literal types layers) (text s) ≡ (
        if offers types layers (conv.layer_path s)
        then ok (text s)
        else raise (invalid_parameter_value ""))
unfolding check_valid validate_allowed_values validate_layer validate_value layer_values
    allowed_texts
check_valid-offers conv types layers s =
    ap (λ b. if b then ok (text s) else raise (invalid_parameter_value ""))
      (elem-allowed_layers types layers (conv.layer_path s))

module _ (conv : Conversions) (types_map : String → Option String) (layers : List MapLayer) where
  -- Where a parameter of layers became an input beside a project, the input is a literal that takes
  -- a text exactly where a layer of the project has the name that the text gives and is of a type
  -- of data that the parameter names, or, where it names none, of the one of its kind.
  pub parse_input_definition-offers :
      (p : Param) (kind : LayerKind) (limited : List SourceType) (w : WpsInput) (s : String)
      → p.kind ≡ layer_param kind limited
      → parse_input_definition types_map (some layers) p ≡ ok w
      → (i : LiteralInput) × (literal_input i ≡ w.definition.kind)
        × (check_valid conv i (text s) ≡ (
            if offers (asked_types limited kind) layers (conv.layer_path s)
            then ok (text s)
            else raise (invalid_parameter_value "")))
  unfolding parse_input_definition make_input first_input with_metadata parse_metadata
      parse_literal_input parse_layer_input get_layers_type
  parse_input_definition-offers p kind limited w s layer h =
      let made =
        subst
          (λ q.
            with_metadata types_map (some layers) p
              (make_input types_map (some layers) q p.default_value (arguments p))
            ≡ ok w)
          layer h in
      let types = data_types kind limited in
      elim (Result-cases (type_names types)) [
        | inl (e, bad) ↦
            absurd
              (cc (rw (bad, make_input, first_input, parse_layer_input, get_layers_type) at made))
        | inr (named, good) ↦ (
          layer_literal types layers,
          layer_input-kind kind types layers (
                add_metadata (("processing:dataTypes", join "," named) ∷ [])
                  (occurs kind (arguments p)))
              ∙ ap (λ v. v.definition.kind)
                  (ok-eq (
                    rw (good, make_input, first_input, parse_layer_input, get_layers_type) at
                      made)),
          subst
              (λ l. check_valid conv (layer_literal types layers) (text s) ≡ (
                if offers l layers (conv.layer_path s)
                then ok (text s)
                else raise (invalid_parameter_value "")))
              (data_types-asked_types limited kind) (check_valid-offers conv types layers s),
        )
      ]
