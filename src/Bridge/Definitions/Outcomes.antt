-- ===== src/Bridge/Definitions/Outcomes.antt =====
-- What becomes of one parameter: an input, or an exception.
use py_qgis_wps.Prelude.{
  ◌≡◌, refl, ◌∙◌, inl, inr, String, Bool, true, false, ◌==◌, Option, none, some, List, [], ◌∷◌,
  Bool-cases, Option-cases, is_some, all, length, arith,
}
use py_qgis_wps.Prelude.Text.{text_length}
use py_qgis_wps.Exceptions.{Exn, type_not_supported, Result, ok, raise, Result-cases}
use py_qgis_wps.Json.{Json}
use py_qgis_wps.Bridge.Params
use py_qgis_wps.Bridge.Params.{
  DefaultValue, python, qvariant, Kind, LayerKind, SourceType, Param, Arguments, arguments,
  WpsInput, make_literal, make_complex, add_metadata,
}
use py_qgis_wps.Bridge.Literals.{
  enum_index, enum_default, get_elem?, in_range, enum_input, parse_literal_input,
}
use py_qgis_wps.Bridge.Layers.{
  MapLayer, add_name, default_types, source_type_name, type_names, data_types, get_layers_type,
  layer_input, occurs, parse_layer_input,
}
use py_qgis_wps.Bridge.Files.{file_input, parse_file_input}
use py_qgis_wps.Bridge.Definitions.{parse_metadata, first_input, make_input, with_metadata}

-- Whether there is a case for the type.
abbrev pub is_supported : Kind → Bool
is_supported (Params.other_param name) = false
is_supported kind = true

-- Whether the table of the program has a name for the type of data.
abbrev pub has_name : SourceType → Bool
has_name Params.other_source = false
has_name t = true

-- Whether it has one for each type that the parameter asks for.
abbrev pub sources_ok : List SourceType → LayerKind → Bool
sources_ok (t ∷ limited) kind = all has_name (t ∷ limited)
sources_ok [] (Params.multiple_layers n t) = has_name t
sources_ok [] kind = true

-- Whether the default value of an enumeration is the index of an option, or none is given, and the
-- types of data of a parameter of layers have names.
abbrev pub input_ok : Kind → DefaultValue → Bool
input_ok (Params.enum_param options multiple) d = elim (enum_index d) [
  | raise e ↦ false
  | ok none ↦ true
  | ok (some z) ↦ is_some (get_elem? options (in_range (length options) z))
]
input_ok (Params.layer_param kind limited) d = sources_ok limited kind
input_ok kind d = true

-- What a parameter may end in.
pub data Outcome (name : String) (kind : Kind) (d : DefaultValue) : Result WpsInput → Type 0 where
  made :
      (w : WpsInput)
      → w.definition.identifier ≡ name
      → is_supported kind ≡ true
      → Outcome name kind d (ok w)
  refused : is_supported kind ≡ false → Outcome name kind d (raise type_not_supported)
  failed : (e : Exn) → input_ok kind d ≡ false → Outcome name kind d (raise e)

layer_input-identifier :
    (kind : LayerKind) (types : List SourceType) (context : Option (List MapLayer)) (k : Arguments)
    → (layer_input kind types context k).definition.identifier ≡ k.identifier
unfolding layer_input
layer_input-identifier kind types none k = refl
layer_input-identifier (Params.multiple_layers n t) types (some layers) k = refl
layer_input-identifier Params.vector_layer types (some layers) k = refl
layer_input-identifier Params.feature_source types (some layers) k = refl
layer_input-identifier Params.raster_layer types (some layers) k = refl
layer_input-identifier Params.any_layer types (some layers) k = refl
layer_input-identifier Params.mesh_layer types (some layers) k = refl

occurs-identifier : (kind : LayerKind) (k : Arguments) → (occurs kind k).identifier ≡ k.identifier
unfolding occurs
occurs-identifier (Params.multiple_layers n t) k = refl
occurs-identifier Params.vector_layer k = refl
occurs-identifier Params.feature_source k = refl
occurs-identifier Params.raster_layer k = refl
occurs-identifier Params.any_layer k = refl
occurs-identifier Params.mesh_layer k = refl

file_input-identifier :
    (types_map : String → Option String) (extension : String) (k : Arguments)
    → (file_input types_map extension k).definition.identifier ≡ k.identifier
unfolding file_input
file_input-identifier types_map extension k = elim (Bool-cases (text_length extension == 0)) [
  | inl e ↦ rw (e, file_input) refl
  | inr e ↦ rw (e, file_input) refl
]

enum_default-raise :
    (options : List String) (multiple : Bool) (d : DefaultValue) (default : Json) (e : Exn)
    → enum_default options d default ≡ raise e
    → input_ok (Params.enum_param options multiple) d ≡ false
unfolding enum_default
enum_default-raise options multiple d default e h = elim (Result-cases (enum_index d)) [
  | inl (f, bad) ↦ rw (bad, input_ok) refl
  | inr (none, good) ↦ absurd (cc (rw (good, enum_default) at h))
  | inr (some z, good) ↦ elim (Option-cases (get_elem? options (in_range (length options) z))) [
    | inl missing ↦ rw (good, missing, input_ok) refl
    | inr (option, there) ↦ absurd (cc (rw (good, there, enum_default) at h))
  ]
]

add_name-raise :
    (name : String) (r : Result (List String)) (e : Exn)
    → add_name (ok name) r ≡ raise e
    → (f : Exn) × (r ≡ raise f)
add_name-raise name (ok names) e h = absurd (cc h)
add_name-raise name (raise f) e h = (f, refl)

type_names-raise :
    (types : List SourceType) (e : Exn) → type_names types ≡ raise e → all has_name types ≡ false
unfolding type_names source_type_name
type_names-raise [] e h = absurd (cc h)
type_names-raise (Params.other_source ∷ types) e h = refl
type_names-raise (t ∷ types) e h =
    let (f, bad) = add_name-raise _ (type_names types) e h in type_names-raise types f bad

data_types-raise :
    (kind : LayerKind) (limited : List SourceType) (e : Exn)
    → type_names (data_types kind limited) ≡ raise e
    → sources_ok limited kind ≡ false
unfolding data_types default_types type_names source_type_name
data_types-raise kind (t ∷ limited) e h = type_names-raise (t ∷ limited) e h
data_types-raise (Params.multiple_layers n t) [] e h =
    let unknown = type_names-raise (t ∷ []) e h in ground arith
data_types-raise Params.vector_layer [] e h = absurd (cc h)
data_types-raise Params.feature_source [] e h = absurd (cc h)
data_types-raise Params.raster_layer [] e h = absurd (cc h)
data_types-raise Params.any_layer [] e h = absurd (cc h)
data_types-raise Params.mesh_layer [] e h = absurd (cc h)

module _ (types_map : String → Option String) (context : Option (List MapLayer)) where
  enum-Outcome :
      (options : List String) (multiple : Bool) (d : DefaultValue) (k : Arguments)
      → Outcome k.identifier
          (Params.enum_param options multiple)
          d
          (make_input types_map context (Params.enum_param options multiple) d k)
  unfolding make_input first_input parse_literal_input enum_input make_literal
  enum-Outcome options multiple d k = elim (Result-cases (enum_default options d k.default)) [
    | inl (e, bad) ↦
        rw (bad, enum_input) (failed e (enum_default-raise options multiple d k.default e bad))
    | inr (default, good) ↦ rw (good, enum_input) (made _ refl refl)
  ]

  layer-Outcome :
      (kind : LayerKind) (limited : List SourceType) (d : DefaultValue) (k : Arguments)
      → Outcome k.identifier
          (Params.layer_param kind limited)
          d
          (make_input types_map context (Params.layer_param kind limited) d k)
  unfolding make_input first_input parse_literal_input parse_layer_input get_layers_type
      add_metadata
  layer-Outcome kind limited d k = elim (Result-cases (type_names (data_types kind limited))) [
    | inl (e, bad) ↦
        rw (bad, make_input, first_input, parse_layer_input, get_layers_type)
          (failed e (data_types-raise kind limited e bad))
    | inr (names, good) ↦
        rw (good, make_input, first_input, parse_layer_input, get_layers_type)
          (made _
            (layer_input-identifier kind (data_types kind limited) context _
              ∙ occurs-identifier kind k)
            refl)
  ]

  pub make_input-Outcome :
      (kind : Kind) (d : DefaultValue) (k : Arguments)
      → Outcome k.identifier kind d (make_input types_map context kind d k)
  unfolding make_input first_input parse_literal_input parse_layer_input parse_file_input
      make_literal make_complex add_metadata
  make_input-Outcome Params.string_param d k = made _ refl refl
  make_input-Outcome Params.boolean_param d k = made _ refl refl
  make_input-Outcome Params.band_param d k = made _ refl refl
  make_input-Outcome (Params.enum_param options multiple) d k = enum-Outcome options multiple d k
  make_input-Outcome (Params.number_param t lo hi) d k = made _ refl refl
  make_input-Outcome (Params.distance_param parent unit name lo hi) d k = made _ refl refl
  make_input-Outcome (Params.scale_param lo hi) d k = made _ refl refl
  make_input-Outcome (Params.duration_param name lo hi) d k = made _ refl refl
  make_input-Outcome (Params.field_param parent t) d k = made _ refl refl
  make_input-Outcome (Params.layer_param kind limited) d k = layer-Outcome kind limited d k
  make_input-Outcome (Params.file_param true extension) d k = made _ refl refl
  make_input-Outcome (Params.file_param false extension) d k =
      made _ (file_input-identifier types_map extension k) refl
  make_input-Outcome (Params.file_destination extension) d k = made _ refl refl
  make_input-Outcome Params.folder_destination d k = made _ refl refl
  make_input-Outcome (Params.other_param name) d k = refused refl

  pub with_metadata-Outcome :
      (p : Param) (r : Result WpsInput)
      → Outcome p.name p.kind p.default_value r
      → Outcome p.name p.kind p.default_value (with_metadata types_map context p r)
  unfolding with_metadata parse_metadata
  with_metadata-Outcome p r (made w same yet) = made (parse_metadata p w) same yet
  with_metadata-Outcome p r (refused none_of) = refused none_of
  with_metadata-Outcome p r (failed e other) = failed e other
