-- ===== src/Bridge/Values.antt =====
-- pyqgiswps/executors/processingio.py and io: the values of a request as values of the parameters.
pub mod Enums
pub mod Paths
use py_qgis_wps.Prelude.{
  ℕ, zero, suc, String, Bool, true, false, ◌&&◌, ◌==◌, ltb, Option, none, some, List, [], ◌∷◌,
  length, str_dec, holds, if◌then◌else◌,
}
use py_qgis_wps.Prelude.Text.{text_length, append, starts_with}
use py_qgis_wps.Exceptions.{Exn, index_error, value_error, attribute_error, Result, ok, raise}
use py_qgis_wps.Json.{Json}
use py_qgis_wps.Validator.{Value, text, number}
use py_qgis_wps.Service.{Given, literal, value, reference, box}
use py_qgis_wps.Bridge.Params.{
  Kind, enum_param, layer_param, file_param, file_destination, folder_destination, feature_source,
  LayerKind, Param,
}
use py_qgis_wps.Bridge.Files.{normalize_path}

-- What is handed to the algorithm.
pub data Parameter : Type 0 where
  undefined : Parameter
  raw : Given → Parameter
  index : ℕ → Parameter
  indices : List ℕ → Parameter
  path : String → Parameter
  paths : List String → Parameter
  -- with whether only the selected features are read
  source : String → Bool → Parameter

-- `options.index(text)`: `none` is the `ValueError`.
unfoldable pub index_of : List String → String → Option ℕ
index_of [] s = none
index_of (option ∷ options) s = elim (index_of options s) [
  | none ↦ if holds (str_dec option s) then some 0 else none
  | some i ↦ if holds (str_dec option s) then some 0 else some (suc i)
]

-- `options.index(d.data)`: what is no text equals no option.
unfoldable pub option_index : List String → Given → Result ℕ
unfolding index_of
option_index options (literal uom (text s)) = elim (index_of options s) [
  | none ↦ raise value_error
  | some i ↦ ok i
]
option_index options g = raise value_error

unfoldable pub option_indices : List String → List Given → Result (List ℕ)
unfolding option_index
option_indices options [] = ok []
option_indices options (g ∷ gs) =
    let rest = option_indices options gs in
    elim (option_index options g) [
      | raise e ↦ raise e
      | ok i ↦ elim rest [ raise e ↦ raise e | ok is ↦ ok (i ∷ is) ]
    ]

unfoldable pub one_index : List String → List Given → Result Parameter
unfolding option_index
one_index options [] = raise index_error
one_index options (g ∷ gs) = elim (option_index options g) [
  | raise e ↦ raise e
  | ok i ↦ ok (index i)
]

unfoldable pub many_indices : List String → List Given → Result Parameter
unfolding option_indices
many_indices options inp = elim (option_indices options inp) [
  | raise e ↦ raise e
  | ok is ↦ ok (indices is)
]

unfoldable pub raw_value : List Given → Parameter
raw_value [] = undefined
raw_value (g ∷ gs) = raw g

-- `get_processing_value` of processingio.py
unfoldable pub get_processing_value : Kind → List Given → Result Parameter
unfolding one_index many_indices raw_value
get_processing_value (enum_param options multiple) inp =
    if multiple && ltb 1 (length inp) then many_indices options inp else one_index options inp
get_processing_value kind inp = ok (raw_value inp)

-- The text of a literal; `none` is data that is no text.
abbrev pub text_of : Given → Option String
text_of (literal uom (text s)) = some s
text_of g = none

-- `urlparse` and `parse_qs` of a layer: its path, with the expressions and the rectangles to select.
pub record LayerUrl : Type 0 where
  pub path : String
  pub select : List String
  pub rect : List String

abbrev is_empty {ℓ} : {A : Type ℓ} → List A → Bool
is_empty [] = true
is_empty (x ∷ xs) = false

abbrev pub given_text : Given → (String → Result Parameter) → Result Parameter
given_text g f = elim (text_of g) [ none ↦ raise attribute_error | some s ↦ f s ]

-- The URL of a layer, the selection of its features in QGIS, `Path.with_suffix` and the download of a
-- file are given by the caller.
module _ (parse_url : String → LayerUrl) (select_features : String → Result (Unit {0}))
    (with_suffix : String → String → Result String)
    (download_ref : String → Given → Result (Unit {0})) where
  unfoldable pub select_layer : String → LayerUrl → Result (String × Bool)
  select_layer layerspec u =
      if is_empty u.select && is_empty u.rect
      then ok (u.path, false)
      else elim (select_features layerspec) [ raise e ↦ raise e | ok done ↦ ok (u.path, true) ]

  unfoldable pub parse_layer_spec : Bool → String → Result (String × Bool)
  unfolding starts_with select_layer
  parse_layer_spec allow_selection layerspec =
      if starts_with "layer:" layerspec
      then if allow_selection
        then select_layer layerspec (parse_url layerspec)
        else ok ((parse_url layerspec).path, false)
      else ok (layerspec, false)

  unfoldable pub layer_path : String → Result Parameter
  unfolding parse_layer_spec
  layer_path s = elim (parse_layer_spec false s) [ raise e ↦ raise e | ok (p, sel) ↦ ok (path p) ]

  unfoldable pub layer_source : String → Result Parameter
  unfolding parse_layer_spec
  layer_source s = elim (parse_layer_spec true s) [
    | raise e ↦ raise e
    | ok (p, sel) ↦ ok (source p sel)
  ]

  unfoldable pub add_path : Result Parameter → Result Parameter → Result Parameter
  add_path (ok (path p)) (ok (paths ps)) = ok (paths (p ∷ ps))
  add_path (ok p) (ok q) = ok q
  add_path (ok p) (raise e) = raise e
  add_path (raise e) rest = raise e

  unfoldable pub layer_paths : List Given → Result Parameter
  unfolding layer_path add_path
  layer_paths [] = ok (paths [])
  layer_paths (g ∷ gs) = add_path (given_text g layer_path) (layer_paths gs)

  -- `get_processing_value` of layersio.py
  unfoldable pub layer_value : LayerKind → List Given → Result Parameter
  unfolding layer_path layer_source layer_paths
  layer_value kind [] = raise index_error
  layer_value feature_source (g ∷ gs) = given_text g layer_source
  layer_value kind (g ∷ []) = given_text g layer_path
  layer_value kind (g ∷ h ∷ gs) = layer_paths (g ∷ h ∷ gs)

  unfoldable pub suffixed : String → String → Result Parameter
  suffixed name extension = elim (with_suffix name (append "." extension)) [
    | raise e ↦ raise e
    | ok p ↦ ok (path p)
  ]

  -- The data are saved beside the results, under the name of the parameter.
  unfoldable pub saved : String → String → Given → Result Parameter
  saved name extension g = elim (with_suffix name extension) [
    | raise e ↦ raise e
    | ok p ↦ elim (download_ref p g) [ raise e ↦ raise e | ok done ↦ ok (path p) ]
  ]

  -- `get_processing_value` of filesio.py, for a parameter with a value
  unfoldable pub file_value : String → Kind → Given → Result Parameter
  unfolding normalize_path suffixed saved append
  file_value name folder_destination g = given_text g (λ s. ok (path (normalize_path s)))
  file_value name (file_destination extension) g =
      given_text g (λ s. suffixed (normalize_path s) extension)
  file_value name (file_param folder extension) g = saved name extension g
  file_value name kind g = ok undefined

  -- What comes before the last converter; `undefined` is `None`.
  unfoldable pub special_value : String → Kind → List Given → Result Parameter
  unfolding layer_value file_value
  special_value name (layer_param kind types) inp = layer_value kind inp
  special_value name folder_destination [] = raise index_error
  special_value name (file_destination extension) [] = raise index_error
  special_value name (file_param folder extension) [] = raise index_error
  special_value name kind [] = ok undefined
  special_value name kind (g ∷ gs) = file_value name kind g

  -- `or`: an empty text and `None` leave the turn to the last converter.
  unfoldable pub or_raw : Kind → List Given → Result Parameter → Result Parameter
  unfolding get_processing_value
  or_raw kind inp (raise e) = raise e
  or_raw kind inp (ok undefined) = get_processing_value kind inp
  or_raw kind inp (ok (path p)) =
      if text_length p == 0 then get_processing_value kind inp else ok (path p)
  or_raw kind inp (ok p) = ok p

  -- `input_to_processing`
  unfoldable pub input_to_processing : Param → List Given → Result (String × Parameter)
  unfolding special_value or_raw
  input_to_processing p inp = elim (or_raw p.kind inp (special_value p.name p.kind inp)) [
    | raise e ↦ raise e
    | ok v ↦ ok (p.name, v)
  ]
