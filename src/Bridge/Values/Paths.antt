-- ===== src/Bridge/Values/Paths.antt =====
-- Where the folders and files that a request names for its results lie.
use py_qgis_wps.Prelude.{
  ◌≡◌, refl, sym, ap, ◌∙◌, subst, String, Bool, true, false, not, ◌||◌, ◌==◌, Option, List, [], ◌∷◌,
  all, str_dec, holds, arith, if◌then◌else◌,
}
use py_qgis_wps.Prelude.Text.{split, free, all_free, all_free-split, text_length}
use py_qgis_wps.Exceptions.{Result, ok}
use py_qgis_wps.Validator.{text}
use py_qgis_wps.Service.{Given, literal}
use py_qgis_wps.Bridge.Params.{Param, folder_destination}
use py_qgis_wps.Bridge.Files.{
  is_absolute, up, add_component, normal_components, last_component, normalize_path,
}
use py_qgis_wps.Bridge.Values.{
  Parameter, path, raw, LayerUrl, file_value, special_value, or_raw, get_processing_value,
  input_to_processing,
}

abbrev pub is_parent : String → Bool
is_parent c = holds (str_dec c "..")

-- Whether no component leads to a parent folder.
abbrev pub no_parent : List String → Bool
no_parent = all (λ c. not (is_parent c))

-- Components that are names, and of which none is the parent.
abbrev Kept : List String → Type 0
Kept stack = (all_free "/" stack ≡ true) × (no_parent stack ≡ true)

add_component-Kept :
    (absolute : Bool) (stack : List String) (c : String)
    → free "/" c ≡ true
    → not (is_parent c) ≡ true
    → Kept stack
    → Kept (add_component absolute stack c)
unfolding add_component
add_component-Kept absolute stack c named other h = ground arith

normal_components-Kept :
    (absolute : Bool) (stack cs : List String)
    → all_free "/" cs ≡ true
    → no_parent cs ≡ true
    → Kept stack
    → Kept (normal_components absolute stack cs)
unfolding normal_components
normal_components-Kept absolute stack [] named other h = h
normal_components-Kept absolute stack (c ∷ cs) named other h =
    normal_components-Kept absolute (add_component absolute stack c) cs (ground arith)
      (ground arith) (add_component-Kept absolute stack c (ground arith) (ground arith) h)

last_component-Kept :
    (absolute : Bool) (stack : List String)
    → Kept stack
    → (free "/" (last_component absolute stack) ≡ true)
      × (is_parent (last_component absolute stack) ≡ false)
unfolding str_dec
last_component-Kept true [] h = (refl, refl)
last_component-Kept false [] h = (refl, refl)
last_component-Kept true (c ∷ stack) h = ground arith
last_component-Kept false (c ∷ stack) h = ground arith

-- The name that is kept of a path without a parent folder is one component, and not the parent.
normalize_path-Kept :
    (s : String)
    → no_parent (split "/" s) ≡ true
    → (free "/" (normalize_path s) ≡ true) × (is_parent (normalize_path s) ≡ false)
unfolding normalize_path
normalize_path-Kept s other =
    last_component-Kept (is_absolute s) (normal_components (is_absolute s) [] (split "/" s)) (
      normal_components-Kept (is_absolute s) [] (split "/" s) (all_free-split "/" s) other
        (refl, refl))

-- Whether the components lead nowhere below the root.
abbrev pub at_root : List String → Bool
at_root = all (λ c. holds (str_dec c "") || holds (str_dec c ".") || is_parent c)

normal_components-at_root :
    (cs : List String) → at_root cs ≡ true → normal_components true [] cs ≡ []
unfolding normal_components add_component up
normal_components-at_root [] h = refl
normal_components-at_root (c ∷ cs) h =
    let stays : add_component true [] c ≡ [] = ground arith in
    ap (λ stack. normal_components true stack cs) stays
    ∙ normal_components-at_root cs (ground arith)

module _ (parse_url : String → LayerUrl) (select_features : String → Result (Unit {0}))
    (with_suffix : String → String → Result String)
    (download_ref : String → Given → Result (Unit {0})) where
  folder_value :
      (p : Param) (s : String) (uom : Option String) (gs : List Given) (v : Parameter)
      → p.kind ≡ folder_destination
      → or_raw parse_url select_features with_suffix download_ref folder_destination
          (literal uom (text s) ∷ gs)
          (ok (path (normalize_path s)))
        ≡ ok v
      → input_to_processing parse_url select_features with_suffix download_ref p
          (literal uom (text s) ∷ gs)
        ≡ ok (p.name, v)
  unfolding input_to_processing special_value file_value
  folder_value p s uom gs v folder made =
      let turned =
        subst
          (λ kind.
            or_raw parse_url select_features with_suffix download_ref kind
              (literal uom (text s) ∷ gs)
              (special_value parse_url select_features with_suffix download_ref p.name kind
                (literal uom (text s) ∷ gs))
            ≡ ok v)
          (sym folder) made in
      rw (turned, input_to_processing) refl

  -- The folder that a request names for its results, by a path without a parent folder of which a
  -- name is left, is a single component, and neither the parent folder nor a path of several
  -- components.
  pub input_to_processing-folder :
      (p : Param) (s : String) (uom : Option String) (gs : List Given)
      → p.kind ≡ folder_destination
      → no_parent (split "/" s) ≡ true
      → (text_length (normalize_path s) == 0) ≡ false
      → (input_to_processing parse_url select_features with_suffix download_ref p
            (literal uom (text s) ∷ gs)
          ≡ ok (p.name, path (normalize_path s)))
        × (free "/" (normalize_path s) ≡ true)
        × (is_parent (normalize_path s) ≡ false)
  unfolding or_raw
  input_to_processing-folder p s uom gs folder other named =
      let (one, below) = normalize_path-Kept s other in
      (folder_value p s uom gs (path (normalize_path s)) folder (rw named refl), one, below)

  -- A path from the root whose components are all empty, a dot or a parent folder is handed to the
  -- algorithm as it was sent, for a folder of results.
  pub input_to_processing-at_root :
      (p : Param) (s : String) (uom : Option String) (gs : List Given)
      → p.kind ≡ folder_destination
      → is_absolute s ≡ true
      → at_root (split "/" s) ≡ true
      → input_to_processing parse_url select_features with_suffix download_ref p
          (literal uom (text s) ∷ gs)
        ≡ ok (p.name, raw (literal uom (text s)))
  unfolding or_raw normalize_path get_processing_value
  input_to_processing-at_root p s uom gs folder absolute root =
      let nothing : normalize_path s ≡ "" =
        ap (λ b. last_component b (normal_components b [] (split "/" s))) absolute
        ∙ ap (last_component true) (normal_components-at_root (split "/" s) root) in
      folder_value p s uom gs (raw (literal uom (text s))) folder (
        ap (λ q. if text_length q == 0 then ok (raw (literal uom (text s))) else ok (path q))
          nothing)
