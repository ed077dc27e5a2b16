-- ===== src/Bridge/Files.antt =====
-- pyqgiswps/executors/io/filesio.py: files and folders as inputs, and the names that a request gives
-- for the files and folders of the results.
use py_qgis_wps.Prelude.{
  String, Bool, true, false, ◌||◌, ◌==◌, Option, none, some, List, [], ◌∷◌, str_dec, holds,
  if◌then◌else◌,
}
use Prim.Native.Char.{code}
use py_qgis_wps.Prelude.Text.{split, append, text_length}
use py_qgis_wps.Service.{Format}
use py_qgis_wps.Bridge.Params.{
  Kind, file_param, file_destination, folder_destination, Arguments, WpsInput, make_literal,
  make_complex, add_metadata,
}

abbrev format_of_mime : Option String → List Format
format_of_mime none = []
format_of_mime (some mime) = record { mime_type = mime; encoding = ""; schema = "" } ∷ []

abbrev mime_or_empty : Option String → String
mime_or_empty none = ""
mime_or_empty (some mime) = mime

-- `types_map` is that of the module mimetypes.
module _ (types_map : String → Option String) where
  unfoldable pub file_input : String → Arguments → WpsInput
  unfolding make_complex add_metadata
  file_input extension k =
      if text_length extension == 0
      then make_complex k []
      else make_complex (add_metadata (("processing:extension", extension) ∷ []) k)
          (format_of_mime (types_map extension))

  -- `parse_input_definition`
  unfoldable pub parse_file_input : Kind → Arguments → Option WpsInput
  unfolding file_input make_literal add_metadata append
  parse_file_input (file_param true extension) k = some (make_literal k "string" [] none)
  parse_file_input (file_param false extension) k = some (file_input extension k)
  parse_file_input (file_destination extension) k = some (
      make_literal
        (add_metadata (("processing:format", mime_or_empty (types_map (append "." extension))) ∷ [])
          k)
        "string" [] none)
  parse_file_input folder_destination k = some (make_literal k "string" [] none)
  parse_file_input kind k = none

-- `path.startswith('/')`
unfoldable pub is_absolute : String → Bool
is_absolute String.[] = false
is_absolute (String.◌∷◌ c s) = code c == b'/'

-- `..` on the components so far, the last one first
unfoldable pub up : Bool → List String → List String
up absolute [] = if absolute then [] else ".." ∷ []
up absolute (top ∷ rest) = if holds (str_dec top "..") then ".." ∷ top ∷ rest else rest

unfoldable pub add_component : Bool → List String → String → List String
unfolding up
add_component absolute stack c =
    if holds (str_dec c "") || holds (str_dec c ".")
    then stack
    else if holds (str_dec c "..")
    then up absolute stack
    else c ∷ stack

unfoldable pub normal_components : Bool → List String → List String → List String
unfolding add_component
normal_components absolute stack [] = stack
normal_components absolute stack (c ∷ cs) =
    normal_components absolute (add_component absolute stack c) cs

abbrev pub last_component : Bool → List String → String
last_component true [] = ""
last_component false [] = "."
last_component absolute (c ∷ rest) = c

-- `_normalize_path`: `os.path.basename(os.path.normpath(path))`
unfoldable pub normalize_path : String → String
unfolding split is_absolute normal_components
normalize_path s =
    last_component (is_absolute s) (normal_components (is_absolute s) [] (split "/" s))
