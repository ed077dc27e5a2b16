-- ===== src/Config.antt =====
-- pyqgiswps/config.py: the configuration service over `CONFIG`, which is a `ConfigParser`.
pub mod Origin
pub mod Settings
pub mod Stored
pub mod Table
mod Tests
use Prim.Native.Char.{Char}
use py_qgis_wps.Prelude.{
  ◌≡◌, String, Bool, true, false, not, ◌&&◌, Option, none, some, List, [], ◌∷◌, Dict, lookup,
  insert, has, str_dec, ◌==◌, if◌then◌else◌,
}
use py_qgis_wps.Prelude.Text.{append, upper, replace, text_length}
use py_qgis_wps.Exceptions.{Exn, key_error, value_error, no_section_error, Result, ok, raise}
use py_qgis_wps.Exec.{Exec}

-- `CONFIG`: the options of its sections, as they were written. There is no section of defaults.
abbrev pub Config : Type 0
Config = Dict String (Dict String String)

-- `os.environ`
abbrev pub Environ : Type 0
Environ = String → Option String

-- `getenv2`
unfoldable pub getenv2 : Environ → String → String → Option String → Option String
getenv2 env env1 env2 default = elim (env env1) [
  | some v ↦ some v
  | none ↦ elim (env env2) [ some v ↦ some v | none ↦ default ]
]

-- `ENV_REPLACE_CHARS`
abbrev env_replace_chars : String
env_replace_chars = ":.-@#$%&*"

-- Each of the characters replaced by the mark.
abbrev replace_all : String → Char → String → String
replace_all String.[] mark s = s
replace_all (String.◌∷◌ c cs) mark s = replace_all cs mark (replace c mark s)

-- `varname` of `__get_impl`
unfoldable pub varname : String → String → String
unfolding append upper replace
varname section option =
    replace_all env_replace_chars "_"
      (append "QGSWPS_" (append (upper section) (append "_" (upper option))))

-- An option as it was written.
unfoldable pub raw : Config → String → String → Option String
unfolding lookup
raw c section option = elim (lookup str_dec section c) [
  | none ↦ none
  | some options ↦ lookup str_dec option options
]

-- `CONFIG.add_section`, a duplicate being left alone.
unfoldable pub add_section : String → Config → Config
unfolding insert
add_section section c = if has str_dec section c then c else insert str_dec section [] c

-- A text put among the options of a section, where there is one.
unfoldable pub put_option :
    String → String → String → Option (Dict String String) → Exec Config (Unit {0})
unfolding insert
put_option section option value none c = (raise no_section_error, c)
put_option section option value (some options) c =
    (ok tt, insert str_dec section (insert str_dec option value options) c)

-- What `os.path` says of a path.
pub record Paths : Type 0 where
  pub normpath : String → String
  pub isdir : String → Bool
  pub isabs : String → Bool

-- What `ConfigParser` does with a text: `before_set`, whether its interpolation takes it, and
-- the value that it reads for an option, interpolated and converted.
module _ (before_set : String → Bool) where
  -- `CONFIG.set`
  unfoldable pub set : String → String → String → Exec Config (Unit {0})
  unfolding lookup put_option
  set section option value c =
      if before_set value
      then put_option section option value (lookup str_dec section c) c
      else (raise value_error, c)

  module _ {A : Type 0} (convert : Config → String → String → String → Result A) where
    abbrev keep_some : Result A → Result (Option A)
    keep_some (ok a) = ok (some a)
    keep_some (raise e) = raise e

    -- `CONFIG.get` and its variants with a fallback; `none` is `NO_DEFAULT`.
    unfoldable pub get_fun : String → String → Option A → Config → Result (Option A)
    unfolding raw
    get_fun section option fallback c = elim (raw c section option) [
      | none ↦ ok fallback
      | some text ↦ keep_some (convert c section option text)
    ]

    -- The last lines of `__get_impl`
    abbrev found : Result (Option A) → Result A
    found (ok (some value)) = ok value
    found (ok none) = raise key_error
    found (raise e) = raise e

    -- `_get_fun` once the value of the environment is stored
    unfoldable pub read_again :
        String → String → Option A → Result (Unit {0}) × Config → Result A × Config
    unfolding get_fun
    read_again section option fallback (raise e, c) = (raise e, c)
    read_again section option fallback (ok u, c) = (found (get_fun section option fallback c), c)

    -- The environment is looked at when the option has no value.
    unfoldable pub get_env : Environ → String → String → Option A → Exec Config A
    unfolding set get_fun read_again
    get_env env section option fallback c = elim (env (varname section option)) [
      | none ↦ (found (get_fun section option fallback c), c)
      | some v ↦ read_again section option fallback (set section option v c)
    ]

    -- `__get_impl`, the method behind `get`, `getint`, `getboolean` and `getfloat`
    unfoldable pub get_impl : Bool → Environ → String → String → Option A → Exec Config A
    unfolding get_fun get_env
    get_impl allow_env env section option fallback c = elim (get_fun section option none c) [
      | raise e ↦ (raise e, c)
      | ok (some value) ↦ (ok value, c)
      | ok none ↦
          if allow_env then get_env env section option fallback c else (found (ok fallback), c)
    ]

  unfoldable pub check_path : Paths → String → String → String → Exec Config (Unit {0})
  unfolding set
  check_path os confname confid confvalue c =
      if not (os.isdir confvalue)
      then (raise value_error, c)
      else if not (os.isabs confvalue)
      then (raise value_error, c)
      else set confname confid confvalue c

  unfoldable pub validate_config_path :
      (Config → String → String → String → Result String)
      → Paths
      → String
      → String
      → Bool
      → Exec Config (Unit {0})
  unfolding get_fun check_path
  validate_config_path convert os confname confid optional c =
      elim (get_fun convert confname confid (some "") c) [
        | raise e ↦ (raise e, c)
        | ok none ↦ (raise key_error, c)
        | ok (some confvalue) ↦
            if text_length confvalue == 0 && optional
            then (ok tt, c)
            else check_path os confname confid (os.normpath confvalue) c
      ]
