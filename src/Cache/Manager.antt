-- ===== src/Cache/Manager.antt =====
-- `QgsCacheManager`, the handlers of the protocol `file` and of the storages of QGIS, and
-- `BadLayerHandler`.
use py_qgis_wps.Prelude.{
  ℕ, String, Bool, true, not, ◌&&◌, Option, none, some, List, [], ◌∷◌, Dict, str_dec, holds, elem,
  all, ltb, ◌==◌, if◌then◌else◌,
}
use py_qgis_wps.Prelude.Text.{or_else}
use py_qgis_wps.Exceptions.{
  value_error, file_not_found_error, strict_checking_error, path_not_allowed_error, Result, ok,
  raise,
}
use py_qgis_wps.Exec.{Exec, pure, throw, ◌>>=◌, ◌>>◌}
use py_qgis_wps.Lru
use py_qgis_wps.Lru.{Lru, peek, get_item, set_item, del_item, clear}
use py_qgis_wps.Cache.{ParseResult, UrlLib, CacheConfig, resolve_alias, rootdir_url, scheme_allowed}

-- What is used of `pathlib`: `with_suffix` raises `ValueError` for a path without a name.
pub record PathLib : Type 0 where
  pub is_absolute : String → Bool
  pub suffix : String → String
  pub with_suffix : String → String → Option String

-- The flags of `QgsProject.read`.
pub record ReadFlags : Type 0 where
  pub trust_layer_metadata : Bool
  pub dont_load_layouts : Bool

-- What QGIS makes of a file: the project, and the bad layers that it reports while it reads, each
-- by its element `layername`, which may be missing.
pub record QgisRead (P : Type 0) : Type 0 where
  pub project : P
  pub bad_layers : List (Option String)

-- The files and the storages at one moment; `now` is its time. A storage is `none` if QGIS has none
-- for the URI, and `some none` if its metadata cannot be read.
pub record Disk (P : Type 0) : Type 0 where
  pub now : ℕ
  pub is_file : String → Bool
  pub mtime : String → ℕ
  pub storage : String → Option (Option ℕ)
  pub contents : String → ReadFlags → QgisRead P

-- `CacheDetails`
pub record CacheDetails (P : Type 0) : Type 0 where
  pub project : P
  pub timestamp : ℕ

-- `{elem.text() for elem in nameElements if elem}`
unfoldable pub handle_bad_layers : List (Option String) → List String
handle_bad_layers [] = []
handle_bad_layers (none ∷ layers) = handle_bad_layers layers
handle_bad_layers (some name ∷ layers) = name ∷ handle_bad_layers layers

unfoldable pub validate_layers : List String → List String → Bool
validate_layers [] restricteds = true
validate_layers (n ∷ names) restricteds = all (λ name. elem str_dec name restricteds) (n ∷ names)

unfoldable pub flags_of : CacheConfig → ReadFlags
flags_of cfg = record {
  trust_layer_metadata = cfg.trust_layer_metadata;
  dont_load_layouts = cfg.disable_getprint;
}

module _ {P : Type 0} (cfg : CacheConfig) (restricted_layers : P → List String) where
  -- What `read_project` makes of what QGIS read.
  unfoldable pub strict_checked : QgisRead P → Result P
  unfolding handle_bad_layers validate_layers
  strict_checked r =
      if cfg.strict_check
        && not (validate_layers (handle_bad_layers r.bad_layers) (restricted_layers r.project))
      then raise strict_checking_error
      else ok r.project

  unfoldable pub read_project : Disk P → String → Result P
  unfolding strict_checked flags_of
  read_project w path = strict_checked (w.contents path (flags_of cfg))

  -- The end of both `get_project`: a project that is not older than the file is kept.
  unfoldable pub reread : Disk P → String → ℕ → Result (CacheDetails P)
  unfolding read_project
  reread w path modified_time = elim (read_project w path) [
    | raise e ↦ raise e
    | ok project ↦ ok (record { project = project; timestamp = modified_time })
  ]

  unfoldable pub keep_or_read :
      Disk P → Option (CacheDetails P) → String × ℕ → Result (CacheDetails P)
  unfolding reread
  keep_or_read w none (path, modified_time) = reread w path modified_time
  keep_or_read w (some d) (path, modified_time) =
      if ltb d.timestamp modified_time then reread w path modified_time else ok d

  unfoldable pub from_location :
      Disk P → Option (CacheDetails P) → Result (String × ℕ) → Result (CacheDetails P)
  unfolding keep_or_read
  from_location w details (raise e) = raise e
  from_location w details (ok location) = keep_or_read w details location

-- `get_storage_metadata`, with the modification time that it holds
unfoldable pub get_storage_metadata : {P : Type 0} → Disk P → String → Result (String × ℕ)
get_storage_metadata w uri = elim (w.storage uri) [
  | none ↦ raise file_not_found_error
  | some none ↦ raise file_not_found_error
  | some (some modified) ↦ ok (uri, modified)
]

module _ (paths : PathLib) {P : Type 0} (w : Disk P) where
  open paths use {is_absolute, suffix, with_suffix}

  unfoldable pub existing : String → Result (String × ℕ) → Result (String × ℕ)
  existing path otherwise = if w.is_file path then ok (path, w.mtime path) else otherwise

  -- The loop over `ALLOWED_SFX`
  unfoldable pub try_suffixes : List String → String → Result (String × ℕ)
  unfolding existing
  try_suffixes [] path = raise file_not_found_error
  try_suffixes (sfx ∷ rest) path = elim (with_suffix path sfx) [
    | none ↦ raise value_error
    | some q ↦ existing q (try_suffixes rest q)
  ]

  -- `FileProtocolHandler.get_project` up to the modification time
  unfoldable pub locate : String → Result (String × ℕ)
  unfolding try_suffixes existing
  locate path =
      if is_absolute path
      then (if elem str_dec (suffix path) (".qgs" ∷ ".qgz" ∷ [])
          then existing path (raise file_not_found_error)
          else try_suffixes (".qgs" ∷ ".qgz" ∷ []) path)
      else raise value_error

-- The handlers of the program; `none` of the services is `FactoryNotFoundError`.
pub data Handler : Type 0 where
  file_handler storage_handler : Handler

pub record Manager (P : Type 0) : Type 0 where
  pub cache : Lru String (CacheDetails P)
  pub aliases : Dict String String

module _ {P : Type 0} (urls : UrlLib) (paths : PathLib) (cfg : CacheConfig)
    (restricted_layers : P → List String) where
  open urls use {urlunparse}

  -- `__init__`
  unfoldable pub init : Manager P
  unfolding Lru.init rootdir_url
  init = record { cache = (Lru.init cfg.size).1; aliases = ("file", rootdir_url cfg) ∷ [] }

  unfoldable pub get_project :
      Handler × ParseResult → Disk P → Option (CacheDetails P) → Result (CacheDetails P)
  unfolding from_location locate get_storage_metadata
  get_project (file_handler, url) w details =
      from_location cfg restricted_layers w details (locate paths w url.path)
  get_project (storage_handler, url) w details =
      from_location cfg restricted_layers w details (get_storage_metadata w (urlunparse url))

  -- The handler that is registered for a scheme: the program registers one for `file` only.
  unfoldable pub handler_of : String → Handler
  handler_of scheme = if holds (str_dec scheme "file") then file_handler else storage_handler

  unfoldable pub factory_of : ParseResult → Result (Handler × ParseResult)
  unfolding handler_of scheme_allowed or_else
  factory_of url =
      let scheme = or_else url.scheme cfg.default_scheme in
      if scheme_allowed cfg scheme
      then ok (handler_of scheme, url)
      else raise path_not_allowed_error

  unfoldable pub get_project_factory : String → Exec (Dict String String) (Handler × ParseResult)
  unfolding resolve_alias factory_of
  get_project_factory key = do
    url ← resolve_alias urls cfg key
    λ aliases. (factory_of url, aliases)

  unfoldable pub on_aliases {ℓ} : {A : Type ℓ} → Exec (Dict String String) A → Exec (Manager P) A
  on_aliases f m = ((f m.aliases).0, record m { aliases = (f m.aliases).1 })

  unfoldable pub on_cache {ℓ} :
      {A : Type ℓ} → Exec (Lru String (CacheDetails P)) A → Exec (Manager P) A
  on_cache f m = ((f m.cache).0, record m { cache = (f m.cache).1 })

  -- `timestamp != details.timestamp`; an entry that is new is updated.
  unfoldable pub is_updated : Option (CacheDetails P) → CacheDetails P → Bool
  is_updated none d = true
  is_updated (some details) d = not (d.timestamp == details.timestamp)

  unfoldable pub store_details :
      String → Option (CacheDetails P) → Result (CacheDetails P) → Exec (Manager P) Bool
  unfolding on_cache set_item is_updated
  store_details key details (raise e) = throw e
  store_details key details (ok d) = do
    on_cache (set_item str_dec key d)
    pure (is_updated details d)

  unfoldable pub update_entry : Disk P → String → Exec (Manager P) Bool
  unfolding on_aliases get_project_factory get_project store_details peek
  update_entry w key = do
    factory ← on_aliases (get_project_factory key)
    λ m.
        (let details = peek str_dec m.cache key in
          store_details key details (get_project factory w details) m)

  unfoldable pub lookup_project : Disk P → String → Exec (Manager P) (P × Bool)
  unfolding update_entry on_cache get_item
  lookup_project w key = do
    updated ← update_entry w key
    details ← on_cache (get_item str_dec key)
    pure (details.project, updated)

  unfoldable pub clear_cache : Manager P → Manager P
  unfolding clear
  clear_cache m = record m { cache = clear m.cache }

  unfoldable pub remove_entry : String → Exec (Manager P) (Unit {0})
  unfolding on_cache del_item
  remove_entry key = on_cache (del_item str_dec key)
