-- ===== src/Cache.antt =====
-- qgscache/cachemanager.py: how the key of a project becomes the URL that is read.
pub mod Manager
pub mod Aliases
pub mod Location
pub mod Fresh
pub mod Lookups
pub mod Histories
pub mod Refusal
pub mod Files
mod Tests
use py_qgis_wps.Prelude.{
  ℕ, String, Bool, true, false, Option, none, some, List, [], ◌∷◌, map, Dict, lookup, insert,
  str_dec, holds, if◌then◌else◌, elem,
}
use py_qgis_wps.Prelude.Text.{append, join, lower, replace, or_else, split, strip}
use py_qgis_wps.Exceptions.{Exn, Result, ok, raise}
use py_qgis_wps.Exec.{Exec}

-- `urllib.parse.ParseResult`
pub record ParseResult : Type 0 where
  pub scheme : String
  pub netloc : String
  pub path : String
  pub params : String
  pub query : String
  pub fragment : String

-- What is used of `urllib.parse`, and of the fields of a format text. `parse_qs` gives every name
-- the values that it has, of which there is at least one.
pub record UrlLib : Type 0 where
  pub urlparse : String → ParseResult
  pub urlunparse : ParseResult → String
  pub urljoin : String → String → String
  pub parse_qs : String → Dict String (String × List String)
  pub has_path_field : String → Bool
  pub format_path : String → String → Result String

-- `confservice['projects.cache']` and `confservice['projects.schemes']`, as far as they are read
-- here.
pub record CacheConfig : Type 0 where
  pub size : ℕ
  pub strict_check : Bool
  pub trust_layer_metadata : Bool
  pub disable_getprint : Bool
  pub default_scheme : String
  pub allow_storage_schemes : String
  pub rootdir : String
  pub schemes : String → Option String

-- The base URL of the scheme `file`.
unfoldable pub rootdir_url : CacheConfig → String
unfolding append strip
rootdir_url cfg = append "file:///" (append (strip "/" cfg.rootdir) "/")

-- The allowed schemes; `none` is all of them. Blanks are the white space that is stripped.
unfoldable pub allowed_schemes : CacheConfig → Option (List String)
unfolding split strip
allowed_schemes cfg =
    if holds (str_dec cfg.allow_storage_schemes "*")
    then none
    else some (map (strip " ") (split "," cfg.allow_storage_schemes))

unfoldable pub scheme_allowed : CacheConfig → String → Bool
unfolding allowed_schemes
scheme_allowed cfg scheme = elim (allowed_schemes cfg) [
  | none ↦ true
  | some l ↦ elem str_dec scheme l
]

-- `params_2.update(params_1)`
unfoldable pub update_params : {V : Type 0} → Dict String V → Dict String V → Dict String V
unfolding insert
update_params [] params_2 = params_2
update_params ((k, v) ∷ params_1) params_2 = update_params params_1 (insert str_dec k v params_2)

abbrev key_value : String → String → String
key_value k v = append k (append "=" v)

module _ (urls : UrlLib) (cfg : CacheConfig) where
  open urls use {urlparse, urlunparse, urljoin, parse_qs, has_path_field, format_path}

  unfoldable pub merge_qs : String → String → String
  unfolding update_params append join
  merge_qs query1 query2 =
      join "&" (map (λ e. key_value e.0 e.1.0) (update_params (parse_qs query1) (parse_qs query2)))

  -- The scheme that the user configured becomes an alias; without one, what was there stays.
  unfoldable pub user_scheme : String → Dict String String → String × Dict String String
  unfolding lower replace insert
  user_scheme scheme aliases = elim (cfg.schemes (lower (replace "-" "_" scheme))) [
    | none ↦ ("", aliases)
    | some baseurl ↦ (baseurl, insert str_dec scheme baseurl aliases)
  ]

  -- The base URL of a scheme; the empty text counts as none.
  unfoldable pub base_of : String → Dict String String → String × Dict String String
  unfolding lookup user_scheme
  base_of scheme aliases = elim (lookup str_dec scheme aliases) [
    | none ↦ user_scheme scheme aliases
    | some baseurl ↦
        if holds (str_dec baseurl "") then user_scheme scheme aliases else (baseurl, aliases)
  ]

  -- The URL against a base that is not empty.
  unfoldable pub against : String → ParseResult → Result ParseResult
  unfolding merge_qs append
  against base url =
      if has_path_field base
      then elim (format_path base url.path) [ raise e ↦ raise e | ok s ↦ ok (urlparse s) ]
      else (let baseurl = urlparse base in
          ok (
            urlparse (
              urljoin (urlunparse baseurl)
                (append url.path (append "?" (merge_qs baseurl.query url.query))))))

  unfoldable pub with_base : String → ParseResult → Result ParseResult
  unfolding against
  with_base base url = if holds (str_dec base "") then ok url else against base url

  unfoldable pub resolve_alias : String → Exec (Dict String String) ParseResult
  unfolding base_of with_base or_else
  resolve_alias key aliases =
      let url = urlparse key in
      let (base, aliases') = base_of (or_else url.scheme cfg.default_scheme) aliases in
      (with_base base url, aliases')
