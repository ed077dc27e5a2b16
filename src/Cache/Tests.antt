-- ===== src/Cache/Tests.antt =====
-- Checks of concrete caches: a project that is saved again between two look-ups.
use py_qgis_wps.Prelude.{
  ℕ, ◌+◌, ◌<◌, ◌≡◌, refl, String, true, false, none, some, List, [], ◌∷◌, arith, str_dec, inl,
}
use py_qgis_wps.Exceptions.{ok}
use py_qgis_wps.Lru
use py_qgis_wps.Lru.{Lru, peek}
use py_qgis_wps.Lru.Bounds.{IsValid, init-IsValid}
use py_qgis_wps.Prelude.Text.{or_else}
use py_qgis_wps.Cache.{UrlLib, CacheConfig, resolve_alias, scheme_allowed, rootdir_url}
use py_qgis_wps.Cache.Manager
use py_qgis_wps.Cache.Manager.{
  PathLib, Disk, QgisRead, CacheDetails, lookup_project, strict_checked,
}
use py_qgis_wps.Cache.Location.{Moment, Later}
use py_qgis_wps.Cache.Histories.{look, reset, Life, Passes, answers, reads, answers-init-reads}
use py_qgis_wps.Cache.Refusal.{strict_checked-Acceptable, Acceptable}
use py_qgis_wps.Cache.Files.{FileStore, lookup_file, expected, lookup_file-expected}

-- Keys are paths, and nothing is aliased but `file`.
abbrev urls : UrlLib
urls = record {
  urlparse =
      λ s. record { scheme = ""; netloc = ""; path = s; params = ""; query = ""; fragment = "" };
  urlunparse = λ u. u.path;
  urljoin = λ base s. base;
  parse_qs = λ s. [];
  has_path_field = λ s. false;
  format_path = λ s p. ok p;
}

abbrev paths : PathLib
paths = record { is_absolute = λ p. true; suffix = λ p. ".qgs"; with_suffix = λ p s. some p }

abbrev cfg : CacheConfig
cfg = record {
  size = 2;
  strict_check = true;
  trust_layer_metadata = false;
  disable_getprint = false;
  default_scheme = "file";
  allow_storage_schemes = "*";
  rootdir = "/srv/projects/";
  schemes = λ s. none;
}

abbrev closed : CacheConfig
closed = record cfg { allow_storage_schemes = "postgresql, geopkg" }

-- Every path is a file, saved at one moment, whose contents is a number.
abbrev saved : ℕ → ℕ → Disk ℕ
saved t contents = record {
  now = t + 1;
  is_file = λ p. true;
  mtime = λ p. t;
  storage = λ u. none;
  contents = λ p flags. record { project = contents; bad_layers = some "roads" ∷ [] };
}

abbrev restricted : ℕ → List String
restricted project = "roads" ∷ []

saved-Moment : (t contents : ℕ) → Moment (saved t contents)
saved-Moment t contents = record { files = λ p h. omega arith; storages = λ u m h. absurd (cc (h)) }

saved-Later : (t u a b : ℕ) → t + 1 < u → Later (saved t a) (saved u b)
saved-Later t u a b h = record {
  time = omega (arith, h);
  kept = λ p e. refl;
  files = λ p e. inl (omega (arith, h));
  storages = λ p m e. absurd (cc (e));
}

abbrev life : Life ℕ
life =
    (saved 10 1, look "roads.qgs")
    ∷ (saved 20 2, look "roads.qgs")
    ∷ (saved 30 3, reset)
    ∷ (saved 40 4, look "roads.qgs")
    ∷ []

life-Passes : Passes (saved 0 0) life
life-Passes = (
  saved-Moment 10 1,
  saved-Later 0 10 0 1 (omega arith),
  (
    saved-Moment 20 2,
    saved-Later 10 20 1 2 (omega arith),
    (
      saved-Moment 30 3,
      saved-Later 20 30 2 3 (omega arith),
      (saved-Moment 40 4, saved-Later 30 40 3 4 (omega arith), tt),
    ),
  ),
)

answers-init-reads_example :
    answers urls paths cfg restricted life (Manager.init urls paths cfg restricted)
    ≡ reads urls paths cfg restricted life
answers-init-reads_example =
    answers-init-reads urls paths cfg restricted (saved 0 0) life (omega arith) life-Passes

reads_values : reads urls paths cfg restricted life ≡ ok 1 ∷ ok 2 ∷ ok 4 ∷ []
unfolding Manager.get_project_factory Manager.get_project rootdir_url str_dec
reads_values = refl

abbrev manager : Manager.Manager ℕ
manager = Manager.init urls paths closed restricted

root_url :
    resolve_alias urls closed "roads.qgs" manager.aliases
    ≡ (ok (urls.urlparse "file:///srv/projects/"), manager.aliases)
unfolding Manager.init resolve_alias rootdir_url str_dec
root_url = refl

file_refused : scheme_allowed closed (or_else "" "file") ≡ false
unfolding scheme_allowed or_else str_dec
file_refused = refl

-- What QGIS reads of a project with a layer that it hides.
abbrev hidden : QgisRead ℕ
hidden = record { project = 7; bad_layers = some "roads" ∷ none ∷ [] }

hidden_checked : strict_checked cfg restricted hidden ≡ ok 7
unfolding strict_checked str_dec
hidden_checked = refl

strict_checked-Acceptable_example :
    Acceptable cfg restricted hidden × (hidden.project ≡ hidden.project)
strict_checked-Acceptable_example =
    strict_checked-Acceptable cfg restricted hidden 7 refl hidden_checked

abbrev store : FileStore ℕ
store = record { getpath = λ k. ok (k, 12); read = λ p. 5 }

abbrev files : Lru String (CacheDetails ℕ)
files = (Lru.init 3).1

file_read :
    ((lookup_file store "a" files).0 ≡ ok (expected store ("a", 12) (peek str_dec files "a")))
    × IsValid str_dec (lookup_file store "a" files).1
file_read =
    lookup_file-expected store "a" ("a", 12) files (init-IsValid str_dec 3 (omega arith)) refl
