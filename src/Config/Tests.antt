-- ===== src/Config/Tests.antt =====
-- Checks of a configuration with one section, whose values are read as they were written.
use py_qgis_wps.Prelude.{
  ◌≡◌, refl, ◌==◌, String, Bool, true, false, leb, none, some, [], ◌∷◌, lookup, str_dec,
}
use py_qgis_wps.Prelude.Text.{text_length}
use py_qgis_wps.Exceptions.{Result, ok, raise, key_error, value_error, no_section_error}
use py_qgis_wps.Config.{
  Config, Environ, Paths, varname, raw, add_section, get_impl, getenv2, validate_config_path,
}
use py_qgis_wps.Config.Table.{statements}
use py_qgis_wps.Config.Settings.{value_of}
use py_qgis_wps.Config.Settings.Loaded.{assigned}
use py_qgis_wps.Config.Origin.{get_impl-again}

-- Interpolation refuses the long texts.
abbrev before_set : String → Bool
before_set s = leb (text_length s) 9

abbrev written : Config → String → String → String → Result String
written c section option text = ok text

abbrev config : Config
config = ("server", ("port", "8080") ∷ []) ∷ []

abbrev env : Environ
env name = lookup str_dec name (
    ("QGSWPS_SERVER_HTTP_HOST", "localhost")
    ∷ ("QGSWPS_SERVER_BAD", "${unfinished")
    ∷ ("QGSWPS_CACHE_SIZE", "5")
    ∷ [])

abbrev no_env : Environ
no_env name = none

name : varname "server" "http.host" ≡ "QGSWPS_SERVER_HTTP_HOST"
unfolding varname
name = refl

abbrev host : Result String × Config
host = get_impl before_set written true env "server" "http.host" none config

localhost : host.0 ≡ ok "localhost"
unfolding get_impl str_dec varname
localhost = refl

read_twice :
    (get_impl before_set written false no_env "server" "http.host" (some "0.0.0.0") host.1
      ≡ (ok "localhost", host.1))
    × (raw host.1 "server" "port" ≡ raw config "server" "port")
unfolding lookup str_dec varname
read_twice =
    get_impl-again before_set written env no_env "server" "http.host" "localhost" none
      (some "0.0.0.0") false config "localhost" "server" "port" refl localhost (λ e. cc (e.1))

-- Without the environment there is the fallback, or a `KeyError`.
fallback_only :
    get_impl before_set written false env "server" "http.host" (some "0.0.0.0") config
    ≡ (ok "0.0.0.0", config)
unfolding get_impl str_dec varname
fallback_only = refl

nothing :
    get_impl before_set written true env "server" "host" none config ≡ (raise key_error, config)
unfolding get_impl str_dec varname
nothing = refl

-- A variable of a section that is not there, and one that interpolation refuses
no_section :
    get_impl before_set written true env "cache" "size" (some "9") config
    ≡ (raise no_section_error, config)
unfolding get_impl str_dec varname
no_section = refl

refused :
    get_impl before_set written true env "server" "bad" (some "9") config
    ≡ (raise value_error, config)
unfolding get_impl str_dec varname
refused = refl

added :
    (get_impl before_set written true env "cache" "size" none (add_section "cache" config)).0
    ≡ ok "5"
unfolding get_impl add_section str_dec varname
added = refl

second_name : getenv2 env "QGSWPS_CACHESIZE" "QGSWPS_CACHE_SIZE" none ≡ some "5"
unfolding getenv2 str_dec lookup
second_name = refl

abbrev if_blank : String → Bool → String
if_blank s true = "."
if_blank s false = s

abbrev paths : Paths
paths = record {
  normpath = λ s. if_blank s (text_length s == 0);
  isdir = λ s. true;
  isabs = λ s. text_length s == 4;
}

-- A path that is left out is taken for the working directory, which is not absolute.
relative :
    (validate_config_path before_set written paths "server" "root" false config).0
    ≡ raise value_error
unfolding validate_config_path str_dec
relative = refl

absolute :
    validate_config_path before_set written paths "server" "port" false config ≡ (ok tt, config)
unfolding validate_config_path str_dec
absolute = refl

left_out :
    validate_config_path before_set written paths "server" "root" true config ≡ (ok tt, config)
unfolding validate_config_path str_dec
left_out = refl

-- The variables of the settings
abbrev settings_env : Environ
settings_env name = lookup str_dec name (
    ("QGSWPS_SERVER_HTTP_PORT", "9090")
    ∷ ("QGSWPS_LOGLEVEL", "DEBUG")
    ∷ ("QGIS_SERVER_DISABLE_GETPRINT", "yes")
    ∷ [])

abbrev short : String → Bool
short s = leb (text_length s) 120

given_port : assigned short settings_env "server" "port" (statements "/tmp") none ≡ some "9090"
unfolding statements value_of lookup str_dec
given_port = refl

second_variable :
    assigned short settings_env "projects.cache" "disable_getprint" (statements "/tmp") none
    ≡ some "yes"
unfolding statements value_of getenv2 lookup str_dec
second_variable = refl

default_workdir :
    assigned short settings_env "server" "workdir" (statements "/tmp") none ≡ some "/tmp"
unfolding statements value_of lookup str_dec
default_workdir = refl
