-- ===== src/Config/Settings/Documented.antt =====
-- The environment variables of README.md and docker/README.md, and the options that they set.
use py_qgis_wps.Prelude.{◌≡◌, String, Option, none, some, List, [], ◌∷◌}
use py_qgis_wps.Config.{Config, Environ}
use py_qgis_wps.Config.Table.{variable}

-- A variable of the documentation, the option that is read for it, and the text without it.
pub record Documented : Type 0 where
  pub variable : String
  pub section : String
  pub option : String
  pub default : String

abbrev documents : (variable section option default : String) → Documented
documents v s o d = record { variable = v; section = s; option = o; default = d }

-- The variables as README.md and docker/README.md write them, where the program reads them.
abbrev pub documented : String → List Documented
documented tempdir =
    documents "QGSWPS_SERVER_WORKDIR" "server" "workdir" tempdir
    ∷ documents "QGSWPS_SERVER_PARALLELPROCESSES" "server" "parallelprocesses" "1"
    ∷ documents "QGSWPS_SERVER_RESPONSE_TIMEOUT" "server" "response_timeout" "1800"
    ∷ documents "QGSWPS_SERVER_RESPONSE_EXPIRATION" "server" "response_expiration" "86400"
    ∷ documents "QGSWPS_SERVER_WMS_SERVICE_URL" "server" "wms_service_url" "${wps.request:host_url}"
    ∷ documents "QGSWPS_SERVER_RESULTS_MAP_URI" "server" "wps_result_map_uri" "wps-results:"
    ∷ documents "QGSWPS_LOGLEVEL" "logging" "level" "INFO"
    ∷ documents "QGSWPS_REDIS_HOST" "logstorage:redis" "host" "localhost"
    ∷ documents "QGSWPS_REDIS_PORT" "logstorage:redis" "port" "6379"
    ∷ documents "QGSWPS_REDIS_DBNUM" "logstorage:redis" "dbnum" "0"
    ∷ documents "QGSWPS_CACHE_ROOTDIR" "projects.cache" "rootdir" ""
    ∷ documents "QGSWPS_PROCESSING_PROVIDERS_MODULE_PATH" "processing" "providers_module_path" ""
    ∷ []

-- The variable first, and else the default.
abbrev pub environment_first : Option String → String → String
environment_first (some t) default = t
environment_first none default = default

-- The option of a documented variable has its text, where options are read by a function.
abbrev pub TakesEffect : Environ → (String → String → Option String) → Documented → Type 0
TakesEffect env read d =
    read d.section d.option ≡ some (environment_first (env d.variable) d.default)
