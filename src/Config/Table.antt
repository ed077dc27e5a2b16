-- ===== src/Config/Table.antt =====
-- pyqgiswps/config.py: the calls that load_configuration makes, as a table.
use py_qgis_wps.Prelude.{String, List, [], ◌∷◌, ◌++◌}

-- Where a setting has its text from: the source, or a variable with a default, or one of two.
pub data TextOrigin : Type 0 where
  text : String → TextOrigin
  variable : String → String → TextOrigin
  either : String → String → String → TextOrigin

pub data Statement : Type 0 where
  section : String → Statement
  setting : String → String → TextOrigin → Statement

abbrev server_settings : String → List Statement
server_settings tempdir =
    section "server"
    ∷ setting "server" "encoding" (text "utf-8")
    ∷ setting "server" "language" (text "en-US")
    ∷ setting "server" "port" (variable "QGSWPS_SERVER_HTTP_PORT" "8080")
    ∷ setting "server" "interfaces" (variable "QGSWPS_SERVER_INTERFACES" "127.0.0.1")
    ∷ setting "server" "outputfile_as_reference"
        (variable "QGSWPS_SERVER_OUTPUTFILE_AS_REFERENCE" "yes")
    ∷ setting "server" "maxinputsize" (variable "QGSWPS_SERVER_MAXINPUTSIZE" "100m")
    ∷ setting "server" "maxbuffersize" (variable "QGSWPS_SERVER_MAXBUFFERSIZE" "1m")
    ∷ setting "server" "workdir" (variable "QGSWPS_SERVER_WORKDIR" tempdir)
    ∷ setting "server" "proxy_url" (variable "QGSWPS_SERVER_PROXY_URL" "")
    ∷ setting "server" "http_proxy" (variable "QGSWPS_SERVER_HTTP_PROXY" "yes")
    ∷ setting "server" "parallelprocesses" (variable "QGSWPS_SERVER_PARALLELPROCESSES" "1")
    ∷ setting "server" "processlifecycle" (variable "QGSWPS_SERVER_PROCESSLIFECYCLE" "1")
    ∷ setting "server" "maxqueuesize" (variable "QGSWPS_SERVER_MAXQUEUESIZE" "100")
    ∷ setting "server" "response_timeout" (variable "QGSWPS_SERVER_RESPONSE_TIMEOUT" "1800")
    ∷ setting "server" "response_expiration" (variable "QGSWPS_SERVER_RESPONSE_EXPIRATION" "86400")
    ∷ setting "server" "wms_service_url"
        (variable "QGSWPS_SERVER_WMS_SERVICE_URL" "${wps.request:host_url}")
    ∷ setting "server" "ows_service_url"
        (variable "QGSWPS_SERVER_OWS_SERVICE_URL" "${wms_service_url}")
    ∷ setting "server" "wps_result_map_uri"
        (variable "QGSWPS_SERVER_RESULTS_MAP_URI" "wps-results:")
    ∷ setting "server" "wms_response_url"
        (text "${ows_service_url}?MAP={map_url}&service=WMS&request=GetCapabilities")
    ∷ setting "server" "cleanup_interval" (text "600")
    ∷ setting "server" "download_ttl" (variable "QGSWPS_DOWNLOAD_TTL" "30")
    ∷ setting "server" "enable_filters" (variable "QGSWPS_SERVER_ENABLE_FILTERS" "no")
    ∷ setting "server" "sys_config_path" (variable "QGSWPS_SYS_CONFIG_PATH" "/usr/share/qgis_wps")
    ∷ setting "server" "cross_origin" (variable "QGSWPS_SERVER_CROSS_ORIGIN" "yes")
    ∷ setting "server" "restartmon" (variable "QGSWPS_SERVER_RESTARTMON" "")
    ∷ setting "server" "ssl" (variable "QGSWPS_SERVER_SSL" "no")
    ∷ setting "server" "ssl_cert" (variable "QGSWPS_SERVER_SSL_CERT" "")
    ∷ setting "server" "ssl_key" (variable "QGSWPS_SERVER_SSL_KEY" "")
    ∷ setting "server" "admin_realm" (variable "QGSWPS_SERVER_ADMIN_REALM" "")
    ∷ setting "server" "enable_job_realm" (variable "QGSWPS_SERVER_ENABLE_JOB_REALM" "no")
    ∷ setting "server" "expose_server_infos" (variable "QGSWPS_EXPOSE_SERVER_INFOS" "no")
    ∷ []

abbrev logging_settings : List Statement
logging_settings =
    section "logging" ∷ setting "logging" "level" (variable "QGSWPS_LOGLEVEL" "INFO") ∷ []

abbrev logstorage_redis_settings : List Statement
logstorage_redis_settings =
    section "logstorage:redis"
    ∷ setting "logstorage:redis" "host" (variable "QGSWPS_REDIS_HOST" "localhost")
    ∷ setting "logstorage:redis" "port" (variable "QGSWPS_REDIS_PORT" "6379")
    ∷ setting "logstorage:redis" "dbnum" (variable "QGSWPS_REDIS_DBNUM" "0")
    ∷ setting "logstorage:redis" "prefix" (variable "QGSWPS_REDIS_PREFIX" "pyqgiswps")
    ∷ []

abbrev projects_cache_settings : List Statement
projects_cache_settings =
    section "projects.cache"
    ∷ setting "projects.cache" "size" (variable "QGSWPS_CACHE_SIZE" "10")
    ∷ setting "projects.cache" "rootdir" (variable "QGSWPS_CACHE_ROOTDIR" "")
    ∷ setting "projects.cache" "strict_check" (variable "QGSWPS_CACHE_STRICT_CHECK" "yes")
    ∷ setting "projects.cache" "trust_layer_metadata"
        (either "QGSWPS_TRUST_LAYER_METADATA" "QGIS_SERVER_TRUST_LAYER_METADATA" "no")
    ∷ setting "projects.cache" "disable_getprint"
        (either "QGSWPS_DISABLE_GETPRINT" "QGIS_SERVER_DISABLE_GETPRINT" "no")
    ∷ setting "projects.cache" "allow_storage_schemes"
        (variable "QGSWPS_CACHE_ALLOW_STORAGE_SCHEMES" "*")
    ∷ []

abbrev projects_schemes_settings : List Statement
projects_schemes_settings = section "projects.schemes" ∷ []

abbrev processing_settings : List Statement
processing_settings =
    section "processing"
    ∷ setting "processing" "providers_module_path"
        (variable "QGSWPS_PROCESSING_PROVIDERS_MODULE_PATH" "")
    ∷ setting "processing" "exposed_providers"
        (variable "QGSWPS_PROCESSING_EXPOSED_PROVIDERS" "script,model")
    ∷ setting "processing" "accesspolicy"
        (variable "QGSWPS_PROCESSING_ACCESSPOLICY" "${providers_module_path}/accesspolicy.yml")
    ∷ setting "processing" "default_module_path" (text "${server:sys_config_path}/processing")
    ∷ setting "processing" "vector.fileext" (variable "QGSWPS_PROCESSING_VECTOR_FILEEXT" "")
    ∷ setting "processing" "raster.fileext" (variable "QGSWPS_PROCESSING_RASTER_FILEEXT" "")
    ∷ setting "processing" "unsafe.raw_destination_input_sink"
        (variable "QGSWPS_PROCESSING_RAW_DESTINATION_INPUT_SINK" "no")
    ∷ setting "processing" "destination_root_path"
        (variable "QGSWPS_PROCESSING_DESTINATION_ROOT_PATH" "./")
    ∷ setting "processing" "adjust_ellipsoid" (variable "QGSWPS_PROCESSING_ADJUST_ELLIPSOID" "no")
    ∷ setting "processing" "default_crs" (variable "QGSWPS_PROCESSING_DEFAULT_CRS" "EPSG:4326")
    ∷ []

abbrev qgis_settings_folders_settings : List Statement
qgis_settings_folders_settings =
    section "qgis.settings.folders"
    ∷ setting "qgis.settings.folders" "Processing/Configuration/SCRIPTS_FOLDERS"
        (text "${processing:providers_module_path}/scripts")
    ∷ setting "qgis.settings.folders" "Processing/Configuration/MODELS_FOLDER"
        (text "${processing:providers_module_path}/models")
    ∷ []

abbrev qgis_settings_settings : List Statement
qgis_settings_settings = section "qgis.settings" ∷ []

abbrev qgis_projects_settings : List Statement
qgis_projects_settings =
    section "qgis.projects"
    ∷ setting "qgis.projects" "advertised_ows_url"
        (variable "QGSWPS_ADVERTISED_OWS_URL" "${server:ows_service_url}")
    ∷ []

abbrev metadata_settings : List Statement
metadata_settings =
    section "metadata"
    ∷ setting "metadata" "identification_fees" (text "NONE")
    ∷ setting "metadata" "identification_accessconstraints" (text "NONE")
    ∷ setting "metadata" "provider_name" (text "Organization Name")
    ∷ setting "metadata" "provider_url" (text "https://github.com/3liz/py-qgis-wps")
    ∷ setting "metadata" "contact_name" (text "Lastname, Firstname")
    ∷ setting "metadata" "contact_address" (text "Mailing Address")
    ∷ setting "metadata" "contact_email" (text "Email Address")
    ∷ setting "metadata" "contact_url" (text "Contact URL")
    ∷ setting "metadata" "contact_role" (text "pointOfContact")
    ∷ setting "metadata" "licence_url" (text "http://mozilla.org/MPL/2.0/")
    ∷ setting "metadata" "licence_name" (text "Mozilla Public Licences, v2.0")
    ∷ []

abbrev metadata_ows_settings : List Statement
metadata_ows_settings =
    section "metadata:ows"
    ∷ setting "metadata:ows" "identification_title" (text "Py-Qgis-WPS Processing Service")
    ∷ setting "metadata:ows" "identification_abstract" (
        text
          "Py-Qgis-WPS is an implementation of the Web Processing Service standard from the Open Geospatial Consortium.")
    ∷ setting "metadata:ows" "identification_keywords" (text "Py-Qgis-WPS,WPS,OGC,QGIS,processing")
    ∷ setting "metadata:ows" "identification_keywords_type" (text "theme")
    ∷ setting "metadata:ows" "identification_fees" (text "${metadata:identification_fees}")
    ∷ setting "metadata:ows" "identification_accessconstraints"
        (text "${metadata:identification_accessconstraints}")
    ∷ setting "metadata:ows" "provider_name" (text "${metadata:provider_name}")
    ∷ setting "metadata:ows" "provider_url" (text "${metadata:provider_url}")
    ∷ setting "metadata:ows" "contact_name" (text "${metadata:contact_name}")
    ∷ setting "metadata:ows" "contact_address" (text "${metadata:contact_address}")
    ∷ setting "metadata:ows" "contact_email" (text "${metadata:contact_email}")
    ∷ setting "metadata:ows" "contact_url" (text "${metadata:contact_url}")
    ∷ setting "metadata:ows" "contact_role" (text "${metadata:contact_role}")
    ∷ []

abbrev metadata_oapi_settings : List Statement
metadata_oapi_settings =
    section "metadata:oapi"
    ∷ setting "metadata:oapi" "openapi" (text "3.0.2")
    ∷ setting "metadata:oapi" "title" (text "Processes OGC API")
    ∷ setting "metadata:oapi" "description"
        (text "Implementation of processes api standards from the Open Geospatial Consortium.")
    ∷ setting "metadata:oapi" "terms_of_service" (text "")
    ∷ setting "metadata:oapi" "contact_name" (text "${metadata:contact_name}")
    ∷ setting "metadata:oapi" "contact_address" (text "${metadata:contact_address}")
    ∷ setting "metadata:oapi" "contact_email" (text "${metadata:contact_email}")
    ∷ setting "metadata:oapi" "contact_url" (text "${metadata:contact_url}")
    ∷ setting "metadata:oapi" "licence_name" (text "${metadata:licence_name}")
    ∷ setting "metadata:oapi" "licence_url" (text "${metadata:licence_url}")
    ∷ setting "metadata:oapi" "contact_role" (text "${metadata:contact_role}")
    ∷ setting "metadata:oapi" "external_doc_description" (text "Py-qgis-wps server documentation")
    ∷ setting "metadata:oapi" "external_doc_url" (text "https://docs.3liz.org/py-qgis-wps/")
    ∷ []

abbrev wps_request_settings : List Statement
wps_request_settings = section "wps.request" ∷ []

-- The statements of load_configuration; the default of the working directory is that of the system.
unfoldable pub statements : String → List Statement
statements tempdir =
    server_settings tempdir
    ++ logging_settings
    ++ logstorage_redis_settings
    ++ projects_cache_settings
    ++ projects_schemes_settings
    ++ processing_settings
    ++ qgis_settings_folders_settings
    ++ qgis_settings_settings
    ++ qgis_projects_settings
    ++ metadata_settings
    ++ metadata_ows_settings
    ++ metadata_oapi_settings
    ++ wps_request_settings
