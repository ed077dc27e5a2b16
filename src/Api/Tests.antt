-- ===== src/Api/Tests.antt =====
-- Jobs of the API over a server of association lists.
use py_qgis_wps.Prelude.{
  ◌≡◌, ◌↔◌, refl, String, true, false, none, some, List, [], ◌∷◌, map, elem, str_dec, arith, inl,
  inr, ◌∙◌, if_pos,
}
use py_qgis_wps.Exceptions.{key_error, no_applicable_code, ok, raise}
use py_qgis_wps.Json.{Json, obj, end}
use py_qgis_wps.Prelude.Int.{pos}
use py_qgis_wps.Prelude.{Dict, lookup}
use py_qgis_wps.Api.Execute.{
  check_and_set_timeout, OutputType, literal_output, complex_output, get_outputs_from_document,
}
use py_qgis_wps.Api.Execute.Outputs.{
  Limited, check_and_set_timeout-Limited, get_outputs_from_document-append,
}
use py_qgis_wps.Request
use py_qgis_wps.Request.{Request, Dump, ServerConfig, ows_wps, dumps}
use py_qgis_wps.Request.Realm.{admin}
use py_qgis_wps.LogStore.Server.{Table, dict_table}
use py_qgis_wps.LogStore.Jobs.{Record, new_record}
use py_qgis_wps.LogStore.Store.{Server, Db, log_request, get_status, get_request}
use py_qgis_wps.LogStore.Invariant.{
  IsConsistent, empty_db, empty_db-IsConsistent, log_request-IsConsistent,
}
use py_qgis_wps.Api.Jobs.{JobDocument, Site, get_ogcapi_job_status, get_ogcapi_job_list}
use py_qgis_wps.Api.Visible.{
  MaySee, Answer, Listed, get_ogcapi_job_status-Answer, get_ogcapi_job_list-Listed,
}
use py_qgis_wps.Api.Store
use py_qgis_wps.Api.Store.{Body, inputs, check_resource_acl, store_put, get_dnl_params, job_get}
use py_qgis_wps.Api.Store.Access.{
  Permitted, check_resource_acl-Permitted, get_dnl_params-store_put, job_get_inputs,
}

abbrev server : Server
server = record {
  status = dict_table Record;
  requests = dict_table Dump;
  responses = dict_table String;
}

abbrev config : ServerConfig
config = record {
  response_timeout = 1800;
  response_expiration = 86400;
  enable_job_realm = true;
  admin_realm = "root";
  workdir = "/srv/wps";
}

abbrev request : Request
unfolding Request.init
request = record (Request.init ows_wps config) { realm = some "mine" }

abbrev logged : Db server
unfolding log_request
logged = (log_request server 1000 "job-1" request (empty_db server)).1

logged-IsConsistent : IsConsistent server logged
unfolding log_request
logged-IsConsistent =
    log_request-IsConsistent server 1000 "job-1" request (empty_db server)
      (empty_db-IsConsistent server)

get_ogcapi_job_status-Answer_example :
    Answer server config
      (some "theirs")
      "job-1"
      (get_status server "job-1" logged)
      (get_ogcapi_job_status server config (some "theirs") "job-1" logged)
get_ogcapi_job_status-Answer_example =
    get_ogcapi_job_status-Answer server config (some "theirs") "job-1" logged logged-IsConsistent

get_ogcapi_job_list-Listed_example :
    (l : List JobDocument) × (get_ogcapi_job_list server config (some "mine") logged ≡ ok l)
    × ((k : String)
        → (elem str_dec k (map (λ d. d.job_id) l) ≡ true)
          ↔ Listed server config (some "mine") logged k)
get_ogcapi_job_list-Listed_example =
    get_ogcapi_job_list-Listed server config (some "mine") logged logged-IsConsistent

abbrev site : Site server
site = record { world = record { db = logged; workdirs = "job-1" ∷ [] }; kills = [] }

file_listed :
    (check_resource_acl server config (some "mine") "job-1" (some "out.tif") logged ≡ ok tt)
    ↔ Permitted server config (some "mine") "job-1" logged (some "out.tif")
file_listed =
    check_resource_acl-Permitted server config (some "mine") "job-1" logged (some "out.tif")

abbrev tokens : Table Json
tokens = dict_table Json

abbrev free_config : ServerConfig
free_config = record config { enable_job_realm = false }

given :
    store_put server free_config none tokens "t0" "job-1"
      (some "out.tif")
      "geturl"
      logged
      tokens.empty
    ≡ ok (Store.create_dnl_url tokens "t0" "job-1" (some "out.tif") tokens.empty)
unfolding store_put str_dec
given = refl

broken_link :
    get_dnl_params tokens "t0"
      (Store.create_dnl_url tokens "t0" "job-1" (some "out.tif") tokens.empty)
    ≡ raise key_error
broken_link =
    get_dnl_params-store_put server free_config none tokens "t0" "job-1" (some "out.tif") "geturl"
      logged tokens.empty (Store.create_dnl_url tokens "t0" "job-1" (some "out.tif") tokens.empty)
      given

logged_status : get_status server "job-1" logged ≡ some (new_record 1000 "job-1" request)
unfolding get_status log_request
logged_status =
    server.status.get-put server.status.empty "job-1" "job-1" (new_record 1000 "job-1" request)
    ∙ if_pos (str_dec "job-1" "job-1") refl _ _

logged_request : get_request server "job-1" logged ≡ some (dumps request)
unfolding get_request log_request
logged_request =
    server.requests.get-put server.requests.empty "job-1" "job-1" (dumps request)
    ∙ if_pos (str_dec "job-1" "job-1") refl _ _

hidden : ¬ MaySee server config (some "theirs") (new_record 1000 "job-1" request)
unfolding new_record request
hidden (inl (admin on set same)) = cc (same)
hidden (inr e) = cc (some_eq "theirs" "mine" e)
  where
    some_eq : (a b : String) → some a ≡ some b → a ≡ b
    some_eq a b h = ground (arith, h)

job_get_inputs_example :
    (job_get server config (some "theirs") (some "job-1") none logged
      ≡ raise (no_applicable_code 401 ""))
    × (job_get server config (some "theirs") (some "job-1") (some "inputs") logged
        ≡ ok (inputs (dumps request).inputs))
job_get_inputs_example =
    job_get_inputs server config (some "theirs") "job-1" logged (new_record 1000 "job-1" request)
      (dumps request) logged_status hidden logged_request

check_and_set_timeout-Limited_example :
    Limited request (some (pos 60)) (check_and_set_timeout (some (pos 60)) request)
check_and_set_timeout-Limited_example = check_and_set_timeout-Limited (some (pos 60)) request

abbrev output_types : Dict String OutputType
output_types = ("count", literal_output) ∷ ("raster", complex_output) ∷ []

raster_type : lookup str_dec "raster" output_types ≡ some complex_output
unfolding lookup str_dec
raster_type = refl

raster_alone :
    get_outputs_from_document output_types (("raster", obj end) ∷ ("count", obj end) ∷ [])
    ≡ get_outputs_from_document output_types []
raster_alone =
    get_outputs_from_document-append output_types [] (("count", obj end) ∷ []) "raster" end
      raster_type
