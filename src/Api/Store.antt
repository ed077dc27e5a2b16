-- ===== src/Api/Store.antt =====
-- handlers/storehandler.py, handlers/statushandler.py and the job and result handlers of
-- handlers/processeshandler.py, over the log store.
pub mod Access
use py_qgis_wps.Prelude.{
  ℕ, String, Bool, true, false, not, Option, none, some, List, [], ◌∷◌, Dict, elem, holds, str_dec,
  if◌then◌else◌,
}
use py_qgis_wps.Exceptions.{
  Exn, key_error, type_error, file_not_found_error, http_error, no_applicable_code, Result, ok,
  raise,
}
use py_qgis_wps.Json.{Json, null, str, obj, field, end, get_field}
use py_qgis_wps.Request.{ServerConfig, must_check_realm}
use py_qgis_wps.LogStore.Server.{Table}
use py_qgis_wps.LogStore.Jobs.{Record}
use py_qgis_wps.LogStore.Store.{Server, Db, get_status, get_request, get_results}
use py_qgis_wps.Executor.Cleanup.{World, delete_results}
use py_qgis_wps.Api.Jobs.{
  JobDocument, Dismissal, Site, get_ogcapi_job_status, get_ogcapi_job_list, get_ogcapi_job_dismiss,
}

-- `logstore.set_json` and `get_json`: a table of tokens, where a token goes at its time.
module _ (tokens : Table Json) where
  -- The document behind a download: `json.dumps({'uuid': ..., 'name': ...})`.
  unfoldable pub token_document : String → Option String → Json
  token_document job_id none = obj (field "uuid" (str job_id) (field "name" null end))
  token_document job_id (some resource) =
      obj (field "uuid" (str job_id) (field "name" (str resource) end))

  unfoldable pub create_dnl_url : String → String → Option String → tokens.Store → tokens.Store
  unfolding token_document
  create_dnl_url token job_id resource s = tokens.put s token (token_document job_id resource)

  -- `params['uuid'], params['resource']`
  unfoldable pub read_params : Json → Result (Json × Json)
  unfolding get_field
  read_params (obj d) = elim (get_field "uuid" d) [
    | none ↦ raise key_error
    | some u ↦ elim (get_field "resource" d) [ none ↦ raise key_error | some r ↦ ok (u, r) ]
  ]
  read_params v = raise type_error

  unfoldable pub get_dnl_params : String → tokens.Store → Result (Json × Json)
  unfolding read_params
  get_dnl_params token s = elim (tokens.get s token) [
    | none ↦ raise (http_error 403)
    | some params ↦ read_params params
  ]

-- What the handlers of jobs write.
pub data Body : Type 0 where
  jobs : List JobDocument → Body
  job : JobDocument → Body
  inputs : Dict String (List Json) → Body

module _ (srv : Server) (cfg : ServerConfig) (realm : Option String) where
  -- `check_resource_acl`; no resource is in no list of files.
  unfoldable pub check_resource_acl : String → Option String → Db srv → Result (Unit {0})
  unfolding must_check_realm get_status
  check_resource_acl uuid resource db =
      if must_check_realm cfg realm
      then elim (get_status srv uuid db) [
        | none ↦ raise (http_error 404)
        | some r ↦
            let allowed_files : List String = elim r.output_files [
              | none ↦ []
              | some files ↦ files
            ] in
            elim resource [
              | none ↦ raise (http_error 401)
              | some name ↦
                  if elem str_dec name allowed_files then ok tt else raise (http_error 401)
            ]
      ]
      else ok tt

  -- `StoreHandler.put`: the tokens that there are then.
  unfoldable pub store_put :
      (tokens : Table Json)
      → String
      → String
      → Option String
      → String
      → Db srv
      → tokens.Store
      → Result tokens.Store
  unfolding check_resource_acl create_dnl_url
  store_put tokens token uuid resource command db s =
      if holds (str_dec uuid "")
      then raise (http_error 400)
      else elim (check_resource_acl uuid resource db) [
        | raise e ↦ raise e
        | ok u ↦
            if holds (str_dec command "geturl")
            then ok (create_dnl_url tokens token uuid resource s)
            else raise (http_error 400)
      ]

  -- `JobHandler.get`, with its argument `KEY`.
  unfoldable pub job_get : Option String → Option String → Db srv → Result Body
  unfolding get_ogcapi_job_list get_ogcapi_job_status get_request
  job_get none key db = elim (get_ogcapi_job_list srv cfg realm db) [
    | raise e ↦ raise e
    | ok l ↦ ok (jobs l)
  ]
  job_get (some job_id) none db = elim (get_ogcapi_job_status srv cfg realm job_id db) [
    | raise e ↦ raise e
    | ok o ↦ elim o [ none ↦ raise (http_error 404) | some d ↦ ok (job d) ]
  ]
  job_get (some job_id) (some key) db =
      if holds (str_dec key "inputs")
      then elim (get_request srv job_id db) [
        | none ↦ raise (http_error 404)
        | some content ↦ ok (inputs content.inputs)
      ]
      else elim (get_ogcapi_job_status srv cfg realm job_id db) [
        | raise e ↦ raise e
        | ok o ↦ elim o [ none ↦ raise (http_error 404) | some d ↦ ok (job d) ]
      ]

  -- `JobHandler.delete`
  unfoldable pub job_delete : (String → Bool) → String → Site srv → Result Dismissal × Site srv
  unfolding get_ogcapi_job_dismiss
  job_delete removable job_id site =
      let (answer, site') = get_ogcapi_job_dismiss srv cfg realm removable job_id site in
      elim answer [
        | raise e ↦ (raise e, site')
        | ok o ↦ elim o [ none ↦ (raise (http_error 404), site') | some d ↦ (ok d, site') ]
      ]

module _ (srv : Server) where
  -- `Service.get_results` and `ResultHandler.get`; `is_json` is whether the content starts with a
  -- brace.
  unfoldable pub result_get : (String → Bool) → String → Db srv → Result String
  unfolding get_results
  result_get is_json job_id db = elim (get_results srv job_id db) [
    | none ↦ raise (no_applicable_code 404 "")
    | some content ↦ if is_json content then ok content else raise (http_error 404)
  ]

  -- `StatusHandler.delete`: the status of the answer.
  unfoldable pub status_delete : (String → Bool) → Option String → World srv → Result ℕ × World srv
  unfolding delete_results
  status_delete removable none w = (ok 400, w)
  status_delete removable (some uuid) w =
      let (answer, w') = delete_results srv removable uuid false w in
      elim answer [
        | ok success ↦ (ok (if success then 200 else 409), w')
        | raise e ↦ elim e [ file_not_found_error ↦ (ok 404, w') | other ↦ (raise other, w') ]
      ]
