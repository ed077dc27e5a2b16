-- ===== src/Api/Jobs.antt =====
-- ogc/api/request.py: the documents of jobs, and the dismissal of a job.
use py_qgis_wps.Prelude.{
  ℕ, String, Bool, true, false, not, ◌&&◌, Option, none, some, List, [], ◌∷◌, keep, holds, str_dec,
  ltb, leb, ◌++◌, if◌then◌else◌,
}
use py_qgis_wps.Prelude.Int.{max_zero}
use py_qgis_wps.Exceptions.{key_error, no_applicable_code, Result, ok, raise}
use py_qgis_wps.Request.{ServerConfig, Conformance, oapi_processes, ows_wps, must_check_realm}
use py_qgis_wps.LogStore.Response.{
  Status, no_status, accepted_status, started_status, done_status, error_status, dismiss_status,
  value,
}
use py_qgis_wps.LogStore.Jobs.{Record}
use py_qgis_wps.LogStore.Store.{Server, Db, get_status, get_status_all}
use py_qgis_wps.Executor.Cleanup.{World, delete_results}

-- `JOBSTATUS`
pub data JobStatus : Type 0 where
  accepted running success failed dismissed : JobStatus

-- The links of a job: this document, its page, its results by either protocol, the list of jobs.
pub data Link : Type 0 where
  self_link alternate_link oapi_results ows_results up_link : Link

-- `finished` and `expire`, which a document has once the job is over.
pub record Finish : Type 0 where
  pub finished : Option ℕ
  pub expire : Option ℕ

pub record JobDocument : Type 0 where
  pub job_id : String
  pub process_id : Option String
  pub message : String
  pub created : ℕ
  pub map_uri : Option String
  pub progress : ℕ
  pub links : List Link
  pub updated : Option ℕ
  pub started : Option ℕ
  pub finish : Option Finish
  pub status : Option JobStatus

unfoldable pub job_status : Status → Option JobStatus
job_status no_status = none
job_status accepted_status = some accepted
job_status started_status = some running
job_status done_status = some success
job_status error_status = some failed
job_status dismiss_status = some dismissed

unfoldable pub links_of : Status → Conformance → List Link
links_of done_status oapi_processes = self_link ∷ alternate_link ∷ oapi_results ∷ []
links_of done_status ows_wps = self_link ∷ alternate_link ∷ ows_results ∷ []
links_of dismiss_status conformance = up_link ∷ []
links_of s conformance = self_link ∷ alternate_link ∷ []

-- `if timestamp`
unfoldable pub nonzero : Option ℕ → Option ℕ
nonzero none = none
nonzero (some n) = if leb 1 n then some n else none

unfoldable pub document : Record → Option Finish → JobDocument
unfolding job_status links_of nonzero
document store finish = record {
  job_id = store.uuid;
  process_id = store.identifier;
  message = store.message;
  created = store.time_start;
  map_uri = store.map_uri;
  progress = max_zero store.percent_done;
  links = links_of store.status store.conformance;
  updated = nonzero store.timestamp;
  started = store.job_start;
  finish = finish;
  status = job_status store.status;
}

-- `_create_job_document`: `store['expire_at']` is there or not.
unfoldable pub create_job_document : Record → Result JobDocument
unfolding document
create_job_document store =
    if leb (value done_status) (value store.status)
    then elim store.expire_at [
      | none ↦ raise key_error
      | some expire ↦
          ok (document store (some (record { finished = store.time_end; expire = expire })))
    ]
    else ok (document store none)

unfoldable pub create_all : List Record → Result (List JobDocument)
unfolding create_job_document
create_all [] = ok []
create_all (r ∷ rs) = elim (create_job_document r) [
  | raise e ↦ raise e
  | ok d ↦ elim (create_all rs) [ raise e ↦ raise e | ok ds ↦ ok (d ∷ ds) ]
]

abbrev pub same_realm : Option String → Option String → Bool
same_realm none none = true
same_realm (some a) (some b) = holds (str_dec a b)
same_realm _ _ = false

-- What a dismissal answers.
pub record Dismissal : Type 0 where
  pub job_id : String
  pub process_id : Option String
  pub progress : ℕ

-- The world with the process ids that the supervisor was asked to kill, the latest last.
pub record Site (srv : Server) : Type 0 where
  pub world : World srv
  pub kills : List ℕ

-- `realm` is that of the request.
module _ (srv : Server) (cfg : ServerConfig) (realm : Option String) where
  -- Whether the checks of the realm let the request through.
  unfoldable pub may_see : Record → Bool
  unfolding must_check_realm
  may_see store = not (must_check_realm cfg realm && not (same_realm realm store.realm))

  unfoldable pub get_ogcapi_job_status : String → Db srv → Result (Option JobDocument)
  unfolding may_see create_job_document get_status
  get_ogcapi_job_status ident db = elim (get_status srv ident db) [
    | none ↦ ok none
    | some store ↦
        if may_see store
        then elim (create_job_document store) [ raise e ↦ raise e | ok d ↦ ok (some d) ]
        else raise (no_applicable_code 401 "")
  ]

  -- `if self.realm_enabled()`: the filter on the realm.
  unfoldable pub get_ogcapi_job_list : Db srv → Result (List JobDocument)
  unfolding must_check_realm create_all get_status_all
  get_ogcapi_job_list db = create_all (
      if must_check_realm cfg realm
      then keep (λ s. same_realm s.realm realm) (get_status_all srv db)
      else get_status_all srv db)

  -- A process id of zero is as good as none.
  unfoldable pub kill_request : Record → List ℕ
  kill_request store =
      if ltb (value store.status) (value done_status)
      then elim store.pid [ none ↦ [] | some pid ↦ if leb 1 pid then pid ∷ [] else [] ]
      else []

  unfoldable pub get_ogcapi_job_dismiss :
      (String → Bool) → String → Site srv → Result (Option Dismissal) × Site srv
  unfolding may_see get_status kill_request delete_results
  get_ogcapi_job_dismiss removable ident site = elim (get_status srv ident site.world.db) [
    | none ↦ (ok none, site)
    | some store ↦
        if may_see store
        then (
          ok (
              some (record {
                job_id = ident;
                process_id = store.identifier;
                progress = max_zero store.percent_done;
              })),
          record {
            world = (delete_results srv removable ident true site.world).1;
            kills = site.kills ++ kill_request store;
          },
        )
        else (raise (no_applicable_code 401 ""), site)
  ]
