-- ===== src/Executor/Report.antt =====
-- app/request.py: `WPSResponse.update_status`, the report of a running job.
use py_qgis_wps.Prelude.{ℕ, String, Bool, true, Option, none, some, leb, if◌then◌else◌}
use py_qgis_wps.Exceptions.{Result, ok, raise}
use py_qgis_wps.Exec.{Exec}
use py_qgis_wps.LogStore.Response.{Response, Status, done_status, value}
use py_qgis_wps.LogStore.Store.{Server, Db, write_response, update_response}

-- What a class of responses implements: `get_execute_response`, `len(document) > 0` and
-- `encode_response`. The documents are kept as texts.
pub record Format : Type 0 where
  pub get_execute_response : Response → Result String
  pub is_filled : String → Bool
  pub encode_response : String → String

-- A process that runs a job: its clock reading and its process id.
pub record Context : Type 0 where
  pub now : ℕ
  pub pid : ℕ

-- The objects that a report changes: the log store, the response, and whether `process.clean()`
-- has been called.
pub record Job (srv : Server) : Type 0 where
  pub db : Db srv
  pub response : Response
  pub cleaned : Bool

abbrev or_keep {ℓ} : {A : Type ℓ} → Option A → A → A
or_keep none a = a
or_keep (some b) a = b

module _ (srv : Server) (fmt : Format) where
  -- The three assignments at the top of `update_status`.
  unfoldable pub assign : Option String → Option ℕ → Option Status → Response → Response
  assign message percentage status p = record p {
    message = or_keep message p.message;
    status = or_keep status p.status;
    status_percentage = or_keep percentage p.status_percentage;
  }

  -- The rest, once the document is built.
  unfoldable pub publish : Context → String → Job srv → Job srv
  publish ctx doc j =
      let p = record j.response { document = some doc } in
      let written =
        if fmt.is_filled doc
        then write_response srv p.uuid (fmt.encode_response doc) j.db
        else j.db in
      record {
        db = update_response srv ctx.now ctx.pid p.uuid p written;
        response = p;
        cleaned = if leb (value done_status) (value p.status) then true else j.cleaned;
      }

  unfoldable pub report : Result String → Context → Exec (Job srv) (Unit {0})
  unfolding publish
  report (raise e) ctx j = (raise e, j)
  report (ok doc) ctx j = (ok tt, publish ctx doc j)

  unfoldable pub update_status :
      Context → Option String → Option ℕ → Option Status → Exec (Job srv) (Unit {0})
  unfolding assign report
  update_status ctx message percentage status j =
      let p = assign message percentage status j.response in
      report (fmt.get_execute_response p) ctx (record j { response = p })

  -- `get_document_bytes`, and the test before it in `_run_process`: the bytes of the document.
  unfoldable pub document_bytes : Response → Option String
  document_bytes p = elim p.document [ none ↦ none | some doc ↦ some (fmt.encode_response doc) ]
