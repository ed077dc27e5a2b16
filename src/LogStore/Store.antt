-- ===== src/LogStore/Store.antt =====
-- executors/logstore.py: `LogStore` over the tables of a key-value server.
use py_qgis_wps.Prelude.{ℕ, String, Bool, true, false, Option, none, some, List, map}
use py_qgis_wps.Exceptions.{file_not_found_error, ok, raise}
use py_qgis_wps.Exec.{Exec}
use py_qgis_wps.Request.{Request, Dump, dumps}
use py_qgis_wps.LogStore.Server.{Table}
use py_qgis_wps.LogStore.Response.{Response}
use py_qgis_wps.LogStore.Jobs.{Record, new_record, update_record, pin_record}

-- The tables of the server: the hash of the records, and the two families of keys.
pub record Server : Type 1 where
  pub status : Table Record
  pub requests : Table Dump
  pub responses : Table String

-- What the server holds.
pub record Db (srv : Server) : Type 0 where
  pub hstatus : srv.status.Store
  pub request_docs : srv.requests.Store
  pub response_docs : srv.responses.Store

module _ (srv : Server) where
  open srv use {status, requests, responses}

  unfoldable pub log_request : ℕ → String → Request → Db srv → Record × Db srv
  log_request now uuid r db =
      let rec = new_record now uuid r in
      (
        rec,
        record db {
          hstatus = status.put db.hstatus uuid rec;
          request_docs = requests.put db.request_docs uuid (dumps r);
        },
      )

  -- The record to update: the stored one, or a new one for a request that was never recorded.
  unfoldable pub recorded : ℕ → String → Request → Db srv → Record × Db srv
  unfolding log_request
  recorded now uuid r db = elim (status.get db.hstatus uuid) [
    | none ↦ log_request now uuid r db
    | some rec ↦ (rec, db)
  ]

  unfoldable pub update_response : ℕ → ℕ → String → Response → Db srv → Db srv
  unfolding recorded
  update_response now pid uuid response db =
      let (rec, db') = recorded now uuid response.wps_request db in
      record db' { hstatus = status.put db'.hstatus uuid (update_record now pid response rec) }

  unfoldable pub write_response : String → String → Db srv → Db srv
  write_response uuid content db = record db {
    response_docs = responses.put db.response_docs uuid content;
  }

  unfoldable pub delete_response : String → Db srv → Db srv
  delete_response uuid db = record {
    hstatus = status.delete db.hstatus uuid;
    request_docs = requests.delete db.request_docs uuid;
    response_docs = responses.delete db.response_docs uuid;
  }

  -- `pin_response`; the record is looked up under `str(uuid)`, the text of the module `uuid`,
  -- which is `module_text`, and written back under the id of the job.
  unfoldable pub pin_response : String → ℕ → String → Bool → Exec (Db srv) Bool
  pin_response module_text now uuid pin db = elim (status.get db.hstatus module_text) [
    | none ↦ (raise file_not_found_error, db)
    | some rec ↦ elim (pin_record now pin rec) [
      | none ↦ (ok false, db)
      | some pinned ↦ (ok true, record db { hstatus = status.put db.hstatus uuid pinned })
    ]
  ]

  unfoldable pub get_results : String → Db srv → Option String
  get_results uuid db = responses.get db.response_docs uuid

  unfoldable pub get_request : String → Db srv → Option Dump
  get_request uuid db = requests.get db.request_docs uuid

  -- `get_status(uuid)`, and `get_status()` through the property `records`
  unfoldable pub get_status : String → Db srv → Option Record
  get_status uuid db = status.get db.hstatus uuid

  unfoldable pub records : Db srv → List (String × Record)
  records db = status.scan db.hstatus

  unfoldable pub get_status_all : Db srv → List Record
  unfolding records
  get_status_all db = map (λ e. e.1) (status.scan db.hstatus)
