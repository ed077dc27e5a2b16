-- ===== src/Executor/Cleanup.antt =====
-- executors/processingexecutor.py: `kill_job`, `delete_results` and `_clean_processes`.
use py_qgis_wps.Prelude.{
  ℕ, ◌+◌, String, Bool, true, false, not, ◌&&◌, ◌||◌, Option, none, some, List, [], ◌∷◌, ltb, leb,
  str_dec, holds, keep, if◌then◌else◌,
}
use py_qgis_wps.Exceptions.{file_not_found_error, ok, raise}
use py_qgis_wps.Exec.{Exec}
use py_qgis_wps.LogStore.Response.{done_status, value}
use py_qgis_wps.LogStore.Jobs.{Record}
use py_qgis_wps.LogStore.Store.{Server, Db, get_status, delete_response, records}

-- The log store and the working directories, each named by its job.
pub record World (srv : Server) : Type 0 where
  pub db : Db srv
  pub workdirs : List String

-- A reading of the clock. `_clean_processes` takes the naive UTC date for a local one, so its
-- `now_ts` is the time `now` moved by the distance of the local clock from UTC.
pub record Clock : Type 0 where
  pub now : ℕ
  pub west : ℕ
  pub east : ℕ

-- `now_ts - timestamp >= limit`
abbrev pub at_least : Clock → ℕ → ℕ → Bool
at_least c timestamp limit = leb (timestamp + limit + c.east) (c.now + c.west)

-- The test that skips a job which is still running, and sets `dangling` otherwise: `none` is
-- `continue`.
unfoldable pub dangling : Clock → Record → Option Bool
dangling c r = elim r.timestamp [
  | none ↦ some true
  | some timestamp ↦
      if ltb (value r.status) (value done_status)
      then if at_least c timestamp r.timeout then some true else none
      else some false
]

-- `now_ts - int(timestamp) >= expiration`; it is read only where the timestamp is there.
unfoldable pub outdated : Clock → Record → Bool
outdated c r = elim r.timestamp [
  | none ↦ false
  | some timestamp ↦ at_least c timestamp r.expiration
]

-- Whether an iteration of `_clean_processes` deletes the job of the record.
unfoldable pub expired : Clock → Record → Bool
unfolding dangling outdated
expired c r = elim (dangling c r) [ none ↦ false | some d ↦ not r.pinned && (d || outdated c r) ]

module _ (srv : Server) (removable : String → Bool) where
  -- The `try` around `rmtree`: a directory that cannot be removed is logged and stays.
  unfoldable pub remove_workdir : String → List String → List String
  remove_workdir uuid dirs =
      if removable uuid then keep (λ d. not (holds (str_dec d uuid))) dirs else dirs

  unfoldable pub erase : String → World srv → World srv
  unfolding remove_workdir
  erase uuid w = record {
    db = delete_response srv uuid w.db;
    workdirs = remove_workdir uuid w.workdirs;
  }

  unfoldable pub delete_results : String → Bool → Exec (World srv) Bool
  unfolding erase
  delete_results uuid true w = (ok true, erase uuid w)
  delete_results uuid false w = elim (get_status srv uuid w.db) [
    | none ↦ (raise file_not_found_error, w)
    | some rec ↦
        if ltb (value rec.status) (value done_status)
        then (ok false, w)
        else (ok true, erase uuid w)
  ]

  -- `kill_worker_busy` is the method of the factory.
  unfoldable pub kill_job : (ℕ → Bool) → String → Option ℕ → World srv → Bool
  kill_job kill_worker_busy uuid (some pid) w = kill_worker_busy pid
  kill_job kill_worker_busy uuid none w = elim (get_status srv uuid w.db) [
    | none ↦ false
    | some store ↦ elim store.pid [
      | none ↦ false
      | some pid ↦ if leb 1 pid then kill_worker_busy pid else false
    ]
  ]

  -- The loop over the records that were listed at its start.
  unfoldable pub clean_all : Clock → List (String × Record) → World srv → World srv
  unfolding erase expired
  clean_all c [] w = w
  clean_all c ((key, rec) ∷ rest) w =
      clean_all c rest (if expired c rec then erase rec.uuid w else w)

  unfoldable pub clean_processes : Clock → World srv → World srv
  unfolding clean_all records
  clean_processes c w = clean_all c (records srv w.db) w
