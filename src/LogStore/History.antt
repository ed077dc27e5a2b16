-- ===== src/LogStore/History.antt =====
-- Histories of the log store: any sequence of its operations, from the empty server.
use py_qgis_wps.Prelude.{
  ℕ, ◌≡◌, ◌≢◌, refl, String, Bool, none, List, [], ◌∷◌, str_dec, Option-cases, if_neg, inl, inr,
  ◌∙◌,
}
use py_qgis_wps.Exceptions.{file_not_found_error, raise}
use py_qgis_wps.Request.{Request}
use py_qgis_wps.LogStore.Response.{Response}
use py_qgis_wps.LogStore.Jobs.{Record, pin_record}
use py_qgis_wps.LogStore.Store.{
  Server, Db, log_request, update_response, write_response, delete_response, pin_response,
  get_status, recorded,
}
use py_qgis_wps.LogStore.Invariant.{
  IsConsistent, empty_db, empty_db-IsConsistent, log_request-IsConsistent,
  update_response-IsConsistent, write_response-IsConsistent, delete_response-IsConsistent,
}

-- A call on the log store, with the clock and the process that make it.
pub data Call : Type 0 where
  log : ℕ → String → Request → Call
  update : ℕ → ℕ → String → Response → Call
  write : String → String → Call
  erase : String → Call
  pin : ℕ → String → Bool → Call

-- The job that a call is about.
abbrev pub job : Call → String
job (log now uuid q) = uuid
job (update now pid uuid p) = uuid
job (write uuid content) = uuid
job (erase uuid) = uuid
job (pin now uuid b) = uuid

-- No call is about the key.
abbrev pub Avoids : String → List Call → Type 0
Avoids key [] = Unit
Avoids key (call ∷ calls) = (job call ≢ key) × Avoids key calls

module _ (srv : Server) (module_text : String) where
  open srv use {status}

  unfoldable pub step : Call → Db srv → Db srv
  step (log now uuid q) db = (log_request srv now uuid q db).1
  step (update now pid uuid p) db = update_response srv now pid uuid p db
  step (write uuid content) db = write_response srv uuid content db
  step (erase uuid) db = delete_response srv uuid db
  step (pin now uuid b) db = (pin_response srv module_text now uuid b db).1

  unfoldable pub run : List Call → Db srv → Db srv
  run [] db = db
  run (call ∷ calls) db = run calls (step call db)

  get-put_ne :
      (uuid key : String) (r : Record) (t : status.Store)
      → uuid ≢ key
      → status.get (status.put t uuid r) key ≡ status.get t key
  get-put_ne uuid key r t h = status.get-put t uuid key r ∙ if_neg (str_dec uuid key) h _ _

  recorded_ne :
      (now : ℕ) (uuid key : String) (q : Request) (db : Db srv)
      → uuid ≢ key
      → status.get (recorded srv now uuid q db).1.hstatus key ≡ status.get db.hstatus key
  unfolding recorded
  recorded_ne now uuid key q db h = elim (Option-cases (status.get db.hstatus uuid)) [
    | inl new ↦ rw (new, recorded) (unfold log_request in get-put_ne uuid key _ db.hstatus h)
    | inr (r, old) ↦ rw (old, recorded) refl
  ]

  pin_response_ne :
      (now : ℕ) (uuid key : String) (b : Bool) (db : Db srv)
      → uuid ≢ key
      → status.get (pin_response srv module_text now uuid b db).1.hstatus key
        ≡ status.get db.hstatus key
  unfolding pin_response
  pin_response_ne now uuid key b db h = elim (Option-cases (status.get db.hstatus module_text)) [
    | inl new ↦ rw (new, pin_response) refl
    | inr (r, old) ↦ elim (Option-cases (pin_record now b r)) [
      | inl no_pin ↦ rw (old, pin_response, no_pin) refl
      | inr (r', pinned) ↦ rw (old, pin_response, pinned) (get-put_ne uuid key r' db.hstatus h)
    ]
  ]

  -- A call on one job leaves the record of every other job alone.
  pub step-get_status_ne :
      (call : Call) (key : String) (db : Db srv)
      → job call ≢ key
      → get_status srv key (step call db) ≡ get_status srv key db
  unfolding step get_status
  step-get_status_ne (log now uuid q) key db h =
      unfold log_request in get-put_ne uuid key _ db.hstatus h
  step-get_status_ne (update now pid uuid p) key db h =
      unfold update_response in
      get-put_ne uuid key _ _ h ∙ recorded_ne now uuid key p.wps_request db h
  step-get_status_ne (write uuid content) key db h = unfold write_response in refl
  step-get_status_ne (erase uuid) key db h =
      unfold delete_response in
      status.get-delete db.hstatus uuid key ∙ if_neg (str_dec uuid key) h _ _
  step-get_status_ne (pin now uuid b) key db h = pin_response_ne now uuid key b db h

  -- The job whose text is `key` has no record.
  record IsSafe (db : Db srv) : Type 0 where
    consistent : IsConsistent srv db
    absent : get_status srv module_text db ≡ none

  pin_response-raises :
      (now : ℕ) (uuid : String) (b : Bool) (db : Db srv)
      → get_status srv module_text db ≡ none
      → pin_response srv module_text now uuid b db ≡ (raise file_not_found_error, db)
  unfolding pin_response get_status
  pin_response-raises now uuid b db h = rw (h, pin_response) refl

  step-IsConsistent : (call : Call) (db : Db srv) → IsSafe db → IsConsistent srv (step call db)
  unfolding step
  step-IsConsistent (log now uuid q) db s = log_request-IsConsistent srv now uuid q db s.consistent
  step-IsConsistent (update now pid uuid p) db s =
      update_response-IsConsistent srv now pid uuid p db s.consistent
  step-IsConsistent (write uuid content) db s =
      write_response-IsConsistent srv uuid content db s.consistent
  step-IsConsistent (erase uuid) db s = delete_response-IsConsistent srv uuid db s.consistent
  step-IsConsistent (pin now uuid b) db s =
      rw (pin_response-raises now uuid b db s.absent, step) s.consistent

  step-IsSafe :
      (call : Call) (db : Db srv) → job call ≢ module_text → IsSafe db → IsSafe (step call db)
  step-IsSafe call db h s = record {
    consistent = step-IsConsistent call db s;
    absent = step-get_status_ne call module_text db h ∙ s.absent;
  }

  run-IsSafe :
      (calls : List Call) (db : Db srv)
      → Avoids module_text calls
      → IsSafe db
      → IsSafe (run calls db)
  unfolding run
  run-IsSafe [] db a s = s
  run-IsSafe (call ∷ calls) db a s = run-IsSafe calls (step call db) a.1 (step-IsSafe call db a.0 s)

  empty_db-IsSafe : IsSafe (empty_db srv)
  unfolding get_status
  empty_db-IsSafe = record {
    consistent = empty_db-IsConsistent srv;
    absent = status.get-empty module_text;
  }

  -- After any history of calls about jobs, none of which has the text of the module `uuid` as its
  -- id, pinning raises `FileNotFoundError` for every job and changes nothing: no job can be
  -- pinned.
  pub pin_response-run :
      (calls : List Call) (now : ℕ) (uuid : String) (b : Bool)
      → Avoids module_text calls
      → pin_response srv module_text now uuid b (run calls (empty_db srv))
        ≡ (raise file_not_found_error, run calls (empty_db srv))
  pin_response-run calls now uuid b a =
      pin_response-raises now uuid b (run calls (empty_db srv))
        (run-IsSafe calls (empty_db srv) a empty_db-IsSafe).absent
