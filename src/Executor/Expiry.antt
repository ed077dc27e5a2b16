-- ===== src/Executor/Expiry.antt =====
-- Which jobs are removed, by a request and by the periodic cleanup.
use py_qgis_wps.Prelude.{
  ℕ, ◌+◌, ◌≤◌, ◌<◌, ◌≡◌, ◌↔◌, refl, sym, ◌∙◌, ap, subst, String, Bool, true, false, Option, none,
  some, List, [], ◌∷◌, arith, str_dec, ltb, any, holds, ◌&&◌, ite, if_pos, lookup, All, Bool-cases,
  Option-cases, inl, inr, if◌then◌else◌,
}
use py_qgis_wps.Exceptions.{file_not_found_error, Result, ok, raise}
use py_qgis_wps.LogStore.Response.{done_status, value}
use py_qgis_wps.LogStore.Jobs.{Record}
use py_qgis_wps.LogStore.Store.{
  Server, Db, get_status, get_results, get_request, delete_response, records,
}
use py_qgis_wps.LogStore.Invariant.{IsConsistent}
use py_qgis_wps.Executor.Cleanup.{
  World, Clock, expired, erase, delete_results, clean_all, clean_processes,
}

-- When the cleanup takes a job, in words: it is not pinned, and it was never updated, or it is
-- unfinished past its timeout, or finished past its expiration.
pub data IsOver (c : Clock) (r : Record) : Type 0 where
  never_started : r.timestamp ≡ none → IsOver c r
  stalled :
      {t : ℕ}
      → r.timestamp ≡ some t
      → value r.status < value done_status
      → t + r.timeout + c.east ≤ c.now + c.west
      → IsOver c r
  outlived :
      {t : ℕ}
      → r.timestamp ≡ some t
      → value done_status ≤ value r.status
      → t + r.expiration + c.east ≤ c.now + c.west
      → IsOver c r

expired-IsOver_of : (c : Clock) (r : Record) → expired c r ≡ true → (r.pinned ≡ false) × IsOver c r
unfolding expired
expired-IsOver_of c r h = elim (Option-cases r.timestamp) [
  | inl e ↦ (ground arith, never_started e)
  | inr (t, e) ↦ elim (Bool-cases (ltb (value r.status) (value done_status))) [
    | inl running ↦ (ground arith, stalled e (ground arith) (ground arith))
    | inr finished ↦ (ground arith, outlived e (ground arith) (ground arith))
  ]
]

expired_of-IsOver : (c : Clock) (r : Record) → r.pinned ≡ false → IsOver c r → expired c r ≡ true
unfolding expired
expired_of-IsOver c r p (never_started e) = ground arith
expired_of-IsOver c r p (stalled e running late) = ground arith
expired_of-IsOver c r p (outlived e finished late) = ground arith

-- The cleanup takes exactly the unpinned jobs that were never updated, that are unfinished past
-- their timeout, or that are finished past their expiration, by its own reading of the clock.
pub expired-IsOver :
    (c : Clock) (r : Record) → (expired c r ≡ true) ↔ ((r.pinned ≡ false) × IsOver c r)
expired-IsOver c r = (expired-IsOver_of c r, λ h. expired_of-IsOver c r h.0 h.1)

-- What the cleanup leaves of a record.
abbrev survivor : Clock → Option Record → Option Record
survivor c none = none
survivor c (some r) = if expired c r then none else some r

-- What there is of a job before and after the cleanup: a job that is not pinned and is over goes,
-- and every other stays as it was.
pub data Survives (c : Clock) : Option Record → Option Record → Type 0 where
  no_job : Survives c none none
  taken : (r : Record) → r.pinned ≡ false → IsOver c r → Survives c (some r) none
  left : (r : Record) → ¬ ((r.pinned ≡ false) × IsOver c r) → Survives c (some r) (some r)

survivor-Survives : (c : Clock) (o : Option Record) → Survives c o (survivor c o)
survivor-Survives c none = no_job
survivor-Survives c (some r) = elim (Bool-cases (expired c r)) [
  | inl over ↦
      let (unpinned, is_over) = expired-IsOver_of c r over in rw over (taken r unpinned is_over)
  | inr alive ↦ rw alive (left r (λ h. cc (expired_of-IsOver c r h.0 h.1, alive)))
]

module _ (srv : Server) (removable : String → Bool) where
  get_status-erase :
      (uuid k : String) (w : World srv)
      → get_status srv k (erase srv removable uuid w).db
        ≡ ite (str_dec uuid k) none (get_status srv k w.db)
  unfolding get_status erase delete_response
  get_status-erase uuid k w = srv.status.get-delete w.db.hstatus uuid k

  -- The loop deletes a job when one of the listed records is its own and has expired.
  hit : Clock → String → String × Record → Bool
  hit c k e = holds (str_dec e.0 k) && expired c e.1

  clean_all-get_status :
      (c : Clock) (k : String) (es : List (String × Record)) (w : World srv)
      → All (λ e. e.1.uuid ≡ e.0) es
      → get_status srv k (clean_all srv removable c es w).db
        ≡ (if any (hit c k) es then none else get_status srv k w.db)
  unfolding clean_all hit
  clean_all-get_status c k [] w a = refl
  clean_all-get_status c k ((j, r) ∷ es) w a = elim (Bool-cases (expired c r)) [
    | inl over ↦
        rw (over, clean_all, clean_all-get_status c k es (erase srv removable r.uuid w) a.1)
          (ground (arith, get_status-erase r.uuid k w, a.0))
    | inr alive ↦ rw (alive, clean_all, clean_all-get_status c k es w a.1) (ground arith)
  ]

  any-hit-expired :
      (c : Clock) (k : String) (r : Record) (db : Db srv) (es : List (String × Record))
      → All (λ e. get_status srv e.0 db ≡ some e.1) es
      → get_status srv k db ≡ some r
      → any (hit c k) es ≡ true
      → expired c r ≡ true
  unfolding hit
  any-hit-expired c k r db [] a g h = cc
  any-hit-expired c k r db ((j, r') ∷ es) a g h = elim (str_dec j k) [
    | yes p ↦ elim (Bool-cases (expired c r')) [
      | inl over ↦
          let same : some r' ≡ some r = sym a.0 ∙ ap (λ x. get_status srv x db) p ∙ g in
          ground (arith, same, over)
      | inr alive ↦ any-hit-expired c k r db es a.1 g (ground arith)
    ]
    | no p ↦ any-hit-expired c k r db es a.1 g (ground arith)
  ]

  expired-any-hit :
      (c : Clock) (k : String) (r : Record) (es : List (String × Record))
      → lookup str_dec k es ≡ some r
      → expired c r ≡ true
      → any (hit c k) es ≡ true
  unfolding hit lookup
  expired-any-hit c k r [] l h = cc
  expired-any-hit c k r ((j, r') ∷ es) l h = elim (str_dec j k) [
    | yes p ↦ ground arith
    | no p ↦ ground (arith, expired-any-hit c k r es)
  ]

  records_uuid :
      (db : Db srv) (es : List (String × Record))
      → IsConsistent srv db
      → All (λ e. get_status srv e.0 db ≡ some e.1) es
      → All (λ e. e.1.uuid ≡ e.0) es
  records_uuid db [] c a = tt
  records_uuid db ((j, r) ∷ es) c a = ((c.at_key j r a.0).0, records_uuid db es c a.1)

  clean_processes-survivor :
      (c : Clock) (k : String) (w : World srv)
      → IsConsistent srv w.db
      → get_status srv k (clean_processes srv removable c w).db ≡ survivor c (get_status srv k w.db)
  unfolding clean_processes get_status records
  clean_processes-survivor c k w consistent =
      let es = records srv w.db in
      let sound = srv.status.scan-sound w.db.hstatus in
      let loop = clean_all-get_status c k es w (records_uuid w.db es consistent sound) in
      elim (Option-cases (get_status srv k w.db)) [
        | inl missing ↦ ground (arith, loop, missing)
        | inr (r, found) ↦ ground (
          arith,
          loop,
          found,
          any-hit-expired c k r w.db es sound found,
          expired-any-hit c k r es (srv.status.scan-complete w.db.hstatus k r found),
        )
      ]

  -- Over a consistent store, where each record is valid and stands under its id, the periodic
  -- cleanup deletes the record of exactly the jobs that are not pinned and that were never updated,
  -- are unfinished past their timeout, or are finished past their expiration, by its own reading
  -- of the clock, and leaves every other record as it was.
  pub clean_processes-Survives :
      (c : Clock) (k : String) (w : World srv)
      → IsConsistent srv w.db
      → Survives c (get_status srv k w.db) (get_status srv k (clean_processes srv removable c w).db)
  clean_processes-Survives c k w consistent =
      subst (Survives c (get_status srv k w.db)) (sym (clean_processes-survivor c k w consistent))
        (survivor-Survives c (get_status srv k w.db))

-- On a server whose local clock is west of UTC by the timeout and the expiration of a job or more,
-- the cleanup takes the job at once if it has been updated and is not pinned, running or finished.
pub expired_west :
    (c : Clock) (r : Record) {t : ℕ}
    → r.pinned ≡ false
    → r.timestamp ≡ some t
    → t ≤ c.now
    → c.east + r.timeout ≤ c.west
    → c.east + r.expiration ≤ c.west
    → expired c r ≡ true
unfolding expired
expired_west c r p e past timeout expiration = ground arith

module _ (srv : Server) (removable : String → Bool) where
  -- Nothing of the job is left in the log store.
  pub record IsGone (uuid : String) (db : Db srv) : Type 0 where
    pub status : get_status srv uuid db ≡ none
    pub request : get_request srv uuid db ≡ none
    pub results : get_results srv uuid db ≡ none

  pub erase-IsGone : (uuid : String) (w : World srv) → IsGone uuid (erase srv removable uuid w).db
  unfolding erase delete_response get_status get_request get_results
  erase-IsGone uuid w = record {
    status = srv.status.get-delete w.db.hstatus uuid uuid ∙ if_pos (str_dec uuid uuid) refl _ _;
    request =
        srv.requests.get-delete w.db.request_docs uuid uuid ∙ if_pos (str_dec uuid uuid) refl _ _;
    results =
        srv.responses.get-delete w.db.response_docs uuid uuid ∙ if_pos (str_dec uuid uuid) refl _ _;
  }

  -- The answers to a removal that is not forced, with the world that each leaves.
  pub data Removal (uuid : String) (w : World srv) : Result Bool × World srv → Type 0 where
    missing : get_status srv uuid w.db ≡ none → Removal uuid w (raise file_not_found_error, w)
    unfinished :
        (r : Record)
        → get_status srv uuid w.db ≡ some r
        → value r.status < value done_status
        → Removal uuid w (ok false, w)
    removed :
        (r : Record) (w' : World srv)
        → get_status srv uuid w.db ≡ some r
        → value done_status ≤ value r.status
        → IsGone uuid w'.db
        → Removal uuid w (ok true, w')

  -- A removal that is not forced raises for an unknown job and refuses an unfinished one, changing
  -- nothing; a finished job leaves no record, no request and no results.
  pub delete_results-Removal :
      (uuid : String) (w : World srv) → Removal uuid w (delete_results srv removable uuid false w)
  unfolding delete_results
  delete_results-Removal uuid w = elim (Option-cases (get_status srv uuid w.db)) [
    | inl e ↦ rw (e, delete_results) (missing e)
    | inr (r, e) ↦ elim (Bool-cases (ltb (value r.status) (value done_status))) [
      | inl running ↦ rw (e, delete_results, running) (unfinished r e (ground arith))
      | inr finished ↦
          rw (e, delete_results, finished)
            (removed r (erase srv removable uuid w) e (ground arith) (erase-IsGone uuid w))
    ]
  ]
