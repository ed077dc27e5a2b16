-- ===== src/LogStore/Invariant.antt =====
-- The log store: what every stored record satisfies, after any sequence of operations.
use py_qgis_wps.Prelude.{
  ℕ, ◌+◌, ◌≤◌, ◌≡◌, ◌≢◌, refl, String, none, some, arith, str_dec, Option-cases, inl, inr, ◌∙◌,
  subst,
}
use py_qgis_wps.Request.{Request}
use py_qgis_wps.LogStore.Response.{Response, no_status, done_status, value}
use py_qgis_wps.LogStore.Jobs.{Record, new_record, update_record}
use py_qgis_wps.LogStore.Store.{
  Server, Db, log_request, update_response, write_response, delete_response, get_status, recorded,
}

-- What the readers of a record rely on.
pub record IsValid (r : Record) : Type 0 where
  pub time_end :
      value done_status ≤ value r.status
      → (t : ℕ) × (r.time_end ≡ some t) × (r.expire_at ≡ some (some (t + r.expiration)))
  pub output_files : value done_status ≤ value r.status → r.output_files ≢ none
  pub pid : value done_status ≤ value r.status → r.pid ≡ none
  pub untouched : r.timestamp ≡ none → r.status ≡ no_status

new_record-IsValid : (now : ℕ) (uuid : String) (q : Request) → IsValid (new_record now uuid q)
unfolding new_record
new_record-IsValid now uuid q = record {
  time_end = λ h. absurd (omega arith);
  output_files = λ h. absurd (omega arith);
  pid = λ h. refl;
  untouched = λ h. refl;
}

-- Whatever the record was, an update leaves it valid.
pub update_record-IsValid :
    (now pid : ℕ) (p : Response) (r : Record) → IsValid (update_record now pid p r)
unfolding update_record
update_record-IsValid now pid p r = record {
  time_end = λ h. (now, ground arith, ground arith);
  output_files = λ h. ground arith;
  pid = λ h. ground arith;
  untouched = λ h. absurd (ground arith);
}

update_record-uuid :
    (now pid : ℕ) (p : Response) (r : Record) → (update_record now pid p r).uuid ≡ r.uuid
unfolding update_record
update_record-uuid now pid p r = ground arith

module _ (srv : Server) where
  open srv use {status, requests, responses}

  abbrev pub empty_db : Db srv
  empty_db = record {
    hstatus = status.empty;
    request_docs = requests.empty;
    response_docs = responses.empty;
  }

  -- Every record stands under its own id and is valid.
  pub record IsConsistent (db : Db srv) : Type 0 where
    pub at_key : (k : String) (r : Record) → get_status srv k db ≡ some r → (r.uuid ≡ k) × IsValid r

  pub empty_db-IsConsistent : IsConsistent empty_db
  unfolding get_status
  empty_db-IsConsistent = record { at_key = λ k r e. absurd (cc (e, status.get-empty k)) }

  pub put-IsConsistent :
      (db : Db srv) (uuid : String) (rec : Record)
      → IsConsistent db
      → rec.uuid ≡ uuid
      → IsValid rec
      → IsConsistent (record db { hstatus = status.put db.hstatus uuid rec })
  unfolding get_status
  put-IsConsistent db uuid rec c u v = record {
    at_key = λ k r e. elim (str_dec uuid k) [
      | yes p ↦
          let same : rec ≡ r = ground (arith, e, status.get-put db.hstatus uuid k rec) in
          subst (λ x. (x.uuid ≡ k) × IsValid x) same (u ∙ p, v)
      | no p ↦ c.at_key k r (ground (arith, e, status.get-put db.hstatus uuid k rec))
    ];
  }

  pub log_request-IsConsistent :
      (now : ℕ) (uuid : String) (q : Request) (db : Db srv)
      → IsConsistent db
      → IsConsistent (log_request srv now uuid q db).1
  unfolding log_request get_status
  log_request-IsConsistent now uuid q db c = record {
    at_key =
        (put-IsConsistent db uuid (new_record now uuid q) c (unfold new_record in refl)
          (new_record-IsValid now uuid q)).at_key;
  }

  recorded-IsConsistent :
      (now : ℕ) (uuid : String) (q : Request) (db : Db srv)
      → IsConsistent db
      → IsConsistent (recorded srv now uuid q db).1 × ((recorded srv now uuid q db).0.uuid ≡ uuid)
  unfolding recorded
  recorded-IsConsistent now uuid q db c = elim (Option-cases (status.get db.hstatus uuid)) [
    | inl new ↦
        rw (new, recorded)
          (log_request-IsConsistent now uuid q db c, unfold log_request new_record in refl)
    | inr (r, old) ↦ rw (old, recorded) (c, (c.at_key uuid r (unfold get_status in old)).0)
  ]

  pub update_response-IsConsistent :
      (now pid : ℕ) (uuid : String) (p : Response) (db : Db srv)
      → IsConsistent db
      → IsConsistent (update_response srv now pid uuid p db)
  unfolding update_response
  update_response-IsConsistent now pid uuid p db c =
      let before = recorded srv now uuid p.wps_request db in
      let (c', u) = recorded-IsConsistent now uuid p.wps_request db c in
      put-IsConsistent before.1 uuid (update_record now pid p before.0) c'
        (update_record-uuid now pid p before.0 ∙ u) (update_record-IsValid now pid p before.0)

  pub write_response-IsConsistent :
      (uuid content : String) (db : Db srv)
      → IsConsistent db
      → IsConsistent (write_response srv uuid content db)
  unfolding write_response get_status
  write_response-IsConsistent uuid content db c = record { at_key = c.at_key }

  pub delete_response-IsConsistent :
      (uuid : String) (db : Db srv) → IsConsistent db → IsConsistent (delete_response srv uuid db)
  unfolding delete_response get_status
  delete_response-IsConsistent uuid db c = record {
    at_key = λ k r e. elim (str_dec uuid k) [
      | yes p ↦ absurd (ground (arith, e, status.get-delete db.hstatus uuid k))
      | no p ↦ c.at_key k r (ground (arith, e, status.get-delete db.hstatus uuid k))
    ];
  }
