-- ===== src/Api/Visible.antt =====
-- Which jobs a request may see, alone and in the list.
use py_qgis_wps.Prelude.{
  ◌≡◌, ◌↔◌, ◌⊎◌, refl, sym, ap, ◌∙◌, subst, String, Bool, true, ◌&&◌, ◌||◌, Option, none, some,
  List, [], ◌∷◌, map, keep, All, elem, holds, str_dec, leb, leb→le, if◌then◌else◌, inl, inr,
  Bool-cases, Option-cases, arith, lookup,
}
use py_qgis_wps.Exceptions.{no_applicable_code, Result, ok, raise}
use py_qgis_wps.Request.{ServerConfig, must_check_realm}
use py_qgis_wps.Request.Realm.{IsTrusted, must_check_realm-IsTrusted}
use py_qgis_wps.LogStore.Response.{done_status, value}
use py_qgis_wps.LogStore.Jobs.{Record}
use py_qgis_wps.LogStore.Store.{Server, Db, get_status, get_status_all}
use py_qgis_wps.LogStore.Invariant.{IsValid, IsConsistent}
use py_qgis_wps.Api.Jobs.{
  Finish, JobDocument, document, create_job_document, create_all, same_realm, may_see,
  get_ogcapi_job_status, get_ogcapi_job_list,
}

same_realm-eq : (a b : Option String) → (same_realm a b ≡ true) ↔ (a ≡ b)
same_realm-eq none none = (λ e. refl, λ e. refl)
same_realm-eq none (some b) = (λ e. cc, λ e. cc)
same_realm-eq (some a) none = (λ e. cc, λ e. cc)
same_realm-eq (some a) (some b) = ground arith

-- The document of a valid record, which is always made.
data Made (r : Record) : Result JobDocument → Type 0 where
  made : (f : Option Finish) → Made r (ok (document r f))

create_job_document-Made : (r : Record) → IsValid r → Made r (create_job_document r)
unfolding create_job_document
create_job_document-Made r v = elim (Bool-cases (leb (value done_status) (value r.status))) [
  | inr running ↦ rw (running, create_job_document) (made none)
  | inl over ↦ elim (Option-cases r.expire_at) [
    | inl missing ↦
        let (t, ended, e) = v.time_end (leb→le (value done_status) (value r.status) over) in
        absurd (cc (e, missing))
    | inr (e, found) ↦
        rw (over, found, create_job_document)
          (made (some (record { finished = r.time_end; expire = e })))
  ]
]

module _ (srv : Server) (cfg : ServerConfig) (realm : Option String) where
  -- A request may see a job if it is trusted with every job, or comes with the realm of the job.
  abbrev pub MaySee : Record → Type 0
  MaySee r = IsTrusted cfg realm ⊎ (realm ≡ r.realm)

  pub may_see-MaySee : (r : Record) → (may_see srv cfg realm r ≡ true) ↔ MaySee r
  unfolding may_see
  may_see-MaySee r =
      ground (arith, must_check_realm-IsTrusted cfg realm, same_realm-eq realm r.realm)

  -- How a job is answered for, from what the store has under its id.
  pub data Answer (ident : String) : Option Record → Result (Option JobDocument) → Type 0 where
    unknown : Answer ident none (ok none)
    unauthorized :
        (r : Record) → ¬ MaySee r → Answer ident (some r) (raise (no_applicable_code 401 ""))
    shown :
        (r : Record) (f : Option Finish)
        → MaySee r
        → (document r f).job_id ≡ ident
        → Answer ident (some r) (ok (some (document r f)))

  stored-Answer :
      (ident : String) (r : Record)
      → r.uuid ≡ ident
      → {x : Result JobDocument} → Made r x
      → {o : Result (Option JobDocument)}
      → o ≡ (
          if may_see srv cfg realm r
          then elim x [ raise e ↦ raise e | ok d ↦ ok (some d) ]
          else raise (no_applicable_code 401 ""))
      → Answer ident (some r) o
  stored-Answer ident r u (made f) e = elim (Bool-cases (may_see srv cfg realm r)) [
    | inl yes_ ↦
        subst (Answer ident (some r)) (sym (e ∙ rw yes_ refl))
          (shown r f ((may_see-MaySee r).0 yes_) (unfold document in u))
    | inr no_ ↦
        subst (Answer ident (some r)) (sym (e ∙ rw no_ refl))
          (unauthorized r (λ m. cc ((may_see-MaySee r).1 m, no_)))
  ]

  -- Over a consistent store, where each record is valid and stands under its id, a job is answered
  -- for on every branch: an unknown one by nothing, a known one by its document if the request may
  -- see it, and otherwise by the error 401 and nothing of the job.
  pub get_ogcapi_job_status-Answer :
      (ident : String) (db : Db srv)
      → IsConsistent srv db
      → Answer ident (get_status srv ident db) (get_ogcapi_job_status srv cfg realm ident db)
  unfolding get_ogcapi_job_status
  get_ogcapi_job_status-Answer ident db c = elim (Option-cases (get_status srv ident db)) [
    | inl e ↦ rw (e, get_ogcapi_job_status) unknown
    | inr (r, e) ↦
        let (u, v) = c.at_key ident r e in
        rw (e, get_ogcapi_job_status) (stored-Answer ident r u (create_job_document-Made r v) refl)
  ]

  -- The records that the list is made of.
  abbrev visible : List Record → List Record
  visible rs = if must_check_realm cfg realm then keep (λ s. same_realm s.realm realm) rs else rs

  abbrev Valid : List Record → Type 0
  Valid rs = All IsValid rs

  create_all-ok :
      (rs : List Record)
      → Valid rs
      → (l : List JobDocument) × (create_all rs ≡ ok l)
        × (map (λ d. d.job_id) l ≡ map (λ r. r.uuid) rs)
  unfolding create_all
  create_all-ok [] v = ([], refl, refl)
  create_all-ok (r ∷ rs) (v, vs) =
      let (l, e, ids) = create_all-ok rs vs in
      one_more r rs l e ids (create_job_document-Made r v) refl
    where
      one_more :
          (r : Record) (rs : List Record) (l : List JobDocument)
          → create_all rs ≡ ok l
          → map (λ d. d.job_id) l ≡ map (λ r. r.uuid) rs
          → {x : Result JobDocument} → Made r x
          → create_job_document r ≡ x
          → (l' : List JobDocument) × (create_all (r ∷ rs) ≡ ok l')
            × (map (λ d. d.job_id) l' ≡ map (λ r. r.uuid) (r ∷ rs))
      one_more r rs l e ids (made f) m = (
        document r f ∷ l,
        unfold create_all in rw (m, e, create_all) refl,
        unfold document in ap (λ t. r.uuid ∷ t) ids,
      )

  visible-keep : (rs : List Record) → visible rs ≡ keep (may_see srv cfg realm) rs
  unfolding may_see
  visible-keep [] = ground arith
  visible-keep (r ∷ rs) = ground (
    arith,
    visible-keep rs,
    same_realm-eq realm r.realm,
    same_realm-eq r.realm realm,
    must_check_realm cfg realm,
  )

  keep-Valid : (f : Record → Bool) (rs : List Record) → Valid rs → Valid (keep f rs)
  keep-Valid f [] v = tt
  keep-Valid f (r ∷ rs) (v, vs) = elim (Bool-cases (f r)) [
    | inl e ↦ rw e (v, keep-Valid f rs vs)
    | inr e ↦ rw e (keep-Valid f rs vs)
  ]

  -- A job that the store has and the request may see.
  abbrev pub Listed : Db srv → String → Type 0
  Listed db k = (r : Record) × (get_status srv k db ≡ some r) × MaySee r

  -- Whether an id is among those of the records that pass a test.
  abbrev among : String → (Record → Bool) → List (String × Record) → Bool
  among k f es = elem str_dec k (map (λ r. r.uuid) (keep f (map (λ e. e.1) es)))

  among-cons :
      (k : String) (f : Record → Bool) (j : String) (r : Record) (es : List (String × Record))
      → among k f ((j, r) ∷ es) ≡ (f r && holds (str_dec r.uuid k)) || among k f es
  among-cons k f j r es = ground arith

  among-Listed :
      (db : Db srv) (k : String) (es : List (String × Record))
      → IsConsistent srv db
      → All (λ e. get_status srv e.0 db ≡ some e.1) es
      → among k (may_see srv cfg realm) es ≡ true
      → Listed db k
  among-Listed db k [] c s h = absurd cc
  among-Listed db k ((j, r) ∷ es) c (s, ss) h =
      elim (Bool-cases (may_see srv cfg realm r && holds (str_dec r.uuid k))) [
        | inr not_here ↦
            among-Listed db k es c ss
              (ground (arith, among-cons k (may_see srv cfg realm) j r es, h, not_here))
        | inl here ↦
            let same : j ≡ k = ground (arith, (c.at_key j r s).0, here) in
            (
              r,
              subst (λ i. get_status srv i db ≡ some r) same s,
              (may_see-MaySee r).0 (ground (arith, here)),
            )
      ]

  Listed-among :
      (k : String) (r : Record) (es : List (String × Record))
      → r.uuid ≡ k
      → may_see srv cfg realm r ≡ true
      → lookup str_dec k es ≡ some r
      → among k (may_see srv cfg realm) es ≡ true
  unfolding lookup
  Listed-among k r [] u m h = absurd cc
  Listed-among k r ((j, r') ∷ es) u m h = elim (str_dec j k) [
    | yes p ↦
        let same : r' ≡ r = some_eq r' r (ground (arith, h, p)) in
        among-cons k (may_see srv cfg realm) j r' es ∙ rw (same, m) (ground (arith, u))
    | no p ↦ ground (
      arith,
      among-cons k (may_see srv cfg realm) j r' es,
      Listed-among k r es u m (ground (arith, h, p)),
    )
  ]
    where
      some_eq : (a b : Record) → some a ≡ some b → a ≡ b
      some_eq a b e = ground arith

  stored-Valid :
      (db : Db srv) (es : List (String × Record))
      → IsConsistent srv db
      → All (λ e. get_status srv e.0 db ≡ some e.1) es
      → Valid (map (λ e. e.1) es)
  stored-Valid db [] c s = tt
  stored-Valid db ((j, r) ∷ es) c (s, ss) = ((c.at_key j r s).1, stored-Valid db es c ss)

  create_all-Listed :
      (db : Db srv) (es : List (String × Record))
      → IsConsistent srv db
      → All (λ e. get_status srv e.0 db ≡ some e.1) es
      → ((k : String) (r : Record) → get_status srv k db ≡ some r → lookup str_dec k es ≡ some r)
      → (l : List JobDocument) × (create_all (visible (map (λ e. e.1) es)) ≡ ok l)
        × ((k : String) → (elem str_dec k (map (λ d. d.job_id) l) ≡ true) ↔ Listed db k)
  create_all-Listed db es c sound complete =
      let f = may_see srv cfg realm in
      let rs = map (λ e. e.1) es in
      let (l, e, ids) = create_all-ok (keep f rs) (keep-Valid f rs (stored-Valid db es c sound)) in
      (
        l,
        ap create_all (visible-keep rs) ∙ e,
        λ k. (
          λ h. among-Listed db k es c sound (ap (elem str_dec k) (sym ids) ∙ h),
          λ (r, found, m).
              ap (elem str_dec k) ids
              ∙ Listed-among k r es (c.at_key k r found).0 ((may_see-MaySee r).1 m)
                  (complete k r found),
        ),
      )

  -- Over a consistent store, where each record is valid and stands under its id, the list of jobs
  -- is always made, and holds exactly the jobs that the store has and that the request may see.
  pub get_ogcapi_job_list-Listed :
      (db : Db srv)
      → IsConsistent srv db
      → (l : List JobDocument) × (get_ogcapi_job_list srv cfg realm db ≡ ok l)
        × ((k : String) → (elem str_dec k (map (λ d. d.job_id) l) ≡ true) ↔ Listed db k)
  unfolding get_ogcapi_job_list get_status get_status_all
  get_ogcapi_job_list-Listed db c =
      create_all-Listed db (srv.status.scan db.hstatus) c (srv.status.scan-sound db.hstatus)
        (srv.status.scan-complete db.hstatus)
