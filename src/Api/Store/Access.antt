-- ===== src/Api/Store/Access.antt =====
-- Who gets at the files, the inputs and the downloads of a job.
use py_qgis_wps.Prelude.{
  ◌≡◌, ◌↔◌, refl, subst, ◌∙◌, String, true, Option, none, some, List, elem, inl, inr, Bool-cases,
  Option-cases, arith, str_dec, if_pos,
}
use py_qgis_wps.Exceptions.{key_error, no_applicable_code, ok, raise}
use py_qgis_wps.Json.{Json}
use py_qgis_wps.Request.{ServerConfig, Dump, must_check_realm}
use py_qgis_wps.Request.Realm.{IsTrusted, must_check_realm-IsTrusted}
use py_qgis_wps.LogStore.Server.{Table}
use py_qgis_wps.LogStore.Jobs.{Record}
use py_qgis_wps.LogStore.Store.{Server, Db, get_status, get_request}
use py_qgis_wps.Api.Jobs.{may_see, get_ogcapi_job_status}
use py_qgis_wps.Api.Visible.{MaySee, may_see-MaySee}
use py_qgis_wps.Api.Store.{
  token_document, create_dnl_url, read_params, get_dnl_params, inputs, check_resource_acl,
  store_put, job_get,
}

read_params-token_document :
    (tokens : Table Json) (job_id : String) (resource : Option String)
    → read_params tokens (token_document tokens job_id resource) ≡ raise key_error
unfolding token_document read_params str_dec
read_params-token_document tokens job_id none = refl
read_params-token_document tokens job_id (some name) = refl

create_dnl_url-get_dnl_params :
    (tokens : Table Json) (token job_id : String) (resource : Option String) (s : tokens.Store)
    → get_dnl_params tokens token (create_dnl_url tokens token job_id resource s) ≡ raise key_error
unfolding create_dnl_url get_dnl_params
create_dnl_url-get_dnl_params tokens token job_id resource s =
    let found : tokens.get (create_dnl_url tokens token job_id resource s) token
        ≡ some (token_document tokens job_id resource) =
      tokens.get-put s token token (token_document tokens job_id resource)
      ∙ if_pos (str_dec token token) refl _ _ in
    rw (found, get_dnl_params) (read_params-token_document tokens job_id resource)

module _ (srv : Server) (cfg : ServerConfig) (realm : Option String) where
  -- The files of a job that a request may have.
  pub data Permitted (uuid : String) (db : Db srv) : Option String → Type 0 where
    trusted : {resource : Option String} → IsTrusted cfg realm → Permitted uuid db resource
    output_file :
        (r : Record) (files : List String) (name : String)
        → get_status srv uuid db ≡ some r
        → r.output_files ≡ some files
        → elem str_dec name files ≡ true
        → Permitted uuid db (some name)

  Permitted-ok :
      {uuid : String} {db : Db srv} {resource : Option String}
      → Permitted uuid db resource
      → check_resource_acl srv cfg realm uuid resource db ≡ ok tt
  unfolding check_resource_acl
  Permitted-ok (trusted t) =
      rw ((must_check_realm-IsTrusted cfg realm).1 t, check_resource_acl) refl
  Permitted-ok (output_file r files name e o listed) =
      elim (Bool-cases (must_check_realm cfg realm)) [
        | inl checked ↦ rw (checked, e, o, listed, check_resource_acl) refl
        | inr free ↦ rw (free, check_resource_acl) refl
      ]

  -- A check that reads the list of files of a record.
  ok-Permitted :
      (uuid : String) (db : Db srv) (resource : Option String)
      → check_resource_acl srv cfg realm uuid resource db ≡ ok tt
      → Permitted uuid db resource
  unfolding check_resource_acl
  ok-Permitted uuid db resource h = elim (Bool-cases (must_check_realm cfg realm)) [
    | inr free ↦ trusted ((must_check_realm-IsTrusted cfg realm).0 free)
    | inl checked ↦ elim (Option-cases (get_status srv uuid db)) [
      | inl missing ↦ absurd (ground (arith, h, checked, missing))
      | inr (r, found) ↦ listed r found checked resource h
    ]
  ]
    where
      listed :
          (r : Record)
          → get_status srv uuid db ≡ some r
          → must_check_realm cfg realm ≡ true
          → (resource : Option String) → check_resource_acl srv cfg realm uuid resource db ≡ ok tt
          → Permitted uuid db resource
      listed r found checked none h = absurd (ground (arith, h, checked, found))
      listed r found checked (some name) h = elim (Option-cases r.output_files) [
        | inl nothing ↦ absurd (ground (arith, h, checked, found, nothing))
        | inr (files, written) ↦
            output_file r files name found written (ground (arith, h, checked, found, written))
      ]

  -- The check of a resource lets through exactly a request that is trusted with every job, and any
  -- request for a file that the job has listed as an output, whatever the realm of the job.
  pub check_resource_acl-Permitted :
      (uuid : String) (db : Db srv) (resource : Option String)
      → (check_resource_acl srv cfg realm uuid resource db ≡ ok tt) ↔ Permitted uuid db resource
  check_resource_acl-Permitted uuid db resource = (ok-Permitted uuid db resource, Permitted-ok)

  -- Where a download link is given for a job, the link is of no use: reading its parameters back
  -- raises `KeyError`.
  pub get_dnl_params-store_put :
      (tokens : Table Json) (token uuid : String) (resource : Option String) (command : String)
      (db : Db srv) (s s' : tokens.Store)
      → store_put srv cfg realm tokens token uuid resource command db s ≡ ok s'
      → get_dnl_params tokens token s' ≡ raise key_error
  unfolding store_put
  get_dnl_params-store_put tokens token uuid resource command db s s' h =
      let same : create_dnl_url tokens token uuid resource s ≡ s' = ground (arith, h) in
      subst (λ t. get_dnl_params tokens token t ≡ raise key_error) same
        (create_dnl_url-get_dnl_params tokens token uuid resource s)

  -- The inputs of a job that the store has are given to a request that may not see the job, where
  -- its status is refused with the error 401.
  pub job_get_inputs :
      (ident : String) (db : Db srv) (r : Record) (content : Dump)
      → get_status srv ident db ≡ some r
      → ¬ MaySee srv cfg realm r
      → get_request srv ident db ≡ some content
      → (job_get srv cfg realm (some ident) none db ≡ raise (no_applicable_code 401 ""))
        × (job_get srv cfg realm (some ident) (some "inputs") db ≡ ok (inputs content.inputs))
  unfolding job_get get_ogcapi_job_status str_dec
  job_get_inputs ident db r content found hidden stored =
      elim (Bool-cases (may_see srv cfg realm r)) [
        | inl seen ↦ absurd (hidden ((may_see-MaySee srv cfg realm r).0 seen))
        | inr unseen ↦ (rw (found, unseen, job_get) refl, rw (stored, job_get) refl)
      ]
