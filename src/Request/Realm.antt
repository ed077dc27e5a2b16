-- ===== src/Request/Realm.antt =====
-- The realm of a request: who may see a job.
use py_qgis_wps.Prelude.{◌≡◌, ◌≢◌, ◌↔◌, String, true, false, Option, none, some, arith}
use py_qgis_wps.Request.{ServerConfig, must_check_realm}

-- Who is not checked: with realms on, the administrator alone, if one is configured; with realms
-- off, a request that names no realm.
pub data IsTrusted (cfg : ServerConfig) : Option String → Type 0 where
  admin :
      {realm : String}
      → cfg.enable_job_realm ≡ true
      → cfg.admin_realm ≢ ""
      → realm ≡ cfg.admin_realm
      → IsTrusted cfg (some realm)
  open_server : cfg.enable_job_realm ≡ false → IsTrusted cfg none

module _ (cfg : ServerConfig) where
  IsTrusted-unchecked :
      {realm : Option String} → IsTrusted cfg realm → must_check_realm cfg realm ≡ false
  unfolding must_check_realm
  IsTrusted-unchecked (admin on set same) = ground arith
  IsTrusted-unchecked (open_server off) = ground arith

  unchecked-IsTrusted :
      (realm : Option String) → must_check_realm cfg realm ≡ false → IsTrusted cfg realm
  unfolding must_check_realm
  unchecked-IsTrusted none h = open_server (ground arith)
  unchecked-IsTrusted (some realm) h = admin (ground arith) (ground arith) (ground arith)

  -- A request escapes the check of its realm exactly when it is trusted: with realms on only the
  -- configured, non-empty administrator realm, with realms off only a request without a realm.
  pub must_check_realm-IsTrusted :
      (realm : Option String) → (must_check_realm cfg realm ≡ false) ↔ IsTrusted cfg realm
  must_check_realm-IsTrusted realm = (unchecked-IsTrusted realm, IsTrusted-unchecked)
