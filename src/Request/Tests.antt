-- ===== src/Request/Tests.antt =====
-- The realm check at concrete configurations.
use py_qgis_wps.Prelude.{◌≡◌, ◌↔◌, refl, true, false, some, str_dec}
use py_qgis_wps.Request.{ServerConfig, must_check_realm}
use py_qgis_wps.Request.Realm.{IsTrusted, must_check_realm-IsTrusted}

abbrev guarded : ServerConfig
guarded = record {
  response_timeout = 1800;
  response_expiration = 86400;
  enable_job_realm = true;
  admin_realm = "secret";
  workdir = "/srv/wps";
}

checks :
    (must_check_realm guarded (some "guest") ≡ true)
    × (must_check_realm guarded (some "secret") ≡ false)
    × (must_check_realm (record guarded { admin_realm = "" }) (some "") ≡ true)
unfolding must_check_realm str_dec
checks = (refl, refl, refl)

other_realm : (must_check_realm guarded (some "secret") ≡ false) ↔ IsTrusted guarded (some "secret")
other_realm = must_check_realm-IsTrusted guarded (some "secret")
