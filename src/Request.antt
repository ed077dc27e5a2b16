-- ===== src/Request.antt =====
-- app/request.py: what every WPS request carries, and the realm that guards a job.
mod Tests
pub mod Realm
use py_qgis_wps.Prelude.{
  ℕ, String, Bool, true, false, not, Option, none, some, List, [], Dict, str_dec, holds, is_some,
  if◌then◌else◌,
}
use py_qgis_wps.Json.{Json}

-- `confservice['server']`, the keys that the modelled code reads.
pub record ServerConfig : Type 0 where
  pub response_timeout : ℕ
  pub response_expiration : ℕ
  pub enable_job_realm : Bool
  pub admin_realm : String
  pub workdir : String

-- The namespaces of `OGC_CONFORMANCE_NS`.
pub data Conformance : Type 0 where
  oapi_processes ows_wps : Conformance

-- `WPSRequest`; `conformance` is the class's static method.
pub record Request : Type 0 where
  pub conformance : Conformance
  pub operation : Option String
  pub version : Option String
  pub language : Option String
  pub identifiers : List String
  pub identifier : Option String
  pub execute_async : Bool
  pub inputs : Dict String (List Json)
  pub outputs : Dict String Json
  pub map_uri : Option String
  pub host_url : Option String
  pub realm : Option String
  pub status_link : Option String
  pub timeout : ℕ
  pub expiration : ℕ

-- `WPSRequest.__init__`
unfoldable pub init : Conformance → ServerConfig → Request
init conformance cfg = record {
  conformance = conformance;
  operation = none;
  version = none;
  language = none;
  identifiers = [];
  identifier = none;
  execute_async = false;
  inputs = [];
  outputs = [];
  map_uri = none;
  host_url = none;
  realm = none;
  status_link = none;
  timeout = cfg.response_timeout;
  expiration = cfg.response_expiration;
}

-- The keys of the `json` property, which `dumps` writes.
pub record Dump : Type 0 where
  pub operation : Option String
  pub version : Option String
  pub language : Option String
  pub identifiers : List String
  pub identifier : Option String
  pub execute_async : Bool
  pub inputs : Dict String (List Json)
  pub outputs : Dict String Json
  pub timeout : ℕ

unfoldable pub dumps : Request → Dump
dumps r = record {
  operation = r.operation;
  version = r.version;
  language = r.language;
  identifiers = r.identifiers;
  identifier = r.identifier;
  execute_async = r.execute_async;
  inputs = r.inputs;
  outputs = r.outputs;
  timeout = r.timeout;
}

-- `realm != admin_realm`, where the realm may be missing
abbrev differs : Option String → String → Bool
differs none admin = true
differs (some realm) admin = not (holds (str_dec realm admin))

-- `must_check_realm`
unfoldable pub must_check_realm : ServerConfig → Option String → Bool
must_check_realm cfg realm =
    if cfg.enable_job_realm
    then if holds (str_dec cfg.admin_realm "") then true else differs realm cfg.admin_realm
    else is_some realm

-- `realm_enabled`
unfoldable pub realm_enabled : ServerConfig → Request → Bool
unfolding must_check_realm
realm_enabled cfg r = must_check_realm cfg r.realm
