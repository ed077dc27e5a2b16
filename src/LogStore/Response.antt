-- ===== src/LogStore/Response.antt =====
-- The state of a running job: `STATUS` of executors/logstore.py and `WPSResponse` of
-- app/request.py.
use py_qgis_wps.Prelude.{ℕ, String, Option, none, List, []}
use py_qgis_wps.Request.{Request}

pub data Status : Type 0 where
  no_status accepted_status started_status done_status error_status dismiss_status : Status

-- The values of the `IntEnum`.
abbrev pub value : Status → ℕ
value no_status = 0
value accepted_status = 21
value started_status = 25
value done_status = 30
value error_status = 40
value dismiss_status = 50

pub record Response : Type 0 where
  pub wps_request : Request
  pub uuid : String
  pub message : String
  pub status : Status
  pub status_percentage : ℕ
  pub document : Option String
  pub output_files : List String

-- `WPSResponse.__init__`
unfoldable pub init : Request → String → Response
init request uuid = record {
  wps_request = request;
  uuid = uuid;
  message = "";
  status = no_status;
  status_percentage = 0;
  document = none;
  output_files = [];
}
