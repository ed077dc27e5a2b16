-- ===== src/LogStore/Jobs.antt =====
-- executors/logstore.py: the record of a job, and what each operation makes of it.
use py_qgis_wps.Prelude.{
  ℕ, ◌+◌, String, Bool, true, false, Option, none, some, List, ltb, leb, ◌==◌, ◌&&◌, if◌then◌else◌,
}
use py_qgis_wps.Prelude.Int.{ℤ, negsuc, pos}
use py_qgis_wps.Request.{Request, Conformance}
use py_qgis_wps.LogStore.Response.{Status, no_status, started_status, done_status, value, Response}

-- The JSON object of a job. Times are seconds; `expire_at` may be missing, null or a time.
pub record Record : Type 0 where
  pub conformance : Conformance
  pub uuid : String
  pub version : Option String
  pub identifier : Option String
  pub execute_async : Bool
  pub status : Status
  pub percent_done : ℤ
  pub message : String
  pub map_uri : Option String
  pub expiration : ℕ
  pub time_start : ℕ
  pub time_end : Option ℕ
  pub pinned : Bool
  pub timeout : ℕ
  pub realm : Option String
  pub status_link : Option String
  pub job_start : Option ℕ
  pub pid : Option ℕ
  pub timestamp : Option ℕ
  pub output_files : Option (List String)
  pub expire_at : Option (Option ℕ)

-- The record that `log_request` writes.
unfoldable pub new_record : ℕ → String → Request → Record
new_record now uuid r = record {
  conformance = r.conformance;
  uuid = uuid;
  version = r.version;
  identifier = r.identifier;
  execute_async = r.execute_async;
  status = no_status;
  percent_done = negsuc 0;
  message = "";
  map_uri = r.map_uri;
  expiration = r.expiration;
  time_start = now;
  time_end = none;
  pinned = false;
  timeout = r.timeout;
  realm = r.realm;
  status_link = r.status_link;
  job_start = none;
  pid = none;
  timestamp = none;
  output_files = none;
  expire_at = none;
}

-- The first `if` of `update_response`: the task starts.
unfoldable pub mark_started : ℕ → ℕ → Status → Record → Record
mark_started now pid status r =
    if ltb (value r.status) (value started_status) && (value status == value started_status)
    then record r { job_start = some now; pid = some pid }
    else r

-- The last `if` of `update_response`: the task is over.
unfoldable pub mark_finished : ℕ → Response → Record → Record
mark_finished now response r =
    if leb (value done_status) (value response.status)
    then record r {
      output_files = some response.output_files;
      time_end = some now;
      expire_at = some (some (now + r.expiration));
      pid = none;
    }
    else r

-- What `update_response` makes of the record that it read.
unfoldable pub update_record : ℕ → ℕ → Response → Record → Record
unfolding mark_started mark_finished
update_record now pid response r =
    let started = mark_started now pid response.status r in
    mark_finished now response (record started {
      message = response.message;
      percent_done = pos response.status_percentage;
      status = response.status;
      timestamp = some now;
    })

-- The body of `pin_response` once the record is read: `none` is the answer `False`.
unfoldable pub pin_record : ℕ → Bool → Record → Option Record
pin_record now pin r =
    if value r.status == value done_status
    then some (
        if pin
        then record r { pinned = true; expire_at = some none }
        else record r { pinned = false; expire_at = some (some (now + r.expiration)) })
    else none
