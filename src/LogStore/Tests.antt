-- ===== src/LogStore/Tests.antt =====
-- The log store over a server of association lists.
use text.Mathlib.TextEquality.{eq_iff}
use py_qgis_wps.Prelude.{◌≡◌, ◌≢◌, String, true, false, List, [], ◌∷◌, arith}
use py_qgis_wps.Exceptions.{file_not_found_error, raise}
use py_qgis_wps.Request
use py_qgis_wps.Request.{Request, ServerConfig, ows_wps}
use py_qgis_wps.LogStore.Server.{dict_table}
use py_qgis_wps.LogStore.Response
use py_qgis_wps.LogStore.Response.{Response, Status, started_status, done_status}
use py_qgis_wps.LogStore.Jobs.{Record}
use py_qgis_wps.LogStore.Store.{Server, get_status, pin_response}
use py_qgis_wps.LogStore.Invariant.{empty_db}
use py_qgis_wps.LogStore.History.{
  Call, log, update, Avoids, run, step, pin_response-run, step-get_status_ne,
}

abbrev server : Server
server = record {
  status = dict_table Record;
  requests = dict_table Request.Dump;
  responses = dict_table String;
}

abbrev config : ServerConfig
config = record {
  response_timeout = 1800;
  response_expiration = 86400;
  enable_job_realm = false;
  admin_realm = "";
  workdir = "/srv/wps";
}

abbrev request : Request
unfolding Request.init
request = Request.init ows_wps config

abbrev running : Response
unfolding Response.init Request.init
running = record (Response.init request "job-1") { status = started_status }

abbrev finished : Response
unfolding Response.init Request.init
finished = record running { status = done_status; status_percentage = 100 }

abbrev module_text : String
module_text = "<module 'uuid'>"

abbrev calls : List Call
unfolding Response.init Request.init
calls = log 100 "job-1" request ∷ update 101 7 "job-1" running ∷ update 160 7 "job-1" finished ∷ []

job-ne-module : ◌≢◌ {A = String} "job-1" module_text
job-ne-module = ground (arith, eq_iff "job-1" module_text)

calls-Avoids : Avoids module_text calls
unfolding Response.init Request.init
calls-Avoids = (job-ne-module, (job-ne-module, (job-ne-module, tt)))

pinned_nothing :
    pin_response server module_text 200 "job-1" true
      (run server module_text calls (empty_db server))
    ≡ (raise file_not_found_error, run server module_text calls (empty_db server))
unfolding Response.init Request.init
pinned_nothing = pin_response-run server module_text calls 200 "job-1" true calls-Avoids

other_job :
    get_status server "job-2" (step server module_text (log 100 "job-1" request) (empty_db server))
    ≡ get_status server "job-2" (empty_db server)
unfolding Response.init Request.init
other_job =
    step-get_status_ne server module_text (log 100 "job-1" request) "job-2" (empty_db server)
      (ground (arith, eq_iff "job-1" "job-2"))
