-- ===== src/Executor/Tests.antt =====
-- Jobs over a server of association lists.
use py_qgis_wps.Prelude.{
  ◌≡◌, ◌⊎◌, ◌↔◌, refl, String, true, false, Option, none, some, List, [], ◌∷◌, arith, str_dec,
  insert,
}
use py_qgis_wps.Exceptions.{
  Exn, process_exception, timeout_error, max_requests_exceeded, no_applicable_code, ok, raise,
}
use py_qgis_wps.Exec.{Exec, throw, pure}
use py_qgis_wps.Lru.Bounds
use py_qgis_wps.Request
use py_qgis_wps.Request.{Request, ServerConfig, ows_wps}
use py_qgis_wps.LogStore.Server.{dict_table}
use py_qgis_wps.LogStore.Response
use py_qgis_wps.LogStore.Response.{
  Response, started_status, done_status, error_status, accepted_status,
}
use py_qgis_wps.LogStore.Jobs.{Record, new_record}
use py_qgis_wps.LogStore.Store.{Server, get_status}
use py_qgis_wps.LogStore.Invariant.{empty_db, empty_db-IsConsistent, log_request-IsConsistent}
use py_qgis_wps.LogStore.Store.{log_request}
use py_qgis_wps.Executor.Report.{Format, Job}
use py_qgis_wps.Executor.Run.{
  Handled, Times, Await, run_process, do_execute_async, wait_for, execute,
}
use py_qgis_wps.Executor.Outcome.{
  Renders, Shows, Ends, run_process-Ends, do_execute_async-Shows, wait_for-timeout, execute_refused,
}
use py_qgis_wps.Executor.Cleanup.{World, Clock, expired, clean_processes, delete_results}
use py_qgis_wps.Executor.Expiry.{
  Survives, IsOver, expired-IsOver, clean_processes-Survives, expired_west, Removal,
  delete_results-Removal,
}
use py_qgis_wps.Executor.Processes.{Process, key_dec, State, Factory, find_all, get_processes}
use py_qgis_wps.Executor.Processes.Cached.{get_processes-returns}

abbrev server : Server
server = record {
  status = dict_table Record;
  requests = dict_table Request.Dump;
  responses = dict_table String;
}

abbrev config : ServerConfig
config = record {
  response_timeout = 1800;
  response_expiration = 86400;
  enable_job_realm = false;
  admin_realm = "";
  workdir = "/srv/wps";
}

abbrev job : Job server
unfolding Request.init Response.init
job = record {
  db = empty_db server;
  response = Response.init (Request.init ows_wps config) "job-1";
  cleaned = false;
}

abbrev format : Format
format = record {
  get_execute_response = λ p. ok p.message;
  is_filled = λ d. true;
  encode_response = λ d. d;
}

format-Renders : Renders format
format-Renders p = (p.message, refl)

abbrev times : Times
times = record { first = record { now = 100; pid = 7 }; last = record { now = 160; pid = 7 } }

abbrev describe : Exn → String
describe e = "error"

-- A process that fails.
abbrev broken : Exec (Job server) Handled
broken = throw process_exception

run_process-Ends_example :
    Ends server format broken
      (run_process server format times describe (pure tt) broken job).0
      (run_process server format times describe (pure tt) broken job).1
unfolding Request.init Response.init
run_process-Ends_example =
    run_process-Ends server format times describe (pure tt) broken job format-Renders

abbrev refuse : Await server format
refuse db = (raise max_requests_exceeded, db)

abbrev late : Await server format
late db = (raise timeout_error, db)

do_execute_async-Shows_example :
    ((do_execute_async server format times.last refuse job).0 ≡ ok tt)
    × (((bytes : Option String) × ((refuse job.db).0 ≡ ok bytes))
        ⊎ Shows server error_status (do_execute_async server format times.last refuse job).1)
unfolding Request.init Response.init
do_execute_async-Shows_example =
    do_execute_async-Shows server format times.last refuse job format-Renders

timed_out :
    ((wait_for server format times.last late job).0 ≡ raise (no_applicable_code 504 ""))
    × Shows server error_status (wait_for server format times.last late job).1
unfolding Request.init Response.init
timed_out = wait_for-timeout server format times.last late job format-Renders refl

refused_status :
    ((execute server format times (ok tt) refuse job).0 ≡ raise (no_applicable_code 509 ""))
    × Shows server accepted_status (execute server format times (ok tt) refuse job).1
unfolding Request.init Response.init
refused_status = execute_refused server format times refuse job format-Renders refl (λ db. refl)

abbrev old : Record
unfolding new_record Request.init
old = record (new_record 100 "job-1" (Request.init ows_wps config)) {
  status = done_status;
  timestamp = some 160;
}

abbrev paris : Clock
paris = record { now = 100000; west = 0; east = 3600 }

abbrev new_york : Clock
new_york = record { now = 161; west = 90000; east = 0 }

old_taken : (expired paris old ≡ true) ↔ ((old.pinned ≡ false) × IsOver paris old)
unfolding new_record Request.init
old_taken = expired-IsOver paris old

west_of_utc : expired new_york old ≡ true
unfolding new_record Request.init
west_of_utc = expired_west new_york old refl refl (omega arith) (omega arith) (omega arith)

abbrev world : World server
unfolding log_request new_record Request.init Request.dumps insert
world = record {
  db = (log_request server 100 "job-1" (Request.init ows_wps config) (empty_db server)).1;
  workdirs = "job-1" ∷ [];
}

clean_processes-Survives_example :
    Survives paris
      (get_status server "job-1" world.db)
      (get_status server "job-1" (clean_processes server (λ d. true) paris world).db)
unfolding log_request new_record Request.init Request.dumps insert
clean_processes-Survives_example =
    clean_processes-Survives server (λ d. true) paris "job-1" world
      (log_request-IsConsistent server 100 "job-1" (Request.init ows_wps config) (empty_db server)
        (empty_db-IsConsistent server))

job_removed :
    Removal server (λ d. true) "job-1" world (delete_results server (λ d. true) "job-1" false world)
unfolding log_request new_record Request.init Request.dumps insert
job_removed = delete_results-Removal server (λ d. true) "job-1" world

abbrev buffer : Process
buffer = record { identifier = "buffer"; map_uri = none }

abbrev factory : Factory
factory = record {
  qgis_enabled = true;
  create_contextualized_processes = λ idents uri. ok (record buffer { map_uri = some uri } ∷ []);
  create_qgis_processes = ok (buffer ∷ []);
}

abbrev state : State
state = record {
  processes = ("buffer", buffer) ∷ [];
  context_processes = record { table = []; capacity = 50 };
}

processes_found :
    ((qs : List Process) × ((get_processes factory ("buffer" ∷ []) (some "france") state).0
        ≡ ok qs))
    × Bounds.IsValid key_dec
        (get_processes factory ("buffer" ∷ []) (some "france") state).1.context_processes
unfolding find_all str_dec
processes_found =
    get_processes-returns factory ("buffer" ∷ []) (some "france") state
      (record { positive = omega arith; bounded = omega arith; unique = tt }) refl
      (λ uri. (record buffer { map_uri = some uri } ∷ [], refl))
