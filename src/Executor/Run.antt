-- ===== src/Executor/Run.antt =====
-- executors/processingexecutor.py: `execute`, in the server, and `_run_process`, in a worker.
use py_qgis_wps.Prelude.{String, Bool, true, false, Option, none, some}
use py_qgis_wps.Exceptions.{
  Exn, process_exception, timeout_error, max_requests_exceeded, request_backend_error,
  no_applicable_code, Result, ok, raise,
}
use py_qgis_wps.Exec.{Exec, pure, throw, ◌>>◌, ◌>>=◌}
use py_qgis_wps.LogStore.Response.{accepted_status, started_status, done_status, error_status}
use py_qgis_wps.LogStore.Store.{Server, Db, log_request}
use py_qgis_wps.Executor.Report.{Format, Context, Job, update_status, document_bytes}

-- The readings of the clock at the reports of one call.
pub record Times : Type 0 where
  pub first : Context
  pub last : Context

-- How the handler of a process comes to an end without an `Exception`: it returns, or it leaves by
-- a `SystemExit` or a `KeyboardInterrupt`, which no `except` clause of `_run_process` takes.
pub data Handled : Type 0 where
  returned : Handled
  exits : Handled

-- What `_run_process` returns, or that it is left so.
pub data RunEnd : Type 0 where
  bytes_of : Option String → RunEnd
  exited : RunEnd

module _ (srv : Server) (fmt : Format) where
  -- The `except` clauses of `_run_process`; `text` is `str(e)`.
  unfoldable pub fail : Context → (Exn → String) → Exn → Exec (Job srv) RunEnd
  fail ctx text process_exception = do
    update_status srv fmt ctx (some (text process_exception)) none (some error_status)
    throw process_exception
  fail ctx text e = do
    update_status srv fmt ctx (some "Internal error") none (some error_status)
    throw e

  unfoldable pub catch :
      Context → (Exn → String) → Result RunEnd × Job srv → Result RunEnd × Job srv
  unfolding fail
  catch ctx text (ok f, j) = (ok f, j)
  catch ctx text (raise e, j) = fail ctx text e j

  -- What follows the call of the handler.
  unfoldable pub finish_run : Context → Handled → Exec (Job srv) RunEnd
  unfolding update_status document_bytes
  finish_run ctx exits = pure exited
  finish_run ctx returned = do
    update_status srv fmt ctx (some "Task finished") (some 100) (some done_status)
    λ j. (ok (bytes_of (document_bytes srv fmt j.response)), j)

  -- The body of the `try`: `chdir` enters the directory of the job, `handler` is the process.
  unfoldable pub run_body :
      Times → Exec (Job srv) (Unit {0}) → Exec (Job srv) Handled → Exec (Job srv) RunEnd
  unfolding update_status finish_run
  run_body t chdir handler = do
    chdir
    update_status srv fmt t.first (some "Task started") (some 0) (some started_status)
    handled ← handler
    finish_run t.last handled

  unfoldable pub run_process :
      Times
      → (Exn → String)
      → Exec (Job srv) (Unit {0})
      → Exec (Job srv) Handled
      → Exec (Job srv) RunEnd
  unfolding run_body catch
  run_process t text chdir handler j = catch t.last text (run_body t chdir handler j)

  -- Awaiting the pool: what the worker does to the log store meanwhile, and how the wait ends.
  abbrev pub Await : Type 0
  Await = Db srv → Result (Option String) × Db srv

  unfoldable pub await : Await → Exec (Job srv) (Option String)
  await apply_future j = ((apply_future j.db).0, record j { db = (apply_future j.db).1 })

  -- The `except` clauses of `do_execute_async`: no error leaves the task.
  unfoldable pub absorb : Context → Result (Option String) → Exec (Job srv) (Unit {0})
  absorb ctx (ok bytes) = pure tt
  absorb ctx (raise timeout_error) =
      update_status srv fmt ctx (some "Timeout Error") none (some error_status)
  absorb ctx (raise max_requests_exceeded) =
      update_status srv fmt ctx (some "Server busy, please retry later") none (some error_status)
  absorb ctx (raise e) = update_status srv fmt ctx (some "Internal Error") none (some error_status)

  unfoldable pub do_execute_async : Context → Await → Exec (Job srv) (Unit {0})
  unfolding await absorb
  do_execute_async ctx apply_future j = absorb ctx (await apply_future j).0 (await apply_future j).1

  -- The `except` clauses of the synchronous branch.
  unfoldable pub convey : Context → Result (Option String) → Exec (Job srv) (Option String)
  convey ctx (ok bytes) = pure bytes
  convey ctx (raise timeout_error) = do
    update_status srv fmt ctx (some "Timeout Error") none (some error_status)
    throw (no_applicable_code 504 "")
  convey ctx (raise max_requests_exceeded) = throw (no_applicable_code 509 "")
  convey ctx (raise (request_backend_error true)) = throw (no_applicable_code 500 "")
  convey ctx (raise e) = throw e

  unfoldable pub wait_for : Context → Await → Exec (Job srv) (Option String)
  unfolding await convey
  wait_for ctx apply_future j = convey ctx (await apply_future j).0 (await apply_future j).1

  -- `logstore.log_request`, the call of `apply_async`, which pickles its arguments and may raise,
  -- and the report that the task is accepted.
  unfoldable pub accept : Context → Result (Unit {0}) → Exec (Job srv) (Unit {0})
  accept ctx (raise e) j = (
    raise e,
    record j { db = (log_request srv ctx.now j.response.uuid j.response.wps_request j.db).1 },
  )
  accept ctx (ok u) j =
      update_status srv fmt ctx (some "Task accepted") none (some accepted_status)
        (record j { db = (log_request srv ctx.now j.response.uuid j.response.wps_request j.db).1 })

  -- The two branches of `execute`: an asynchronous job is answered with the document, and its
  -- task, `do_execute_async`, runs later; a synchronous one is awaited.
  unfoldable pub submit : Bool → Times → Result (Unit {0}) → Await → Exec (Job srv) (Option String)
  unfolding accept wait_for
  submit true t pickled apply_future = do accept t.first pickled; λ j. (ok j.response.document, j)
  submit false t pickled apply_future = do accept t.first pickled; wait_for t.last apply_future

  unfoldable pub execute : Times → Result (Unit {0}) → Await → Exec (Job srv) (Option String)
  unfolding submit
  execute t pickled apply_future j =
      submit j.response.wps_request.execute_async t pickled apply_future j
