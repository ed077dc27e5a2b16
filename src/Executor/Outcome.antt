-- ===== src/Executor/Outcome.antt =====
-- What the log store shows of a job at the end of its run, on every branch.
use py_qgis_wps.Prelude.{
  ℕ, ◌≡◌, refl, ◌∙◌, String, false, Option, none, some, arith, str_dec, if_pos, sym, subst, ◌⊎◌,
  inl, inr,
}
use py_qgis_wps.Exceptions.{
  Exn, process_exception, timeout_error, max_requests_exceeded, no_applicable_code, Result, ok,
  raise, Result-cases,
}
use py_qgis_wps.Exec.{Exec}
use py_qgis_wps.LogStore.Response.{
  Response, Status, accepted_status, started_status, done_status, error_status,
}
use py_qgis_wps.LogStore.Jobs.{Record, update_record}
use py_qgis_wps.LogStore.Store.{Server, Db, log_request, get_status, update_response, recorded}
use py_qgis_wps.Executor.Report.{Format, Context, Job, update_status, assign, report}
use py_qgis_wps.Executor.Run.{
  Handled, returned, exits, RunEnd, bytes_of, exited, finish_run, Times, fail, catch, run_body,
  run_process, Await, absorb, do_execute_async, convey, wait_for, submit, execute,
}

-- The class of responses builds a document for every response.
abbrev pub Renders : Format → Type 0
Renders fmt = (p : Response) → (doc : String) × (fmt.get_execute_response p ≡ ok doc)

-- The log store has a record for the job, with the status.
abbrev pub Shows : (srv : Server) → Status → Job srv → Type 0
Shows srv st j = (r : Record) × (get_status srv j.response.uuid j.db ≡ some r) × (r.status ≡ st)

module _ (srv : Server) (fmt : Format) where
  update_response-status :
      (ctx : Context) (p : Response) (db : Db srv)
      → (r : Record) × (get_status srv p.uuid (update_response srv ctx.now ctx.pid p.uuid p db)
          ≡ some r)
        × (r.status ≡ p.status)
  unfolding update_response get_status
  update_response-status ctx p db =
      let rec = (recorded srv ctx.now p.uuid p.wps_request db).0 in
      (
        update_record ctx.now ctx.pid p rec,
        srv.status.get-put _ p.uuid p.uuid _ ∙ if_pos (str_dec p.uuid p.uuid) refl _ _,
        unfold update_record in ground arith,
      )

  -- A report with a status is seen in the log store.
  pub update_status-Shows :
      (ctx : Context) (message : Option String) (percentage : Option ℕ) (st : Status) (j : Job srv)
      → Renders fmt
      → ((update_status srv fmt ctx message percentage (some st) j).0 ≡ ok tt)
        × Shows srv st (update_status srv fmt ctx message percentage (some st) j).1
  unfolding update_status assign
  update_status-Shows ctx message percentage st j renders =
      let p = assign srv fmt message percentage (some st) j.response in
      let (doc, built) = renders p in
      rw (built, update_status, report)
        (refl, update_response-status ctx (record p { document = some doc }) _)

  fail-Shows :
      (ctx : Context) (text : Exn → String) (e : Exn) (j : Job srv)
      → Renders fmt
      → ((fail srv fmt ctx text e j).0 ≡ raise e)
        × Shows srv error_status (fail srv fmt ctx text e j).1
  unfolding fail
  fail-Shows ctx text process_exception j renders =
      let (o, s) =
        update_status-Shows ctx (some (text process_exception)) none error_status j renders in
      rw o (refl, s)
  fail-Shows ctx text _ j renders =
      let (o, s) = update_status-Shows ctx (some "Internal error") none error_status j renders in
      rw o (refl, s)

  -- How a run in a worker ends: the result beside what the log store shows of the job.
  pub data Ends (handler : Exec (Job srv) Handled) : Result RunEnd → Job srv → Type 0 where
    done :
        {bytes : Option String} {j : Job srv}
        → Shows srv done_status j
        → Ends handler (ok (bytes_of bytes)) j
    failed : {e : Exn} {j : Job srv} → Shows srv error_status j → Ends handler (raise e) j
    left : (j : Job srv) → (handler j).0 ≡ ok exits → Ends handler (ok exited) (handler j).1

  -- What the run is until the `except` clauses.
  data Tried (handler : Exec (Job srv) Handled) : Result RunEnd → Job srv → Type 0 where
    finished :
        {bytes : Option String} {j : Job srv}
        → Shows srv done_status j
        → Tried handler (ok (bytes_of bytes)) j
    raised : {e : Exn} {j : Job srv} → Tried handler (raise e) j
    exits_here : (j : Job srv) → (handler j).0 ≡ ok exits → Tried handler (ok exited) (handler j).1

  finish_run-Tried :
      (ctx : Context) (handler : Exec (Job srv) Handled) (j : Job srv) (h : Handled)
      → Renders fmt
      → (handler j).0 ≡ ok h
      → Tried handler
          (finish_run srv fmt ctx h (handler j).1).0
          (finish_run srv fmt ctx h (handler j).1).1
  unfolding finish_run
  finish_run-Tried ctx handler j exits renders e = exits_here j e
  finish_run-Tried ctx handler j returned renders e =
      let (o, s) =
        update_status-Shows ctx (some "Task finished") (some 100) done_status (handler j).1
          renders in
      rw o (finished s)

  run_body-Tried :
      (t : Times) (chdir : Exec (Job srv) (Unit {0})) (handler : Exec (Job srv) Handled)
      (j : Job srv)
      → Renders fmt
      → Tried handler (run_body srv fmt t chdir handler j).0 (run_body srv fmt t chdir handler j).1
  unfolding run_body
  run_body-Tried t chdir handler j renders =
      let start =
        update_status srv fmt t.first (some "Task started") (some 0) (some started_status) in
      let j1 : Job srv = (chdir j).1 in
      let j2 : Job srv = (start j1).1 in
      elim (Result-cases (chdir j).0) [
        | inl (e, bad) ↦ rw bad raised
        | inr (u, entered) ↦ elim (Result-cases (start j1).0) [
          | inl (e, bad) ↦ rw (entered, bad) raised
          | inr (v, started) ↦ elim (Result-cases (handler j2).0) [
            | inl (e, bad) ↦ rw (entered, started, bad) raised
            | inr (h, ran) ↦
                rw (entered, started, ran) (finish_run-Tried t.last handler j2 h renders ran)
          ]
        ]
      ]

  catch-Ends :
      (ctx : Context) (text : Exn → String) (handler : Exec (Job srv) Handled) (r : Result RunEnd)
      (j : Job srv)
      → Renders fmt
      → Tried handler r j
      → Ends handler (catch srv fmt ctx text (r, j)).0 (catch srv fmt ctx text (r, j)).1
  unfolding catch
  catch-Ends ctx text handler _ _ renders (finished s) = done s
  catch-Ends ctx text handler _ _ renders (exits_here j e) = left j e
  catch-Ends ctx text handler (raise e) j renders raised =
      let (o, s) = fail-Shows ctx text e j renders in rw o (failed s)

  -- Whatever the process does, a run in a worker that returns leaves the job marked as done, and
  -- one that raises an `Exception` leaves it marked as failed, where the class of responses builds
  -- a document for every response. Only a process that leaves by `SystemExit` or
  -- `KeyboardInterrupt` makes the run leave in the same way, and then the job is as the process
  -- left it.
  pub run_process-Ends :
      (t : Times) (text : Exn → String) (chdir : Exec (Job srv) (Unit {0}))
      (handler : Exec (Job srv) Handled) (j : Job srv)
      → Renders fmt
      → Ends handler
          (run_process srv fmt t text chdir handler j).0
          (run_process srv fmt t text chdir handler j).1
  unfolding run_process
  run_process-Ends t text chdir handler j renders =
      let body = run_body srv fmt t chdir handler j in
      catch-Ends t.last text handler body.0 body.1 renders
        (run_body-Tried t chdir handler j renders)

  await-Shows_failed :
      (ctx : Context) (message : String) (j : Job srv)
      → Renders fmt
      → ((update_status srv fmt ctx (some message) none (some error_status) j).0 ≡ ok tt)
        × Shows srv error_status
            (update_status srv fmt ctx (some message) none (some error_status) j).1
  await-Shows_failed ctx message j renders =
      update_status-Shows ctx (some message) none error_status j renders

  -- The task of an asynchronous job never raises, as long as it is not cancelled, and whenever the
  -- pool gives no result, for a timeout, a full queue or any other exception, the job is marked as
  -- failed, where the class of responses builds a document for every response.
  pub do_execute_async-Shows :
      (ctx : Context) (apply_future : Await srv fmt) (j : Job srv)
      → Renders fmt
      → ((do_execute_async srv fmt ctx apply_future j).0 ≡ ok tt)
        × (((bytes : Option String) × ((apply_future j.db).0 ≡ ok bytes))
            ⊎ Shows srv error_status (do_execute_async srv fmt ctx apply_future j).1)
  unfolding do_execute_async
  do_execute_async-Shows ctx apply_future j renders =
      absorbed (apply_future j.db).0 (record j { db = (apply_future j.db).1 })
    where
      absorbed :
          (r : Result (Option String)) (k : Job srv)
          → ((absorb srv fmt ctx r k).0 ≡ ok tt)
            × (((bytes : Option String) × (r ≡ ok bytes))
                ⊎ Shows srv error_status (absorb srv fmt ctx r k).1)
      absorbed (ok bytes) k = (refl, inl (bytes, refl))
      absorbed (raise timeout_error) k =
          let (o, s) = await-Shows_failed ctx "Timeout Error" k renders in (o, inr s)
      absorbed (raise max_requests_exceeded) k =
          let (o, s) = await-Shows_failed ctx "Server busy, please retry later" k renders in
          (o, inr s)
      absorbed (raise _) k =
          let (o, s) = await-Shows_failed ctx "Internal Error" k renders in (o, inr s)

  -- A synchronous job that times out is marked as failed, and the client is answered 504, where
  -- the class of responses builds a document for every response.
  pub wait_for-timeout :
      (ctx : Context) (apply_future : Await srv fmt) (j : Job srv)
      → Renders fmt
      → (apply_future j.db).0 ≡ raise timeout_error
      → ((wait_for srv fmt ctx apply_future j).0 ≡ raise (no_applicable_code 504 ""))
        × Shows srv error_status (wait_for srv fmt ctx apply_future j).1
  unfolding wait_for
  wait_for-timeout ctx apply_future j renders h =
      let k : Job srv = record j { db = (apply_future j.db).1 } in
      let (o, s) = await-Shows_failed ctx "Timeout Error" k renders in
      rw (h, wait_for, convey, o) (refl, s)

  -- What is said of a refused job.
  abbrev Refused : Result (Option String) × Job srv → Type 0
  Refused x = (x.0 ≡ raise (no_applicable_code 509 "")) × Shows srv accepted_status x.1

  submit-raise :
      (t : Times) (apply_future : Await srv fmt) (j : Job srv)
      → Renders fmt
      → ((db : Db srv) → apply_future db ≡ (raise max_requests_exceeded, db))
      → Refused (submit srv fmt false t (ok tt) apply_future j)
  unfolding submit
  submit-raise t apply_future j renders refuses =
      let k : Job srv = record j {
        db = (log_request srv t.first.now j.response.uuid j.response.wps_request j.db).1;
      } in
      let (o, s) =
        update_status-Shows t.first (some "Task accepted") none accepted_status k renders in
      let accepted : Job srv =
        (update_status srv fmt t.first (some "Task accepted") none (some accepted_status) k).1 in
      rw (o, refuses accepted.db) (refl, s)

  -- A synchronous job that the pool refuses, leaving the log store as it is, is answered 509 and
  -- keeps the status accepted, where the class of responses builds a document for every response:
  -- unlike the asynchronous one it is not marked as failed.
  pub execute_refused :
      (t : Times) (apply_future : Await srv fmt) (j : Job srv)
      → Renders fmt
      → j.response.wps_request.execute_async ≡ false
      → ((db : Db srv) → apply_future db ≡ (raise max_requests_exceeded, db))
      → ((execute srv fmt t (ok tt) apply_future j).0 ≡ raise (no_applicable_code 509 ""))
        × Shows srv accepted_status (execute srv fmt t (ok tt) apply_future j).1
  unfolding execute
  execute_refused t apply_future j renders sync refuses =
      subst (λ b. Refused (submit srv fmt b t (ok tt) apply_future j)) (sym sync)
        (submit-raise t apply_future j renders refuses)
