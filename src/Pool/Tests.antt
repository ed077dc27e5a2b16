-- ===== src/Pool/Tests.antt =====
-- Clients, supervisors and pools on concrete inputs.
use py_qgis_wps.Prelude.{
  ℕ, ◌==◌, if◌then◌else◌, ◌≡◌, ◌≢◌, ◌⊎◌, refl, true, false, not, some, List, [], ◌∷◌, ◌++◌, arith,
  ℕ_discrete, lookup, length,
}
use py_qgis_wps.Exceptions.{key_error, os_error, Result, ok, raise}
use py_qgis_wps.Pool.Client
use py_qgis_wps.Pool.Client.{
  Client, Message, worker_ready, worker_done, answer, success, get_worker,
}
use py_qgis_wps.Pool.Client.Queue
use py_qgis_wps.Pool.Client.Queue.{
  Event, message, request, sending, leaving, Taken, Quiet, run-IsValid, get_worker-Taken,
  get_worker_once,
}
use py_qgis_wps.Pool.Supervisor
use py_qgis_wps.Pool.Supervisor.{Supervisor, fire, kill_worker_busy, on_busy, on_done}
use py_qgis_wps.Pool.Supervisor.Timers.{
  Reach, here, next, starts, busy, busy_now, done_now, notify, Alternates, fire-Reach, on_done_safe,
  fire-kill_worker_busy, fire-on_busy-kill_worker_busy, notify-Alternates,
}
use py_qgis_wps.Pool.Workers
use py_qgis_wps.Pool.Workers.{Pool, failed, maintain_pool}
use py_qgis_wps.Pool.Workers.Size.{AllRunning, init-length, maintain_pool-length}
use py_qgis_wps.Pool.Worker.{
  Turn, job, again, interrupted, worker_handler, Protocol, worker_handler-Protocol,
}

abbrev events : List Event
events = message (worker_ready 7) ∷ message (worker_ready 7) ∷ message (worker_ready 8) ∷ []

abbrev client : Client
client = Queue.run events (Client.init 10)

run-IsValid_example : Queue.IsValid (Queue.run events (Client.init 10))
run-IsValid_example = run-IsValid events 10

worker_once : client.worker_s ≡ 7 ∷ 8 ∷ []
unfolding Queue.run Queue.step Client.poll Client.put_worker Client.init ℕ_discrete
worker_once = refl

queue_head : Taken client (get_worker client)
queue_head = get_worker-Taken client (run-IsValid events 10)

got : (get_worker client).0 ≡ some 7
unfolding Queue.run Queue.step Client.poll Client.put_worker Client.init Client.get_worker
    Client.take_worker ℕ_discrete
got = refl

abbrev meanwhile : List Event
meanwhile = message (worker_ready 9) ∷ sending 1 true ∷ message (answer 1 (success 5)) ∷ []

quiet : Quiet 7 meanwhile
quiet = ((λ e. ground arith), (tt, (tt, tt)))

worker_given : (get_worker (Queue.run meanwhile (get_worker client).1)).0 ≢ some 7
worker_given = get_worker_once 7 client meanwhile (run-IsValid events 10) got quiet

-- A worker that is busy is there to be killed, but for number 43.
abbrev kill_it : ℕ → Result (Unit {0})
kill_it pid = if pid == 43 then raise os_error else ok tt

abbrev stalled : Supervisor
stalled = on_busy 42 (Supervisor.start Supervisor.init)

stalled-Reach : Reach kill_it stalled
unfolding Supervisor.init Supervisor.start lookup
stalled-Reach =
    next (next here (starts Supervisor.init)) (busy 42 (Supervisor.start Supervisor.init) refl)

timer : lookup ℕ_discrete 0 stalled.timers ≡ some 42
unfolding Supervisor.init Supervisor.start on_busy lookup ℕ_discrete
timer = refl

fire-Reach_example :
    (lookup ℕ_discrete 42 stalled.busy ≡ some 0)
    × ((fire kill_it 0 stalled).0 ≡ kill_it 42)
    × ((fire kill_it 0 stalled).1.killed ≡ stalled.killed ++ 42 ∷ [])
fire-Reach_example = fire-Reach kill_it 0 42 stalled-Reach timer

released : lookup ℕ_discrete 0 (on_done 42 stalled).timers ≢ some 42
released = on_done_safe kill_it 0 42 stalled-Reach

stale_timer : (fire kill_it 0 (kill_worker_busy kill_it 42 stalled).1).0 ≡ raise key_error
stale_timer = fire-kill_worker_busy kill_it 0 42 stalled-Reach timer

killed_before :
    ((fire kill_it 0 (on_busy 42 (kill_worker_busy kill_it 42 stalled).1)).1.killed
      ≡ (stalled.killed ++ 42 ∷ []) ++ 42 ∷ [])
    × (lookup ℕ_discrete stalled.next
          (fire kill_it 0 (on_busy 42 (kill_worker_busy kill_it 42 stalled).1)).1.timers
        ≡ some 42)
killed_before = fire-on_busy-kill_worker_busy kill_it 0 42 stalled-Reach timer

alternating :
    let c = notify (busy_now ∷ busy_now ∷ done_now ∷ []) (record { busy = false; sent = [] }) in
    Alternates c.sent (not c.busy)
alternating = notify-Alternates (busy_now ∷ busy_now ∷ done_now ∷ [])

starts_full : length (Workers.init 2 100 500).pool ≡ 2
starts_full = init-length 2 100 500

abbrev pool : Pool
pool = Workers.init 2 100 500

-- Both workers of the pool, the first of which has failed.
abbrev broken : Pool
broken = record pool {
  pool = record { pid = 500; exit = failed } ∷ record { pid = 501; exit = Workers.running } ∷ [];
}

broken_full : length broken.pool ≡ broken.num_workers
unfolding Workers.init Workers.repopulate_pool
broken_full = refl

pool_refilled :
    (length (maintain_pool 102 broken).pool ≡ broken.num_workers)
    × AllRunning (maintain_pool 102 broken).pool
pool_refilled = maintain_pool-length 102 broken broken_full

early_failure : (maintain_pool 102 broken).critical_failure ≡ true
unfolding Workers.init maintain_pool
early_failure = refl

abbrev turns : List Turn
turns =
    record { received = again; restart = false }
    ∷ record { received = job 1 true true; restart = false }
    ∷ record { received = job 2 false true; restart = true }
    ∷ []

worker_handler-Protocol_example :
    Protocol 5 turns (worker_handler (some 5) 0 turns (record { busy = false; sent = [] })).0
    × (((worker_handler (some 5) 0 turns (record { busy = false; sent = [] })).1.busy ≡ false)
        ⊎ ((worker_handler (some 5) 0 turns (record { busy = false; sent = [] })).2 ≡ interrupted))
worker_handler-Protocol_example =
    worker_handler-Protocol 5 turns (record { busy = false; sent = [] }) refl
