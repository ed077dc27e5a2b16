-- ===== src/Pool/Supervisor.antt =====
-- poolserver/supervisor.py: the notifier of a worker and the supervisor that kills stalled ones.
pub mod Timers
use py_qgis_wps.Prelude.{
  ℕ, ◌+◌, Bool, true, false, Option, none, some, List, [], ◌∷◌, ◌++◌, ℕ_discrete, Dict, lookup,
  insert, remove, if◌then◌else◌,
}
use py_qgis_wps.Exceptions.{key_error, Result, ok, raise}
use py_qgis_wps.Exec.{Exec}

pub data Notification : Type 0 where
  busy_sent done_sent : Notification

-- `Client`: whether the worker has said that it is busy, and what it has sent, the latest last. A
-- notification that the socket drops, on `EAGAIN`, counts as sent: the worker is not told.
pub record Notifier : Type 0 where
  pub busy : Bool
  pub sent : List Notification

unfoldable pub notify_done : Notifier → Notifier
notify_done c = if c.busy then record { busy = false; sent = c.sent ++ done_sent ∷ [] } else c

unfoldable pub notify_busy : Notifier → Notifier
notify_busy c = if c.busy then c else record { busy = true; sent = c.sent ++ busy_sent ∷ [] }

-- `Supervisor`, with the timers of the event loop that are scheduled and not cancelled, by the
-- number of their handle, and the workers that `killfunc` was called for, the latest last.
pub record Supervisor : Type 0 where
  pub busy : Dict ℕ ℕ
  pub stopped : Bool
  pub timers : Dict ℕ ℕ
  pub next : ℕ
  pub killed : List ℕ

-- `__init__`, and the start of `_run_async`
unfoldable pub init : Supervisor
init = record { busy = []; stopped = true; timers = []; next = 0; killed = [] }

unfoldable pub start : Supervisor → Supervisor
start s = record s { stopped = false }

-- `self._busy[pid] = loop.call_later(self._timeout, kill, pid)`
unfoldable pub on_busy : ℕ → Supervisor → Supervisor
unfolding insert
on_busy pid s = record s {
  busy = insert ℕ_discrete pid s.next s.busy;
  timers = insert ℕ_discrete s.next pid s.timers;
  next = s.next + 1;
}

-- `self._busy.pop(pid).cancel()`, and `pass` for a worker that is not there
unfoldable pub on_done : ℕ → Supervisor → Supervisor
unfolding lookup remove
on_done pid s = elim (lookup ℕ_discrete pid s.busy) [
  | none ↦ s
  | some timer ↦ record s {
    busy = remove ℕ_discrete pid s.busy;
    timers = remove ℕ_discrete timer s.timers;
  }
]

abbrev pub then_true : Result (Unit {0}) → Result Bool
then_true (ok u) = ok true
then_true (raise e) = raise e

-- `killfunc` is given by the pool: the server passes `os.kill`, which raises for a process id that
-- is not there.
module _ (killfunc : ℕ → Result (Unit {0})) where
  -- The function `kill`, which a timer calls.
  unfoldable pub kill : ℕ → Exec Supervisor (Unit {0})
  unfolding lookup remove
  kill pid s = elim (lookup ℕ_discrete pid s.busy) [
    | none ↦ (raise key_error, s)
    | some timer ↦ (
      killfunc pid,
      record s { busy = remove ℕ_discrete pid s.busy; killed = s.killed ++ pid ∷ [] },
    )
  ]

  -- The event loop runs a timer that is due, if it has not been cancelled.
  unfoldable pub fire : ℕ → Exec Supervisor (Unit {0})
  unfolding kill
  fire timer s = elim (lookup ℕ_discrete timer s.timers) [
    | none ↦ (ok tt, s)
    | some pid ↦ kill pid (record s { timers = remove ℕ_discrete timer s.timers })
  ]

  -- The answer `None` for a worker that is not busy is `false`.
  unfoldable pub kill_worker_busy : ℕ → Exec Supervisor Bool
  unfolding lookup remove
  kill_worker_busy pid s = elim (lookup ℕ_discrete pid s.busy) [
    | none ↦ (ok false, s)
    | some timer ↦ (
      then_true (killfunc pid),
      record s { busy = remove ℕ_discrete pid s.busy; killed = s.killed ++ pid ∷ [] },
    )
  ]

-- `for th in self._busy.values(): th.cancel()`
unfoldable pub cancel_all : Dict ℕ ℕ → Dict ℕ ℕ → Dict ℕ ℕ
unfolding remove
cancel_all [] timers = timers
cancel_all ((pid, timer) ∷ busy) timers = cancel_all busy (remove ℕ_discrete timer timers)

unfoldable pub stop : Supervisor → Supervisor
unfolding cancel_all
stop s = record s { stopped = true; timers = cancel_all s.busy s.timers; busy = [] }
