-- ===== src/Pool/Worker.antt =====
-- poolserver/worker.py: the loop of a worker.
use py_qgis_wps.Prelude.{
  ℕ, zero, suc, ◌+◌, ◌≡◌, ◌⊎◌, refl, subst, ◌++◌, Bool, true, false, ◌&&◌, not, Option, none, some,
  List, [], ◌∷◌, arith, ltb, ◌==◌, if◌then◌else◌, inl, inr,
}
use py_qgis_wps.Pool.Supervisor.{Notifier, notify_done, notify_busy}

-- What the socket gives when the worker waits for a job: nothing in time, bytes that do not load,
-- or a job with what its function comes to (a success or an exception) and whether that can be
-- pickled and sent, or a job whose function leaves by `SystemExit` or `KeyboardInterrupt`; or the
-- wait is left by a `KeyboardInterrupt`.
pub data Received : Type 0 where
  again : Received
  unreadable : Received
  job : (jobid : ℕ) → (success : Bool) → (sendable : Bool) → Received
  exits : Received
  interrupt : Received

-- One turn of the loop: what is received, and whether a `RESTART` is there.
pub record Turn : Type 0 where
  pub received : Received
  pub restart : Bool

-- What the worker sends: `WORKER_READY`, `WORKER_DONE`, or the reply to a job.
pub data Frame : Type 0 where
  ready_frame done_frame : Frame
  reply : ℕ → Bool → Frame

-- How the worker ends: the loop is still running when the turns are over, it has done its cycles,
-- it was restarted, an exception went through, or it was left by `SystemExit` or `KeyboardInterrupt`.
pub data Ending : Type 0 where
  looping finished restarted crashed interrupted : Ending

-- `maxcycles is None or (maxcycles and completed < maxcycles)`
abbrev pub goes_on : Option ℕ → ℕ → Bool
goes_on none completed = true
goes_on (some m) completed = not (m == 0) && ltb completed m

-- The `try` around a job: what is sent, the notifier, how many jobs were completed, and the end of
-- the loop where an exception goes through it.
unfoldable pub attempt : Received → Notifier → List Frame × Notifier × ℕ × Option Ending
unfolding notify_done notify_busy
attempt again c = ([], c, 0, none)
attempt unreadable c = ([], c, 0, some crashed)
attempt exits c = ([], notify_busy c, 0, some interrupted)
attempt interrupt c = ([], c, 0, some interrupted)
attempt (job jobid success sendable) c =
    let c' = notify_done (notify_busy c) in
    if sendable then (reply jobid success ∷ [], c', 1, none) else ([], c', 0, some crashed)

-- The loop, over the turns that happen.
unfoldable pub worker_handler : Option ℕ → ℕ → List Turn → Notifier → List Frame × Notifier × Ending
unfolding attempt
worker_handler maxcycles completed [] c =
    ([], c, if goes_on maxcycles completed then looping else finished)
worker_handler maxcycles completed (t ∷ ts) c =
    let (frames, c', n, escape) = attempt t.received c in
    let (later, c'', ending) = worker_handler maxcycles (completed + n) ts c' in
    if not (goes_on maxcycles completed) then ([], c, finished) else elim escape [
      | some end ↦ (ready_frame ∷ frames, c', end)
      | none ↦
          if t.restart
          then (ready_frame ∷ frames ++ done_frame ∷ [], c', restarted)
          else (ready_frame ∷ frames ++ later, c'', ending)
    ]

-- Whether what is received makes the loop end by an exception.
abbrev pub ends_loop : Received → Bool
ends_loop again = false
ends_loop (job jobid success sendable) = not sendable
ends_loop r = true

-- What a worker may send in its turns, when it still has a number of replies to make: in each turn a
-- `ready`, and directly after it the reply to the job of that turn, if there is one that can be sent;
-- nothing comes after a `done`, and nothing after a `ready` whose turn ends the loop.
pub data Protocol : ℕ → List Turn → List Frame → Type 0 where
  silent : {ts : List Turn} → Protocol 0 ts []
  over : {n : ℕ} → Protocol n [] []
  idle :
      {n : ℕ} {ts : List Turn} {l : List Frame} (t : Turn)
      → t.received ≡ again
      → t.restart ≡ false
      → Protocol n ts l
      → Protocol n (t ∷ ts) (ready_frame ∷ l)
  answers :
      {n : ℕ} {ts : List Turn} {l : List Frame} (t : Turn) (jobid : ℕ) (success : Bool)
      → t.received ≡ job jobid success true
      → t.restart ≡ false
      → Protocol n ts l
      → Protocol (suc n) (t ∷ ts) (ready_frame ∷ reply jobid success ∷ l)
  leaves :
      {n : ℕ} {ts : List Turn} (t : Turn)
      → t.received ≡ again
      → t.restart ≡ true
      → Protocol n (t ∷ ts) (ready_frame ∷ done_frame ∷ [])
  answers_last :
      {n : ℕ} {ts : List Turn} (t : Turn) (jobid : ℕ) (success : Bool)
      → t.received ≡ job jobid success true
      → t.restart ≡ true
      → Protocol (suc n) (t ∷ ts) (ready_frame ∷ reply jobid success ∷ done_frame ∷ [])
  breaks :
      {n : ℕ} {ts : List Turn} (t : Turn)
      → ends_loop t.received ≡ true
      → Protocol n (t ∷ ts) (ready_frame ∷ [])

-- The frames follow the protocol, and the notifier is not busy unless `SystemExit` or
-- `KeyboardInterrupt` ended the loop.
abbrev Sound : ℕ → List Turn → List Frame × Notifier × Ending → Type 0
Sound n ts x = Protocol n ts x.0 × ((x.1.busy ≡ false) ⊎ (x.2 ≡ interrupted))

notify_idle : (c : Notifier) → c.busy ≡ false → (notify_done (notify_busy c)).busy ≡ false
unfolding notify_done notify_busy
notify_idle c h = rw (h, notify_done) refl

goes_on-zero : (completed : ℕ) → goes_on (some (zero + completed)) completed ≡ false
goes_on-zero completed = ground arith

goes_on-suc : (n completed : ℕ) → goes_on (some (suc n + completed)) completed ≡ true
goes_on-suc n completed = ground arith

-- What is assumed of the turns to come.
abbrev Later : List Turn → Type 0
Later ts =
    (n completed : ℕ) (c : Notifier)
    → c.busy ≡ false
    → Sound n ts (worker_handler (some (n + completed)) completed ts c)

worker_turn :
    (n completed : ℕ) (received : Received) (restart : Bool) (ts : List Turn) (c : Notifier)
    → c.busy ≡ false
    → Later ts
    → Sound (suc n) (record { received = received; restart = restart } ∷ ts) (
        worker_handler
          (some (suc n + completed))
          completed
          (record { received = received; restart = restart } ∷ ts)
          c)
unfolding worker_handler attempt
worker_turn n completed again true ts c h later =
    rw (goes_on-suc n completed) (leaves _ refl refl, inl h)
worker_turn n completed again false ts c h later =
    let same : completed ≡ completed + 0 = omega arith in
    let (p, q) =
      subst (λ k. Sound (suc n) ts (worker_handler (some (suc n + completed)) k ts c)) same
        (later (suc n) completed c h) in
    rw (goes_on-suc n completed) (idle _ refl refl p, q)
worker_turn n completed unreadable restart ts c h later =
    rw (goes_on-suc n completed) (breaks _ refl, inl h)
worker_turn n completed interrupt restart ts c h later =
    rw (goes_on-suc n completed) (breaks _ refl, inr refl)
worker_turn n completed exits restart ts c h later =
    rw (goes_on-suc n completed) (breaks _ refl, inr refl)
worker_turn n completed (job jobid success false) restart ts c h later =
    rw (goes_on-suc n completed) (breaks _ refl, inl (notify_idle c h))
worker_turn n completed (job jobid success true) true ts c h later =
    rw (goes_on-suc n completed) (answers_last _ jobid success refl refl, inl (notify_idle c h))
worker_turn n completed (job jobid success true) false ts c h later =
    let same : n + (completed + 1) ≡ suc n + completed = omega arith in
    let (p, q) =
      subst
        (λ k. Sound n ts (worker_handler (some k) (completed + 1) ts (notify_done (notify_busy c))))
        same (later n (completed + 1) (notify_done (notify_busy c)) (notify_idle c h)) in
    rw (goes_on-suc n completed) (answers _ jobid success refl refl p, q)

worker_from : (ts : List Turn) → Later ts
unfolding worker_handler
worker_from [] n completed c h = (over, inl h)
worker_from (t ∷ ts) zero completed c h = rw (goes_on-zero completed) (silent, inl h)
worker_from (t ∷ ts) (suc n) completed c h =
    worker_turn n completed t.received t.restart ts c h (worker_from ts)

-- A worker that starts idle and may do m jobs sends `ready` once in each turn, as long as it goes on,
-- replies to at most m jobs, each time to the job of the turn, with how its function came out, and
-- sends nothing after `done`. However its loop ends, its notifier is not busy, unless the loop was left
-- by `SystemExit` or `KeyboardInterrupt`.
pub worker_handler-Protocol :
    (m : ℕ) (ts : List Turn) (c : Notifier)
    → c.busy ≡ false
    → Protocol m ts (worker_handler (some m) 0 ts c).0
      × (((worker_handler (some m) 0 ts c).1.busy ≡ false)
          ⊎ ((worker_handler (some m) 0 ts c).2 ≡ interrupted))
worker_handler-Protocol m ts c h =
    subst (λ k. Sound m ts (worker_handler (some k) 0 ts c)) (omega arith) (worker_from ts m 0 c h)
