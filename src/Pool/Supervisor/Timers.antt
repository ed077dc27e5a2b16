-- ===== src/Pool/Supervisor/Timers.antt =====
-- Timers and busy workers: who can be killed.
use py_qgis_wps.Prelude.{
  ℕ, ◌+◌, ◌<◌, ◌≡◌, ◌≢◌, refl, ◌∙◌, ap, Bool, true, false, none, some, List, [], ◌∷◌, ◌++◌, arith,
  ℕ_discrete, lookup, insert, remove, lookup-insert, lookup-remove, Option-cases, not, inl, inr,
  if_pos,
}
use py_qgis_wps.Exceptions.{key_error, Result, raise}
use py_qgis_wps.Pool.Supervisor.{
  Notification, busy_sent, done_sent, Notifier, notify_done, notify_busy, Supervisor, init, start,
  on_busy, on_done, kill, fire, kill_worker_busy,
}

-- A pending timer is that of a worker which is registered as busy with it, and handles are fresh.
pub record IsTracked (s : Supervisor) : Type 0 where
  pub timed :
      (timer pid : ℕ)
      → lookup ℕ_discrete timer s.timers ≡ some pid
      → lookup ℕ_discrete pid s.busy ≡ some timer
  pub fresh : (timer pid : ℕ) → lookup ℕ_discrete timer s.timers ≡ some pid → timer < s.next

init-IsTracked : IsTracked init
unfolding init lookup
init-IsTracked = record { timed = λ timer pid e. cc; fresh = λ timer pid e. absurd (ground arith) }

on_busy-IsTracked :
    (pid : ℕ) (s : Supervisor)
    → lookup ℕ_discrete pid s.busy ≡ none
    → IsTracked s
    → IsTracked (on_busy pid s)
unfolding on_busy
on_busy-IsTracked pid s idle v = record {
  timed = λ t q e. ground (
    arith,
    lookup-insert ℕ_discrete s.next t pid s.timers,
    lookup-insert ℕ_discrete pid q s.next s.busy,
    v.timed t q,
  );
  fresh = λ t q e. ground (arith, lookup-insert ℕ_discrete s.next t pid s.timers, v.fresh t q);
}

-- Taking a worker and its timer away together.
retire :
    (timer pid : ℕ) (s : Supervisor) {killed : List ℕ} {stopped : Bool}
    → lookup ℕ_discrete pid s.busy ≡ some timer
    → IsTracked s
    → IsTracked (record {
      busy = remove ℕ_discrete pid s.busy;
      stopped = stopped;
      timers = remove ℕ_discrete timer s.timers;
      next = s.next;
      killed = killed;
    })
retire timer pid s e v = record {
  timed = λ t q h. ground (
    arith,
    lookup-remove ℕ_discrete timer t s.timers,
    lookup-remove ℕ_discrete pid q s.busy,
    v.timed t q,
  );
  fresh = λ t q h. ground (arith, lookup-remove ℕ_discrete timer t s.timers, v.fresh t q);
}

on_done-IsTracked : (pid : ℕ) (s : Supervisor) → IsTracked s → IsTracked (on_done pid s)
unfolding on_done
on_done-IsTracked pid s v = elim (Option-cases (lookup ℕ_discrete pid s.busy)) [
  | inl e ↦ rw (e, on_done) v
  | inr (timer, e) ↦ rw (e, on_done) (retire timer pid s e v)
]

module _ (killfunc : ℕ → Result (Unit {0})) where
  -- What happens to a supervisor whose workers notify in turn and where no dismissal is asked for: a
  -- worker says that it is busy only when it is not registered as busy.
  pub data Step : Supervisor → Supervisor → Type 0 where
    starts : (s : Supervisor) → Step s (start s)
    busy : (pid : ℕ) (s : Supervisor) → lookup ℕ_discrete pid s.busy ≡ none → Step s (on_busy pid s)
    done : (pid : ℕ) (s : Supervisor) → Step s (on_done pid s)
    fires : (timer : ℕ) (s : Supervisor) → Step s (fire killfunc timer s).1

  pub data Reach : Supervisor → Type 0 where
    here : Reach init
    next : {s t : Supervisor} → Reach s → Step s t → Reach t

  kill-some :
      (pid timer : ℕ) (s : Supervisor)
      → lookup ℕ_discrete pid s.busy ≡ some timer
      → kill killfunc pid s ≡ (
        killfunc pid,
        record s { busy = remove ℕ_discrete pid s.busy; killed = s.killed ++ pid ∷ [] },
      )
  unfolding kill
  kill-some pid timer s e = rw (e, kill) refl

  kill-none :
      (pid : ℕ) (s : Supervisor)
      → lookup ℕ_discrete pid s.busy ≡ none
      → kill killfunc pid s ≡ (raise key_error, s)
  unfolding kill
  kill-none pid s e = rw (e, kill) refl

  fire-some :
      (timer pid : ℕ) (s : Supervisor)
      → lookup ℕ_discrete timer s.timers ≡ some pid
      → fire killfunc timer s
        ≡ kill killfunc pid (record s { timers = remove ℕ_discrete timer s.timers })
  unfolding fire
  fire-some timer pid s e = rw (e, fire) refl

  -- A due timer calls the kill function for the worker that it was set for.
  fire_due :
      (timer pid : ℕ) (s : Supervisor)
      → IsTracked s
      → lookup ℕ_discrete timer s.timers ≡ some pid
      → fire killfunc timer s ≡ (
        killfunc pid,
        record s {
          busy = remove ℕ_discrete pid s.busy;
          timers = remove ℕ_discrete timer s.timers;
          killed = s.killed ++ pid ∷ [];
        },
      )
  fire_due timer pid s v e =
      fire-some timer pid s e
      ∙ kill-some pid timer (record s { timers = remove ℕ_discrete timer s.timers })
          (v.timed timer pid e)

  fire-IsTracked : (timer : ℕ) (s : Supervisor) → IsTracked s → IsTracked (fire killfunc timer s).1
  unfolding fire
  fire-IsTracked timer s v = elim (Option-cases (lookup ℕ_discrete timer s.timers)) [
    | inl e ↦ rw (e, fire) v
    | inr (pid, e) ↦ rw (fire_due timer pid s v e) (retire timer pid s (v.timed timer pid e) v)
  ]

  Step-IsTracked : {s t : Supervisor} → Step s t → IsTracked s → IsTracked t
  Step-IsTracked (starts s) v = unfold start in record { timed = v.timed; fresh = v.fresh }
  Step-IsTracked (busy pid s idle) v = on_busy-IsTracked pid s idle v
  Step-IsTracked (done pid s) v = on_done-IsTracked pid s v
  Step-IsTracked (fires timer s) v = fire-IsTracked timer s v

  Reach-IsTracked : {s : Supervisor} → Reach s → IsTracked s
  Reach-IsTracked here = init-IsTracked
  Reach-IsTracked (next r step) = Step-IsTracked step (Reach-IsTracked r)

  -- With workers that notify in turn and no dismissals, a timer that comes due calls the kill
  -- function once, for exactly the worker that it was set for, which is still registered as busy
  -- under that timer, and raises nothing but what the kill function raises.
  pub fire-Reach :
      {s : Supervisor} (timer pid : ℕ)
      → Reach s
      → lookup ℕ_discrete timer s.timers ≡ some pid
      → (lookup ℕ_discrete pid s.busy ≡ some timer)
        × ((fire killfunc timer s).0 ≡ killfunc pid)
        × ((fire killfunc timer s).1.killed ≡ s.killed ++ pid ∷ [])
  fire-Reach {s} timer pid r e =
      let v = Reach-IsTracked r in
      (
        v.timed timer pid e,
        ap (λ x. x.0) (fire_due timer pid s v e),
        ap (λ x. x.1.killed) (fire_due timer pid s v e),
      )

  -- With workers that notify in turn and no dismissals, a worker that has said that it is done is
  -- safe: no timer is left for it.
  pub on_done_safe :
      {s : Supervisor} (timer pid : ℕ)
      → Reach s
      → lookup ℕ_discrete timer (on_done pid s).timers ≢ some pid
  unfolding on_done
  on_done_safe {s} timer pid r = elim (Option-cases (lookup ℕ_discrete pid s.busy)) [
    | inl e ↦ rw (e, on_done) (λ h. cc (e, (Reach-IsTracked r).timed timer pid h))
    | inr (t, e) ↦
        rw (e, on_done)
          (λ h.
            ground (
              arith,
              lookup-remove ℕ_discrete t timer s.timers,
              (Reach-IsTracked r).timed timer pid,
            ))
  ]

  kill_worker_busy-some :
      (pid timer : ℕ) (s : Supervisor)
      → lookup ℕ_discrete pid s.busy ≡ some timer
      → (kill_worker_busy killfunc pid s).1
        ≡ record s { busy = remove ℕ_discrete pid s.busy; killed = s.killed ++ pid ∷ [] }
  unfolding kill_worker_busy
  kill_worker_busy-some pid timer s e = rw (e, kill_worker_busy) refl

  -- A dismissal leaves the timer of the worker pending: if it comes due while no worker with that
  -- process id is registered as busy, the callback raises `KeyError`.
  pub fire-kill_worker_busy :
      {s : Supervisor} (timer pid : ℕ)
      → Reach s
      → lookup ℕ_discrete timer s.timers ≡ some pid
      → (fire killfunc timer (kill_worker_busy killfunc pid s).1).0 ≡ raise key_error
  fire-kill_worker_busy {s} timer pid r e =
      rw (kill_worker_busy-some pid timer s ((Reach-IsTracked r).timed timer pid e)) (
        ap (λ x. x.0)
          (fire-some timer pid _ e
            ∙ kill-none pid _
                (lookup-remove ℕ_discrete pid pid s.busy ∙ if_pos (ℕ_discrete pid pid) refl _ _)))

  -- With workers that notify in turn and no dismissal before, the dismissal of a busy worker leaves
  -- its timer: if a new worker with the same process id is busy when the timer comes due, that one
  -- is killed, while its own timer is still pending.
  pub fire-on_busy-kill_worker_busy :
      {s : Supervisor} (timer pid : ℕ)
      → Reach s
      → lookup ℕ_discrete timer s.timers ≡ some pid
      → ((fire killfunc timer (on_busy pid (kill_worker_busy killfunc pid s).1)).1.killed
          ≡ (s.killed ++ pid ∷ []) ++ pid ∷ [])
        × (lookup ℕ_discrete s.next
              (fire killfunc timer (on_busy pid (kill_worker_busy killfunc pid s).1)).1.timers
            ≡ some pid)
  unfolding on_busy
  fire-on_busy-kill_worker_busy {s} timer pid r e =
      let v = Reach-IsTracked r in
      let timers' = insert ℕ_discrete s.next pid s.timers in
      let busy' = insert ℕ_discrete pid s.next (remove ℕ_discrete pid s.busy) in
      let due : lookup ℕ_discrete timer timers' ≡ some pid =
        ground (arith, lookup-insert ℕ_discrete s.next timer pid s.timers) in
      let listed : lookup ℕ_discrete pid busy' ≡ some s.next =
        ground (arith, lookup-insert ℕ_discrete pid pid s.next (remove ℕ_discrete pid s.busy)) in
      let own : lookup ℕ_discrete s.next (remove ℕ_discrete timer timers') ≡ some pid = ground (
        arith,
        v.fresh timer pid e,
        lookup-remove ℕ_discrete timer s.next timers',
        lookup-insert ℕ_discrete s.next s.next pid s.timers,
      ) in
      let s' : Supervisor = record s {
        busy = busy';
        timers = timers';
        next = s.next + 1;
        killed = s.killed ++ pid ∷ [];
      } in
      let fired : Supervisor = record s' { timers = remove ℕ_discrete timer timers' } in
      rw (kill_worker_busy-some pid timer s (v.timed timer pid e))
        (rw (fire-some timer pid s' due, kill-some pid s.next fired listed) (refl, own))

-- The notifier of a worker sends in turn, starting with `BUSY`, whatever it is asked to report.
pub data Report : Type 0 where
  done_now busy_now : Report

unfoldable pub notify : List Report → Notifier → Notifier
notify [] c = c
notify (done_now ∷ rest) c = notify rest (notify_done c)
notify (busy_now ∷ rest) c = notify rest (notify_busy c)

-- The notifications alternate, the next one being `BUSY` exactly if `idle`.
pub data Alternates : List Notification → Bool → Type 0 where
  empty : Alternates [] true
  then_busy : {l : List Notification} → Alternates l true → Alternates (l ++ busy_sent ∷ []) false
  then_done : {l : List Notification} → Alternates l false → Alternates (l ++ done_sent ∷ []) true

notify_done-Alternates :
    (b : Bool) (l : List Notification)
    → Alternates l (not b)
    → let c = notify_done (record { busy = b; sent = l }) in Alternates c.sent (not c.busy)
unfolding notify_done
notify_done-Alternates true l a = then_done a
notify_done-Alternates false l a = a

notify_busy-Alternates :
    (b : Bool) (l : List Notification)
    → Alternates l (not b)
    → let c = notify_busy (record { busy = b; sent = l }) in Alternates c.sent (not c.busy)
unfolding notify_busy
notify_busy-Alternates true l a = a
notify_busy-Alternates false l a = then_busy a

notify_from :
    (reports : List Report) (c : Notifier)
    → Alternates c.sent (not c.busy)
    → Alternates (notify reports c).sent (not (notify reports c).busy)
unfolding notify
notify_from [] c a = a
notify_from (done_now ∷ rest) c a =
    notify_from rest (notify_done c) (notify_done-Alternates c.busy c.sent a)
notify_from (busy_now ∷ rest) c a =
    notify_from rest (notify_busy c) (notify_busy-Alternates c.busy c.sent a)

-- Whatever a worker reports, in any order, the notifications that it sends alternate and begin
-- with `BUSY`: the supervisor is told of a new task only after the end of the last one.
pub notify-Alternates :
    (reports : List Report)
    → let c = notify reports (record { busy = false; sent = [] }) in Alternates c.sent (not c.busy)
notify-Alternates reports = notify_from reports (record { busy = false; sent = [] }) empty
