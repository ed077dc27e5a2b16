-- ===== src/Pool/Workers/Size.antt =====
-- The number of workers of the pool.
use py_qgis_wps.Prelude.{
  ℕ, zero, suc, ◌+◌, ◌-◌, ◌≤◌, ◌≡◌, refl, sym, subst, ap, ◌∙◌, Bool, false, List, [], ◌∷◌, arith,
  length, length-append, any, any-append, not, Bool-cases, inl, inr, keep,
}
use py_qgis_wps.Pool.Workers.{
  Process, Pool, has_exited, reap, join_all, join_exited_workers, spawn, repopulate_pool,
  maintain_pool, init,
}

length-spawn : (n pid : ℕ) → length (spawn n pid) ≡ n
unfolding spawn
length-spawn zero pid = refl
length-spawn (suc n) pid = ap suc (length-spawn n (pid + 1))

reap-fields : (now : ℕ) (w : Process) (p : Pool) → (reap now w p).num_workers ≡ p.num_workers
unfolding reap
reap-fields now w p = ground arith

-- The workers that the loop keeps are those that have not exited, in order.
join_all-keep :
    (now : ℕ) (ws : List Process) (p : Pool)
    → ((join_all now ws p).0 ≡ keep (λ w. not (has_exited w)) ws)
      × ((join_all now ws p).1 ≡ any has_exited ws)
      × ((join_all now ws p).2.num_workers ≡ p.num_workers)
unfolding join_all
join_all-keep now [] p = (refl, refl, refl)
join_all-keep now (w ∷ ws) p =
    let (kept, cleaned, workers) = join_all-keep now ws p in
    elim (Bool-cases (has_exited w)) [
      | inl gone ↦
          let same : (reap now w (join_all now ws p).2).num_workers ≡ p.num_workers =
            reap-fields now w (join_all now ws p).2 ∙ workers in
          rw (gone, kept) (refl, refl, same)
      | inr stays ↦ rw (stays, kept, cleaned) (refl, refl, workers)
    ]

length-keep-le : (f : Process → Bool) (ws : List Process) → length (keep f ws) ≤ length ws
length-keep-le f [] = omega arith
length-keep-le f (w ∷ ws) = ground (arith, length-keep-le f ws)

-- No worker that has exited.
abbrev pub AllRunning : List Process → Type 0
AllRunning ws = any has_exited ws ≡ false

keep-AllRunning : (ws : List Process) → AllRunning (keep (λ w. not (has_exited w)) ws)
keep-AllRunning [] = refl
keep-AllRunning (w ∷ ws) = ground (arith, keep-AllRunning ws)

keep_all : (ws : List Process) → AllRunning ws → keep (λ w. not (has_exited w)) ws ≡ ws
keep_all [] a = refl
keep_all (w ∷ ws) a = ground (arith, keep_all ws)

spawn-AllRunning : (n pid : ℕ) → AllRunning (spawn n pid)
unfolding spawn
spawn-AllRunning zero pid = refl
spawn-AllRunning (suc n) pid = spawn-AllRunning n (pid + 1)

repopulate_pool-length :
    (p : Pool)
    → length p.pool ≤ p.num_workers
    → (length (repopulate_pool p).pool ≡ p.num_workers)
      × (AllRunning p.pool → AllRunning (repopulate_pool p).pool)
unfolding repopulate_pool
repopulate_pool-length p h = (
  omega (
    arith,
    length-append p.pool (spawn (p.num_workers - length p.pool) p.next_pid),
    length-spawn (p.num_workers - length p.pool) p.next_pid,
  ),
  λ a.
      any-append has_exited p.pool (spawn (p.num_workers - length p.pool) p.next_pid)
      ∙ ground (arith, a, spawn-AllRunning (p.num_workers - length p.pool) p.next_pid),
)

-- A pool that has its number of workers has it again after maintenance, with no worker among them
-- that had exited, whatever became of the workers meanwhile.
pub maintain_pool-length :
    (now : ℕ) (p : Pool)
    → length p.pool ≡ p.num_workers
    → (length (maintain_pool now p).pool ≡ p.num_workers) × AllRunning (maintain_pool now p).pool
unfolding maintain_pool join_exited_workers
maintain_pool-length now p full =
    let (kept, cleaned, workers) = join_all-keep now p.pool p in
    let joined : Pool = record (join_all now p.pool p).2 { pool = (join_all now p.pool p).0 } in
    elim (Bool-cases (any has_exited p.pool)) [
      | inl gone ↦
          let fits : length joined.pool ≤ joined.num_workers = omega (
            arith,
            ap length kept,
            workers,
            length-keep-le (λ w. not (has_exited w)) p.pool,
            full,
          ) in
          let running : AllRunning joined.pool =
            subst AllRunning (sym kept) (keep-AllRunning p.pool) in
          let (n, a) = repopulate_pool-length joined fits in
          rw (cleaned ∙ gone) (n ∙ workers, a running)
      | inr stay ↦
          let same : joined.pool ≡ p.pool = kept ∙ keep_all p.pool stay in
          rw (cleaned ∙ stay) (ap length same ∙ full, subst AllRunning (sym same) stay)
    ]

-- A new pool has its number of workers.
pub init-length :
    (numworkers now first_pid : ℕ) → length (init numworkers now first_pid).pool ≡ numworkers
unfolding init
init-length numworkers now first_pid =
    (repopulate_pool-length
      (record {
        critical_failure = false;
        num_workers = numworkers;
        pool = [];
        start_time = now;
        next_pid = first_pid;
        aborts = 0;
      })
      (omega arith)).0
