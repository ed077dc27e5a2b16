-- ===== src/Pool/Workers.antt =====
-- poolserver/pool.py: `Pool`, the processes of the workers and their replacement.
pub mod Size
use py_qgis_wps.Prelude.{
  ℕ, ◌+◌, ◌-◌, Bool, true, false, ◌||◌, Option, none, some, List, [], ◌∷◌, ◌++◌, ltb, leb, ◌==◌,
  length, if◌then◌else◌,
}

-- A process: its exit code once it has exited. A signal gives a negative code, which is a failure
-- like every code but 0.
pub data Exit : Type 0 where
  running : Exit
  clean : Exit
  failed : Exit

pub record Process : Type 0 where
  pub pid : ℕ
  pub exit : Exit

pub record Pool : Type 0 where
  pub critical_failure : Bool
  pub num_workers : ℕ
  pub pool : List Process
  pub start_time : ℕ
  -- the process id that the system gives next, and the abort signals sent to this process
  pub next_pid : ℕ
  pub aborts : ℕ

abbrev pub early_failure_delay : ℕ
early_failure_delay = 5

-- Whether the worker has exited, and whether it failed before the pool is old enough.
abbrev pub has_exited : Process → Bool
has_exited p = elim p.exit [ running ↦ false | clean ↦ true | failed ↦ true ]

abbrev pub has_failed : Process → Bool
has_failed p = elim p.exit [ failed ↦ true | _ ↦ false ]

-- `time.time() - self._start_time < EARLY_FAILURE_DELAY`
abbrev pub is_early : ℕ → Pool → Bool
is_early now p = ltb now (p.start_time + early_failure_delay)

-- One turn of the loop of `_join_exited_workers`, apart from the deletion.
unfoldable pub reap : ℕ → Process → Pool → Pool
reap now w p =
    if has_failed w
    then if is_early now p then record p { critical_failure = true; aborts = p.aborts + 1 } else p
    else p

-- The loop, from the last worker to the first: the workers that stay, whether one was cleaned up,
-- and the pool with its failure noted.
unfoldable pub join_all : ℕ → List Process → Pool → List Process × Bool × Pool
unfolding reap
join_all now [] p = ([], false, p)
join_all now (w ∷ ws) p =
    let (kept, cleaned, p') = join_all now ws p in
    if has_exited w then (kept, true, reap now w p') else (w ∷ kept, cleaned, p')

unfoldable pub join_exited_workers : ℕ → Pool → Bool × Pool
unfolding join_all
join_exited_workers now p =
    let (kept, cleaned, p') = join_all now p.pool p in (cleaned, record p' { pool = kept })

-- `for _ in range(n)`: n new processes
unfoldable pub spawn : ℕ → ℕ → List Process
spawn ℕ.zero pid = []
spawn (ℕ.suc n) pid = record { pid = pid; exit = running } ∷ spawn n (pid + 1)

-- A negative number of workers to start is none.
unfoldable pub repopulate_pool : Pool → Pool
unfolding spawn
repopulate_pool p =
    let missing = p.num_workers - length p.pool in
    record p { pool = p.pool ++ spawn missing p.next_pid; next_pid = p.next_pid + missing }

unfoldable pub maintain_pool : ℕ → Pool → Pool
unfolding join_exited_workers repopulate_pool
maintain_pool now p =
    let (cleaned, p') = join_exited_workers now p in if cleaned then repopulate_pool p' else p'

-- `__init__`
unfoldable pub init : ℕ → ℕ → ℕ → Pool
unfolding repopulate_pool
init numworkers now first_pid = repopulate_pool (record {
  critical_failure = false;
  num_workers = numworkers;
  pool = [];
  start_time = now;
  next_pid = first_pid;
  aborts = 0;
})
