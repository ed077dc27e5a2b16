-- ===== src/Factory.antt =====
-- pyqgiswps/executors/processfactory.py: `_FactoryDelegate`, the sub-process that creates processes, and
-- its queue, over which requests and answers go both ways.
pub mod Answers
mod Tests
use py_qgis_wps.Prelude.{List, [], ◌∷◌, ◌++◌}
use py_qgis_wps.Exceptions.{process_exception, Result, ok, raise}

-- What is put into the queue: the identifiers and the URI of a map, a list of processes, or `None`.
pub data Message (Request Process : Type 0) : Type 0 where
  request : Request → Message Request Process
  answer : List Process → Message Request Process
  stop : Message Request Process

-- The sub-process: it starts, is about to read, holds the lock of the readers while it waits for a
-- message, has read one, or has ended. `crashed` is an exit code that is not zero.
pub data Child (Request Process : Type 0) : Type 0 where
  starting reading waiting ended crashed : Child Request Process
  working : Message Request Process → Child Request Process

-- The caller: it has something to put, is about to read, holds the lock while it waits, or has read.
pub data Caller (Request Process : Type 0) : Type 0 where
  sending : Message Request Process → Caller Request Process
  calling holding : Caller Request Process
  returned : Message Request Process → Caller Request Process

pub record Delegate (Request Process : Type 0) : Type 0 where
  pub queue : List (Message Request Process)
  pub child : Child Request Process
  pub caller : Caller Request Process

abbrev pub delegate :
    {Request Process : Type 0}
    → List (Message Request Process)
    → Child Request Process
    → Caller Request Process
    → Delegate Request Process
delegate queue child caller = record { queue = queue; child = child; caller = caller }

-- How the work of the sub-process ends: at its start, the creation of the processes of the providers,
-- and, on a request, only whether the sub-process crashes, with an exit code that is not zero.
pub data Start : Type 0 where
  succeeds fails crashes : Start

-- Who moves next. A side that has to wait does not move.
pub data Move : Type 0 where
  caller_moves : Move
  child_moves : Start → Move

module _ {Request Process : Type 0} where
  -- `self._queue.put(...)` and then `self._queue.get()`, of `create_contextualized_processes` and of
  -- `stop` with `create_qgis_processes`: one reader holds the lock at a time.
  unfoldable pub caller_step :
      List (Message Request Process)
      → Child Request Process
      → Caller Request Process
      → Delegate Request Process
  caller_step q child (sending m) = delegate (q ++ m ∷ []) child calling
  caller_step q waiting calling = delegate q waiting calling
  caller_step q child calling = delegate q child holding
  caller_step [] child holding = delegate [] child holding
  caller_step (m ∷ q) child holding = delegate q child (returned m)
  caller_step q child (returned m) = delegate q child (returned m)

  -- `create_qgis_processes` on what was read
  unfoldable pub create_qgis_processes : Message Request Process → Result (Message Request Process)
  create_qgis_processes stop = raise process_exception
  create_qgis_processes m = ok m

-- `create` is `_create_contextualized_processes`, with the empty list for an exception, and
-- `published` are the processes of the providers.
module _ {Request Process : Type 0} (create : Request → List Process)
    (published : List Process) where
  -- The first half of `task`; `run` starts another sub-process, unless
  -- the exit code is not zero: then it puts `None`.
  unfoldable pub start_step :
      Start → List (Message Request Process) → Caller Request Process → Delegate Request Process
  start_step succeeds q caller = delegate (q ++ answer published ∷ []) reading caller
  start_step fails q caller = delegate (q ++ stop ∷ []) ended caller
  start_step crashes q caller = delegate (q ++ stop ∷ []) crashed caller

  -- The loop of `task`: a list of processes is not a pair of identifiers and a URI.
  unfoldable pub child_step :
      Start
      → List (Message Request Process)
      → Child Request Process
      → Caller Request Process
      → Delegate Request Process
  unfolding start_step
  child_step o q starting caller = start_step o q caller
  child_step o q ended caller = delegate q starting caller
  child_step o q crashed caller = delegate q crashed caller
  child_step o q reading holding = delegate q reading holding
  child_step o q reading caller = delegate q waiting caller
  child_step o [] waiting caller = delegate [] waiting caller
  child_step o (m ∷ q) waiting caller = delegate q (working m) caller
  child_step crashes q (working m) caller = delegate (q ++ stop ∷ []) crashed caller
  child_step o q (working (request r)) caller =
      delegate (q ++ answer (create r) ∷ []) reading caller
  child_step o q (working (answer l)) caller = delegate (q ++ answer [] ∷ []) reading caller
  child_step o q (working stop) caller = delegate q ended caller

  unfoldable pub move : Move → Delegate Request Process → Delegate Request Process
  unfolding caller_step child_step
  move caller_moves s = caller_step s.queue s.child s.caller
  move (child_moves o) s = child_step o s.queue s.child s.caller

  unfoldable pub run_moves : List Move → Delegate Request Process → Delegate Request Process
  unfolding move
  run_moves [] s = s
  run_moves (m ∷ ms) s = run_moves ms (move m s)
