-- ===== src/Factory/Tests.antt =====
-- Checks of a delegate whose requests and processes are numbers.
use py_qgis_wps.Prelude.{ℕ, ◌+◌, ◌≡◌, refl, List, [], ◌∷◌}
use py_qgis_wps.Exceptions.{process_exception, raise}
use py_qgis_wps.Factory.{
  request, answer, stop, reading, waiting, working, ended, starting, sending, calling, holding,
  returned, delegate, Move, succeeds, fails, crashes, caller_moves, child_moves, run_moves,
  create_qgis_processes,
}
use py_qgis_wps.Factory.Answers.{
  Answers, run_moves-Answers, run_moves-returned, run_moves-taken_back,
}

abbrev create : ℕ → List ℕ
create r = (r + 1) ∷ []

abbrev published : List ℕ
published = 7 ∷ 8 ∷ []

abbrev c : Move
c = child_moves succeeds

abbrev in_turn : List Move
in_turn = caller_moves ∷ c ∷ caller_moves ∷ c ∷ caller_moves ∷ []

-- The sub-process reads its own answer before the caller does.
abbrev raced : List Move
raced = caller_moves ∷ c ∷ c ∷ c ∷ c ∷ c ∷ caller_moves ∷ caller_moves ∷ []

in_turn_read :
    (run_moves create published in_turn (delegate [] waiting (sending (request 4)))).caller
    ≡ returned (answer (5 ∷ []))
unfolding run_moves
in_turn_read = refl

lost :
    (run_moves create published raced (delegate [] waiting (sending (request 4)))).caller
    ≡ returned (answer [])
unfolding run_moves
lost = refl

run_moves-Answers_example : Answers create published 4 (answer [])
run_moves-Answers_example = run_moves-Answers create published 4 raced (answer []) lost refl

run_moves-returned_example :
    (run_moves create published
      (caller_moves ∷ c ∷ c ∷ caller_moves ∷ [])
      (delegate [] (working (request 4)) holding)).caller
    ≡ returned (answer (5 ∷ []))
run_moves-returned_example =
    run_moves-returned create published 4 (caller_moves ∷ c ∷ c ∷ caller_moves ∷ []) refl refl

-- The end of the sub-process is read by the one that asked for it.
stop_taken_back :
    (run_moves create published
      (caller_moves ∷ caller_moves ∷ caller_moves ∷ c ∷ [])
      (delegate [] reading (sending stop))).caller
    ≡ returned stop
stop_taken_back = run_moves-taken_back create published stop (c ∷ [])

-- A sub-process that crashes while it works makes the caller read `None`.
crash_read :
    (run_moves create published
      (child_moves crashes ∷ caller_moves ∷ [])
      (delegate [] (working (request 4)) holding)).caller
    ≡ returned stop
unfolding run_moves
crash_read = refl

no_processes : create_qgis_processes {Request = ℕ} {Process = ℕ} stop ≡ raise process_exception
unfolding create_qgis_processes
no_processes = refl

-- Another sub-process starts after the end of the first one.
restarted :
    (run_moves create published
      (caller_moves ∷ c ∷ c ∷ caller_moves ∷ c ∷ c ∷ caller_moves ∷ [])
      (delegate [] waiting (sending stop))).caller
    ≡ returned (answer (7 ∷ 8 ∷ []))
unfolding run_moves
restarted = refl

ended_again :
    run_moves create published (child_moves fails ∷ []) (delegate [] ended calling)
    ≡ delegate [] starting calling
unfolding run_moves
ended_again = refl
