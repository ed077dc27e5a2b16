-- ===== src/Factory/Answers.antt =====
-- What a call of the delegate may read.
use py_qgis_wps.Prelude.{◌≡◌, refl, sym, subst, Bool, true, false, all, arith, List, [], ◌∷◌}
use py_qgis_wps.Factory.{
  Message, request, answer, stop, Child, starting, reading, waiting, ended, crashed, working,
  Caller, sending, calling, holding, returned, Delegate, delegate, Start, succeeds, fails, crashes,
  Move, start_step, child_step, caller_step, caller_moves, child_moves, move, run_moves,
}

returned-eq :
    {Request Process : Type 0} {m n : Message Request Process}
    → ◌≡◌ {A = Caller Request Process} (returned m) (returned n)
    → m ≡ n
returned-eq h = cc

module _ {Request Process : Type 0} (create : Request → List Process)
    (published : List Process) where
  -- An answer to the request, or the empty list of a refusal.
  pub data Answers (r : Request) : Message Request Process → Type 0 where
    answered : Answers r (answer (create r))
    refused : Answers r (answer [])

  -- A move in which the sub-process does not crash.
  abbrev pub no_crash : Move → Bool
  no_crash (child_moves crashes) = false
  no_crash v = true

  -- What may be under way after a request was put while the sub-process waited.
  data Phase (r : Request) : Delegate Request Process → Type 0 where
    unsent : Phase r (delegate [] waiting (sending (request r)))
    sent : Phase r (delegate (request r ∷ []) waiting calling)
    worked : Phase r (delegate [] (working (request r)) calling)
    worked_held : Phase r (delegate [] (working (request r)) holding)
    ready :
        (m : Message Request Process) → Answers r m → Phase r (delegate (m ∷ []) reading calling)
    ready_held :
        (m : Message Request Process) → Answers r m → Phase r (delegate (m ∷ []) reading holding)
    raced :
        (m : Message Request Process) → Answers r m → Phase r (delegate (m ∷ []) waiting calling)
    stolen : (l : List Process) → Phase r (delegate [] (working (answer l)) calling)
    stolen_held : (l : List Process) → Phase r (delegate [] (working (answer l)) holding)
    done : (m : Message Request Process) → Answers r m → Phase r (delegate [] reading (returned m))
    done_waiting :
        (m : Message Request Process) → Answers r m → Phase r (delegate [] waiting (returned m))

  move-Phase :
      (r : Request) (v : Move) (s : Delegate Request Process)
      → no_crash v ≡ true
      → Phase r s
      → Phase r (move create published v s)
  unfolding move
  move-Phase r caller_moves s fine unsent = sent
  move-Phase r (child_moves o) s fine unsent = unsent
  move-Phase r caller_moves s fine sent = sent
  move-Phase r (child_moves o) s fine sent = worked
  move-Phase r caller_moves s fine worked = worked_held
  move-Phase r (child_moves succeeds) s fine worked = ready _ answered
  move-Phase r (child_moves fails) s fine worked = ready _ answered
  move-Phase r (child_moves crashes) s fine worked = absurd (cc fine)
  move-Phase r caller_moves s fine worked_held = worked_held
  move-Phase r (child_moves succeeds) s fine worked_held = ready_held _ answered
  move-Phase r (child_moves fails) s fine worked_held = ready_held _ answered
  move-Phase r (child_moves crashes) s fine worked_held = absurd (cc fine)
  move-Phase r caller_moves s fine (ready m a) = ready_held m a
  move-Phase r (child_moves o) s fine (ready m a) = raced m a
  move-Phase r caller_moves s fine (ready_held m a) = done m a
  move-Phase r (child_moves o) s fine (ready_held m a) = ready_held m a
  move-Phase r caller_moves s fine (raced m a) = raced m a
  move-Phase r (child_moves o) s fine (raced m answered) = stolen (create r)
  move-Phase r (child_moves o) s fine (raced m refused) = stolen []
  move-Phase r caller_moves s fine (stolen l) = stolen_held l
  move-Phase r (child_moves succeeds) s fine (stolen l) = ready _ refused
  move-Phase r (child_moves fails) s fine (stolen l) = ready _ refused
  move-Phase r (child_moves crashes) s fine (stolen l) = absurd (cc fine)
  move-Phase r caller_moves s fine (stolen_held l) = stolen_held l
  move-Phase r (child_moves succeeds) s fine (stolen_held l) = ready_held _ refused
  move-Phase r (child_moves fails) s fine (stolen_held l) = ready_held _ refused
  move-Phase r (child_moves crashes) s fine (stolen_held l) = absurd (cc fine)
  move-Phase r caller_moves s fine (done m a) = done m a
  move-Phase r (child_moves o) s fine (done m a) = done_waiting m a
  move-Phase r caller_moves s fine (done_waiting m a) = done_waiting m a
  move-Phase r (child_moves o) s fine (done_waiting m a) = done_waiting m a

  run_moves-Phase :
      (r : Request) (vs : List Move) (s : Delegate Request Process)
      → all no_crash vs ≡ true
      → Phase r s
      → Phase r (run_moves create published vs s)
  unfolding run_moves
  run_moves-Phase r [] s fine p = p
  run_moves-Phase r (v ∷ vs) s fine p =
      run_moves-Phase r vs (move create published v s) (ground arith)
        (move-Phase r v s (ground arith) p)

  Phase-Answers :
      (r : Request) (m : Message Request Process) (s : Delegate Request Process)
      → Phase r s
      → s.caller ≡ returned m
      → Answers r m
  Phase-Answers r m s unsent h = absurd (cc (h))
  Phase-Answers r m s sent h = absurd (cc (h))
  Phase-Answers r m s worked h = absurd (cc (h))
  Phase-Answers r m s worked_held h = absurd (cc (h))
  Phase-Answers r m s (ready n a) h = absurd (cc (h))
  Phase-Answers r m s (ready_held n a) h = absurd (cc (h))
  Phase-Answers r m s (raced n a) h = absurd (cc (h))
  Phase-Answers r m s (stolen l) h = absurd (cc (h))
  Phase-Answers r m s (stolen_held l) h = absurd (cc (h))
  Phase-Answers r m s (done n a) h = subst (Answers r) (returned-eq h) a
  Phase-Answers r m s (done_waiting n a) h = subst (Answers r) (returned-eq h) a

  -- Whatever the order in which the sub-process and the caller move, as long as the sub-process
  -- does not crash, what a call reads whose request was put while the sub-process waited at the
  -- empty queue is the answer to that request or an empty list, and neither the request itself
  -- nor `None`.
  pub run_moves-Answers :
      (r : Request) (vs : List Move) (m : Message Request Process)
      → (run_moves create published vs (delegate [] waiting (sending (request r)))).caller
        ≡ returned m
      → all no_crash vs ≡ true
      → Answers r m
  run_moves-Answers r vs m h fine =
      Phase-Answers r m (run_moves create published vs (delegate [] waiting (sending (request r))))
        (run_moves-Phase r vs (delegate [] waiting (sending (request r))) fine unsent) h

  -- Whether the sub-process moves, and the caller after it.
  abbrev pub caller_follows : List Move → Bool
  caller_follows [] = false
  caller_follows (caller_moves ∷ vs) = true
  caller_follows (child_moves o ∷ vs) = caller_follows vs

  abbrev pub both_move : List Move → Bool
  both_move [] = false
  both_move (caller_moves ∷ vs) = both_move vs
  both_move (child_moves o ∷ vs) = caller_follows vs

  start_step-caller :
      (o : Start) (q : List (Message Request Process)) (caller : Caller Request Process)
      → (start_step create published o q caller).caller ≡ caller
  unfolding start_step
  start_step-caller succeeds q caller = refl
  start_step-caller fails q caller = refl
  start_step-caller crashes q caller = refl

  -- The sub-process leaves a call that has read as it is.
  child_step-returned :
      (o : Start) (q : List (Message Request Process)) (child : Child Request Process)
      (m : Message Request Process)
      → (child_step create published o q child (returned m)).caller ≡ returned m
  unfolding child_step
  child_step-returned o q starting m = start_step-caller o q (returned m)
  child_step-returned o q ended m = refl
  child_step-returned o q crashed m = refl
  child_step-returned o q reading m = refl
  child_step-returned o [] waiting m = refl
  child_step-returned o (n ∷ q) waiting m = refl
  child_step-returned succeeds q (working (request r)) m = refl
  child_step-returned succeeds q (working (answer l)) m = refl
  child_step-returned succeeds q (working stop) m = refl
  child_step-returned fails q (working (request r)) m = refl
  child_step-returned fails q (working (answer l)) m = refl
  child_step-returned fails q (working stop) m = refl
  child_step-returned crashes q (working n) m = refl

  caller_step-returned :
      (q : List (Message Request Process)) (child : Child Request Process)
      (m : Message Request Process)
      → (caller_step q child (returned m)).caller ≡ returned m
  unfolding caller_step
  caller_step-returned q child m = refl

  -- A call that has read stays as it is.
  returned-stays :
      (vs : List Move) (s : Delegate Request Process) (m : Message Request Process)
      → s.caller ≡ returned m
      → (run_moves create published vs s).caller ≡ returned m
  unfolding run_moves move
  returned-stays [] s m h = h
  returned-stays (caller_moves ∷ vs) s m h =
      returned-stays vs (caller_step s.queue s.child s.caller) m (
        subst (λ c. (caller_step s.queue s.child c).caller ≡ returned m) (sym h)
          (caller_step-returned s.queue s.child m))
  returned-stays (child_moves o ∷ vs) s m h =
      returned-stays vs (child_step create published o s.queue s.child s.caller) m (
        subst (λ c. (child_step create published o s.queue s.child c).caller ≡ returned m) (sym h)
          (child_step-returned o s.queue s.child m))

  ready-returned :
      (r : Request) (vs : List Move)
      → caller_follows vs ≡ true
      → (run_moves create published vs (delegate (answer (create r) ∷ []) reading holding)).caller
        ≡ returned (answer (create r))
  unfolding run_moves move
  ready-returned r [] h = absurd (cc (h))
  ready-returned r (caller_moves ∷ vs) h = returned-stays vs _ (answer (create r)) refl
  ready-returned r (child_moves o ∷ vs) h = ready-returned r vs h

  -- A call that waits at the queue when the sub-process has its request reads the answer, in any
  -- order of moves in which the sub-process moves, without a crash, and the caller moves after it.
  pub run_moves-returned :
      (r : Request) (vs : List Move)
      → both_move vs ≡ true
      → all no_crash vs ≡ true
      → (run_moves create published vs (delegate [] (working (request r)) holding)).caller
        ≡ returned (answer (create r))
  unfolding run_moves move
  run_moves-returned r [] h fine = absurd (cc (h))
  run_moves-returned r (caller_moves ∷ vs) h fine = run_moves-returned r vs h (ground arith)
  run_moves-returned r (child_moves succeeds ∷ vs) h fine = ready-returned r vs h
  run_moves-returned r (child_moves fails ∷ vs) h fine = ready-returned r vs h
  run_moves-returned r (child_moves crashes ∷ vs) h fine = absurd (cc fine)

  -- A message that is put while the sub-process does not wait at the queue may be read by the
  -- one that put it.
  pub run_moves-taken_back :
      (m : Message Request Process) (vs : List Move)
      → (run_moves create published
          (caller_moves ∷ caller_moves ∷ caller_moves ∷ vs)
          (delegate [] reading (sending m))).caller
        ≡ returned m
  unfolding run_moves move
  run_moves-taken_back m vs = returned-stays vs (delegate [] reading (returned m)) m refl
