-- ===== src/Pool/Client.antt =====
-- poolserver/client.py: `_Client`, as the steps between its awaits.
pub mod Queue
use py_qgis_wps.Prelude.{
  ℕ, ◌+◌, Bool, true, false, not, Option, none, some, List, [], ◌∷◌, ◌++◌, ltb, ℕ_discrete, elem,
  remove_first, Dict, lookup, insert, remove, length, if◌then◌else◌,
}
use py_qgis_wps.Exceptions.{
  Exn, max_requests_exceeded, request_gateway_error, request_backend_error, timeout_error, Result,
  ok, raise,
}

-- What a future that waits for a worker may hold.
pub data Future : Type 0 where
  pending : Future
  result : ℕ → Future
  exception : Exn → Future

-- Workers and messages are known by numbers, for the identities that ZeroMQ and `uuid1` give.
pub record Client : Type 0 where
  -- `_handlers`, from message to future
  pub handlers : Dict ℕ Future
  pub maxqueue : ℕ
  -- `_worker_q`, the queue, and `_worker_s`, the list of the available ones
  pub worker_q : List ℕ
  pub worker_s : List ℕ

unfoldable pub init : ℕ → Client
init maxqueue = record { handlers = []; maxqueue = maxqueue; worker_q = []; worker_s = [] }

unfoldable pub put_worker : ℕ → Client → Client
put_worker w c =
    if elem ℕ_discrete w c.worker_s
    then c
    else record c { worker_s = c.worker_s ++ w ∷ []; worker_q = c.worker_q ++ w ∷ [] }

unfoldable pub remove_worker : ℕ → Client → Client
remove_worker w c =
    if elem ℕ_discrete w c.worker_s
    then record c { worker_s = remove_first ℕ_discrete w c.worker_s }
    else c

-- The loop of `_get_worker` over what is queued: an entry that is no longer listed is dropped.
-- `none` is an empty queue, where the call waits.
unfoldable pub take_worker : List ℕ → Client → Option ℕ × Client
take_worker [] c = (none, record c { worker_q = [] })
take_worker (w ∷ q) c =
    let rest = take_worker q c in
    if elem ℕ_discrete w c.worker_s
    then (some w, record c { worker_q = q; worker_s = remove_first ℕ_discrete w c.worker_s })
    else rest

unfoldable pub get_worker : Client → Option ℕ × Client
unfolding take_worker
get_worker c = take_worker c.worker_q c

-- A reply as `pickle.loads` gives it: it may not load.
pub data Reply : Type 0 where
  unreadable : Exn → Reply
  success : ℕ → Reply
  failure : Bool → Reply

-- What `_poll` sets on the future.
unfoldable pub settle : Reply → Future
settle (unreadable e) = exception e
settle (success response) = result response
settle (failure is_process) = exception (request_backend_error is_process)

-- A message to `_poll`.
pub data Message : Type 0 where
  worker_ready : ℕ → Message
  worker_done : ℕ → Message
  answer : ℕ → Reply → Message

-- One turn of `_poll`: the futures that it settles leave `_handlers`, and are returned.
unfoldable pub poll : Message → Client → Option (ℕ × Future) × Client
unfolding put_worker remove_worker settle lookup remove
poll (worker_ready w) c = (none, put_worker w c)
poll (worker_done w) c = (none, remove_worker w c)
poll (answer msgid reply) c = elim (lookup ℕ_discrete msgid c.handlers) [
  | none ↦ (none, c)
  | some handler ↦
      (some (msgid, settle reply), record c { handlers = remove ℕ_discrete msgid c.handlers })
]

-- The start of `_apply_async`, before it waits for a worker.
unfoldable pub enter : Client → Result (Unit {0})
enter c = if ltb c.maxqueue (length c.handlers) then raise max_requests_exceeded else ok tt

-- The request is sent to the worker: a failure raises, otherwise the future is registered.
unfoldable pub send : ℕ → Bool → Client → Result (Unit {0}) × Client
unfolding insert
send correlation_id sent c =
    if sent
    then (ok tt, record c { handlers = insert ℕ_discrete correlation_id pending c.handlers })
    else (raise request_gateway_error, c)

-- The `finally` of `_apply_async`.
unfoldable pub leave : ℕ → Client → Client
unfolding remove
leave correlation_id c = record c { handlers = remove ℕ_discrete correlation_id c.handlers }
