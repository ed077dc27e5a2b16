-- ===== src/Pool/Client/Queue.antt =====
-- The two lists of workers of the client, under any sequence of its steps.
use py_qgis_wps.Prelude.{
  ℕ, ◌≤◌, ◌≡◌, ◌≢◌, refl, subst, Bool, true, false, Option, none, some, List, [], ◌∷◌, arith,
  ℕ_discrete, elem, remove_first, count, count-append, elem-append, elem-count, count-remove_first,
  Bool-cases, Option-cases, lookup, inl, inr,
}
use py_qgis_wps.Pool.Client.{
  Client, init, put_worker, remove_worker, take_worker, get_worker, poll, Message, worker_ready,
  worker_done, answer, send, leave,
}

count-remove_first-le :
    (w x : ℕ) (l : List ℕ) → count ℕ_discrete x (remove_first ℕ_discrete w l) ≤ count ℕ_discrete x l
count-remove_first-le w x l = omega (arith, count-remove_first ℕ_discrete w x l)

-- A worker is listed at most once, and a listed worker is queued.
pub record IsValid (c : Client) : Type 0 where
  pub once : (w : ℕ) → count ℕ_discrete w c.worker_s ≤ 1
  pub queued : (w : ℕ) → count ℕ_discrete w c.worker_s ≤ count ℕ_discrete w c.worker_q

put_worker-IsValid : (w : ℕ) (c : Client) → IsValid c → IsValid (put_worker w c)
unfolding put_worker
put_worker-IsValid w c v = elim (Bool-cases (elem ℕ_discrete w c.worker_s)) [
  | inl listed ↦ rw (listed, put_worker) v
  | inr new ↦
      rw (new, put_worker)
        (record {
          once = λ x.
              unfold count in
              ground (
                arith,
                count-append ℕ_discrete x c.worker_s (w ∷ []),
                elem-count ℕ_discrete w c.worker_s,
                v.once x,
              );
          queued = λ x. omega (
            arith,
            count-append ℕ_discrete x c.worker_s (w ∷ []),
            count-append ℕ_discrete x c.worker_q (w ∷ []),
            v.queued x,
          );
        })
]

remove_worker-IsValid : (w : ℕ) (c : Client) → IsValid c → IsValid (remove_worker w c)
unfolding remove_worker
remove_worker-IsValid w c v = elim (Bool-cases (elem ℕ_discrete w c.worker_s)) [
  | inr gone ↦ rw (gone, remove_worker) v
  | inl listed ↦
      rw (listed, remove_worker)
        (record {
          once = λ x. omega (arith, count-remove_first-le w x c.worker_s, v.once x);
          queued = λ x. omega (arith, count-remove_first-le w x c.worker_s, v.queued x);
        })
]

-- What is known while the queue is being read.
record IsReading (q : List ℕ) (c : Client) : Type 0 where
  once : (w : ℕ) → count ℕ_discrete w c.worker_s ≤ 1
  queued : (w : ℕ) → count ℕ_discrete w c.worker_s ≤ count ℕ_discrete w q

some_eq : (a b : ℕ) → some a ≡ some b → a ≡ b
some_eq a b h = ground arith

-- How a search for a worker ends: a listed worker is taken off the list, or none is listed.
pub data Taken (c : Client) : Option ℕ × Client → Type 0 where
  taken :
      (w : ℕ) (c' : Client)
      → elem ℕ_discrete w c.worker_s ≡ true
      → c'.worker_s ≡ remove_first ℕ_discrete w c.worker_s
      → elem ℕ_discrete w c'.worker_s ≡ false
      → IsValid c'
      → Taken c (some w, c')
  nobody : (c' : Client) → c.worker_s ≡ [] → c'.worker_s ≡ [] → IsValid c' → Taken c (none, c')

empty_of_counts : (l : List ℕ) → ((w : ℕ) → count ℕ_discrete w l ≤ 0) → l ≡ []
unfolding count
empty_of_counts [] h = refl
empty_of_counts (x ∷ l) h = absurd (ground (arith, h x))

elem-remove_first :
    (w : ℕ) (l : List ℕ)
    → count ℕ_discrete w l ≤ 1
    → elem ℕ_discrete w (remove_first ℕ_discrete w l) ≡ false
elem-remove_first w l h = ground (
  arith,
  elem-count ℕ_discrete w (remove_first ℕ_discrete w l),
  elem-count ℕ_discrete w l,
  count-remove_first ℕ_discrete w w l,
)

take_worker-Taken : (q : List ℕ) (c : Client) → IsReading q c → Taken c (take_worker q c)
unfolding take_worker
take_worker-Taken [] c r =
    nobody (record c { worker_q = [] }) (empty_of_counts c.worker_s (unfold count in r.queued))
      (empty_of_counts c.worker_s (unfold count in r.queued))
      (record { once = r.once; queued = r.queued })
take_worker-Taken (w ∷ q) c r = elim (Bool-cases (elem ℕ_discrete w c.worker_s)) [
  | inl listed ↦
      rw (listed, take_worker)
        (taken w (record c { worker_q = q; worker_s = remove_first ℕ_discrete w c.worker_s }) listed
          refl (elem-remove_first w c.worker_s (r.once w))
          (record {
            once = λ x. omega (arith, count-remove_first-le w x c.worker_s, r.once x);
            queued = λ x.
                unfold count in
                ground (
                  arith,
                  count-remove_first ℕ_discrete w x c.worker_s,
                  elem-count ℕ_discrete w c.worker_s,
                  r.queued x,
                );
          }))
  | inr stale ↦
      rw (stale, take_worker)
        (take_worker-Taken q c (record {
          once = r.once;
          queued =
              λ x. unfold count in ground (arith, elem-count ℕ_discrete w c.worker_s, r.queued x);
        }))
]

-- On a client whose list and queue of workers are valid, a search hands out a worker that is
-- listed as available and takes it off the list, and it finds one whenever one is listed.
pub get_worker-Taken : (c : Client) → IsValid c → Taken c (get_worker c)
unfolding get_worker
get_worker-Taken c v = take_worker-Taken c.worker_q c (record { once = v.once; queued = v.queued })

-- The steps of the client, in any order.
pub data Event : Type 0 where
  message : Message → Event
  request : Event
  sending : ℕ → Bool → Event
  leaving : ℕ → Event

unfoldable pub step : Event → Client → Client
step (message m) c = (poll m c).1
step request c = (get_worker c).1
step (sending id sent) c = (send id sent c).1
step (leaving id) c = leave id c

unfoldable pub run : List Event → Client → Client
run [] c = c
run (e ∷ es) c = run es (step e c)

Taken-IsValid : {c : Client} {x : Option ℕ × Client} → Taken c x → IsValid x.1
Taken-IsValid (taken w c' listed off gone v) = v
Taken-IsValid (nobody c' e e' v) = v

poll-IsValid : (m : Message) (c : Client) → IsValid c → IsValid (poll m c).1
unfolding poll
poll-IsValid (worker_ready w) c v = put_worker-IsValid w c v
poll-IsValid (worker_done w) c v = remove_worker-IsValid w c v
poll-IsValid (answer msgid reply) c v = elim (Option-cases (lookup ℕ_discrete msgid c.handlers)) [
  | inl e ↦ rw (e, poll) v
  | inr (h, e) ↦ rw (e, poll) (record { once = v.once; queued = v.queued })
]

step-IsValid : (e : Event) (c : Client) → IsValid c → IsValid (step e c)
unfolding step send leave
step-IsValid (message m) c v = poll-IsValid m c v
step-IsValid request c v = Taken-IsValid (get_worker-Taken c v)
step-IsValid (sending id true) c v = record { once = v.once; queued = v.queued }
step-IsValid (sending id false) c v = v
step-IsValid (leaving id) c v = record { once = v.once; queued = v.queued }

run_from-IsValid : (es : List Event) (c : Client) → IsValid c → IsValid (run es c)
unfolding run
run_from-IsValid [] c v = v
run_from-IsValid (e ∷ es) c v = run_from-IsValid es (step e c) (step-IsValid e c v)

-- Whatever messages arrive and requests are made, in any order, a worker is listed as available at
-- most once, and each listed worker stands in the queue, so that a waiting request will see it.
pub run-IsValid : (es : List Event) (maxqueue : ℕ) → IsValid (run es (init maxqueue))
unfolding init count
run-IsValid es maxqueue =
    run_from-IsValid es (init maxqueue)
      (record { once = λ w. omega arith; queued = λ w. omega arith })

-- The worker sends no `ready` message among the events.
abbrev NotReady : ℕ → Event → Type 0
NotReady w (message (worker_ready x)) = x ≢ w
NotReady w _ = Unit

abbrev pub Quiet : ℕ → List Event → Type 0
Quiet w [] = Unit
Quiet w (e ∷ es) = NotReady w e × Quiet w es

-- The worker is not listed as available.
abbrev Absent : ℕ → Client → Type 0
Absent w c = elem ℕ_discrete w c.worker_s ≡ false

remove_first-Absent :
    (w x : ℕ) (l : List ℕ)
    → elem ℕ_discrete w l ≡ false
    → elem ℕ_discrete w (remove_first ℕ_discrete x l) ≡ false
remove_first-Absent w x l h = ground (
  arith,
  elem-count ℕ_discrete w l,
  elem-count ℕ_discrete w (remove_first ℕ_discrete x l),
  count-remove_first-le x w l,
)

Taken-Absent : (w : ℕ) {c : Client} {x : Option ℕ × Client} → Taken c x → Absent w c → Absent w x.1
Taken-Absent w {c} (taken x c' listed off gone v) a = rw off (remove_first-Absent w x c.worker_s a)
Taken-Absent w (nobody c' e e' v) a = rw e' refl

poll-Absent :
    (w : ℕ) (m : Message) (c : Client) → NotReady w (message m) → Absent w c → Absent w (poll m c).1
unfolding poll
poll-Absent w (worker_ready x) c n a = elim (Bool-cases (elem ℕ_discrete x c.worker_s)) [
  | inl listed ↦ rw (listed, poll) a
  | inr new ↦ rw (new, poll) (ground (arith, elem-append ℕ_discrete w c.worker_s (x ∷ [])))
]
poll-Absent w (worker_done x) c n a = elim (Bool-cases (elem ℕ_discrete x c.worker_s)) [
  | inl listed ↦ rw (listed, poll) (remove_first-Absent w x c.worker_s a)
  | inr new ↦ rw (new, poll) a
]
poll-Absent w (answer msgid reply) c n a =
    elim (Option-cases (lookup ℕ_discrete msgid c.handlers)) [
      | inl e ↦ rw (e, poll) a
      | inr (h, e) ↦ rw (e, poll) a
    ]

step-Absent :
    (w : ℕ) (e : Event) (c : Client) → NotReady w e → IsValid c → Absent w c → Absent w (step e c)
unfolding step send leave
step-Absent w (message m) c n v a = poll-Absent w m c n a
step-Absent w request c n v a = Taken-Absent w (get_worker-Taken c v) a
step-Absent w (sending id true) c n v a = a
step-Absent w (sending id false) c n v a = a
step-Absent w (leaving id) c n v a = a

run-Absent :
    (w : ℕ) (es : List Event) (c : Client)
    → Quiet w es
    → IsValid c
    → Absent w c
    → Absent w (run es c)
unfolding run
run-Absent w [] c q v a = a
run-Absent w (e ∷ es) c q v a =
    run-Absent w es (step e c) q.1 (step-IsValid e c v) (step-Absent w e c q.0 v a)

Taken-ne : (w : ℕ) {c : Client} {x : Option ℕ × Client} → Taken c x → Absent w c → x.0 ≢ some w
Taken-ne w {c} (taken x c' listed off gone v) a =
    λ e. cc (subst (λ y. elem ℕ_discrete y c.worker_s ≡ true) (some_eq x w e) listed, a)
Taken-ne w (nobody c' e e' v) a = λ h. cc

-- On a client whose list and queue of workers are valid, a worker that was handed to a request is
-- not handed to another one before it sends a `ready` message, whatever happens meanwhile.
pub get_worker_once :
    (w : ℕ) (c : Client) (es : List Event)
    → IsValid c
    → (get_worker c).0 ≡ some w
    → Quiet w es
    → (get_worker (run es (get_worker c).1)).0 ≢ some w
get_worker_once w c es v got quiet =
    let t = get_worker-Taken c v in
    let after = run_from-IsValid es (get_worker c).1 (Taken-IsValid t) in
    Taken-ne w (get_worker-Taken (run es (get_worker c).1) after)
      (run-Absent w es (get_worker c).1 quiet (Taken-IsValid t) (handed t got))
  where
    handed : {x : Option ℕ × Client} → Taken c x → x.0 ≡ some w → Absent w x.1
    handed (taken x c' listed off gone v') e = subst (λ y. Absent y c') (some_eq x w e) gone
    handed (nobody c' e' e'' v') e = cc
