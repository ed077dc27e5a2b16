-- ===== src/Executor/Processes/Cached.antt =====
-- `get_processes` never fails on its own cache.
use py_qgis_wps.Prelude.{
  ◌≡◌, refl, ◌∙◌, ap, sym, subst, String, true, Option, none, some, List, [], ◌∷◌, arith,
  if◌then◌else◌, Bool-cases, inl, inr,
}
use py_qgis_wps.Exceptions.{Result, ok}
use py_qgis_wps.Exec.{pure}
use py_qgis_wps.Lru.{Lru, contains, peek, get_item, set_item}
use py_qgis_wps.Lru.Bounds.{IsValid, get_item-IsValid, set_item-IsValid, set_item-kept}
use py_qgis_wps.Lru.Reads.{get_item-peek, peek-get_item, or_key_error}
use py_qgis_wps.Executor.Processes.{
  Process, Key, key_dec, key_of, State, Factory, find_all, store_all, read_all, all_cached,
  contextualize, for_map, get_processes,
}

-- The cache ends valid, and the call returned a value.
pub record Succeeds {A : Type 0} (x : Result A × Lru Key Process) : Type 0 where
  pub value : A
  pub returns : x.0 ≡ ok value
  pub valid : IsValid key_dec x.1

store_all-Succeeds :
    (uri : String) (ps : List Process) (c : Lru Key Process)
    → IsValid key_dec c
    → Succeeds (store_all uri ps c)
unfolding store_all
store_all-Succeeds uri [] c v = record { value = tt; returns = refl; valid = v }
store_all-Succeeds uri (p ∷ ps) c v =
    let k = key_of uri p in
    let kept = set_item-IsValid key_dec k p c v in
    let stored : (set_item key_dec k p c).0 ≡ ok tt =
      ap (λ x. x.0) (set_item-kept key_dec k p c v) in
    let rest = store_all-Succeeds uri ps (set_item key_dec k p c).1 kept in
    rw (stored, store_all) rest

-- Every process of the list is in the cache.
AllPeek : String → List Process → Lru Key Process → Type 0
AllPeek uri [] c = Unit
AllPeek uri (p ∷ ps) c =
    ((q : Process) × (peek key_dec c (key_of uri p) ≡ some q)) × AllPeek uri ps c

AllPeek-get_item :
    (uri : String) (k : Key) (ps : List Process) (c : Lru Key Process)
    → AllPeek uri ps c
    → AllPeek uri ps (get_item key_dec k c).1
unfolding AllPeek
AllPeek-get_item uri k [] c a = tt
AllPeek-get_item uri k (p ∷ ps) c ((q, e), a) =
    ((q, peek-get_item key_dec k (key_of uri p) c ∙ e), AllPeek-get_item uri k ps c a)

read_all-Succeeds :
    (uri : String) (ps : List Process) (c : Lru Key Process)
    → IsValid key_dec c
    → AllPeek uri ps c
    → Succeeds (read_all uri ps c)
unfolding read_all AllPeek
read_all-Succeeds uri [] c v a = record { value = []; returns = refl; valid = v }
read_all-Succeeds uri (p ∷ ps) c v ((q, e), a) =
    let k = key_of uri p in
    let found : (get_item key_dec k c).0 ≡ ok q = get_item-peek key_dec k c ∙ ap or_key_error e in
    let rest =
      read_all-Succeeds uri ps (get_item key_dec k c).1 (get_item-IsValid key_dec k c v)
        (AllPeek-get_item uri k ps c a) in
    rw (found, read_all, rest.returns)
      (record { value = q ∷ rest.value; returns = refl; valid = rest.valid })

all_cached-AllPeek :
    (uri : String) (ps : List Process) (c : Lru Key Process)
    → all_cached c uri ps ≡ true
    → AllPeek uri ps c
unfolding all_cached AllPeek contains peek
all_cached-AllPeek uri [] c h = tt
all_cached-AllPeek uri (p ∷ ps) c h = (ground arith, all_cached-AllPeek uri ps c (ground arith))

contextualize-Succeeds :
    (factory : Factory) (idents : List String) (uri : String) (ps qs : List Process)
    (c : Lru Key Process)
    → IsValid key_dec c
    → factory.create_contextualized_processes idents uri ≡ ok qs
    → Succeeds (contextualize factory idents uri ps c)
unfolding contextualize
contextualize-Succeeds factory idents uri ps qs c v made = elim (Bool-cases (all_cached c uri ps)) [
  | inl cached ↦
      rw (cached, contextualize) (read_all-Succeeds uri ps c v (all_cached-AllPeek uri ps c cached))
  | inr new ↦
      let stored = store_all-Succeeds uri qs c v in
      rw (new, contextualize, made, stored.returns)
        (record { value = qs; returns = refl; valid = stored.valid })
]

for_map-Succeeds :
    (factory : Factory) (idents : List String) (map_uri : Option String) (ps : List Process)
    (c : Lru Key Process)
    → IsValid key_dec c
    → ((uri : String)
        → (qs : List Process) × (factory.create_contextualized_processes idents uri ≡ ok qs))
    → Succeeds (for_map factory idents map_uri ps c)
unfolding for_map
for_map-Succeeds factory idents none ps c v makes = record { value = ps; returns = refl; valid = v }
for_map-Succeeds factory idents (some uri) ps c v makes =
    let (qs, made) = makes uri in
    elim (Bool-cases factory.qgis_enabled) [
      | inl on ↦
          subst (λ b. Succeeds ((if b then contextualize factory idents uri ps else pure ps) c))
            (sym on) (contextualize-Succeeds factory idents uri ps qs c v made)
      | inr off ↦
          subst (λ b. Succeeds ((if b then contextualize factory idents uri ps else pure ps) c))
            (sym off) (record { value = ps; returns = refl; valid = v })
    ]

-- Where the cache is valid, every identifier is known and the factory builds the processes of a
-- map, the look-up of processes returns a value, from the cache or made anew, and keeps the cache
-- valid: it never raises for an entry that the cache has evicted.
pub get_processes-returns :
    (factory : Factory) (idents : List String) (map_uri : Option String) (s : State)
    {ps : List Process}
    → IsValid key_dec s.context_processes
    → find_all s.processes idents ≡ ok ps
    → ((uri : String)
        → (qs : List Process) × (factory.create_contextualized_processes idents uri ≡ ok qs))
    → ((qs : List Process) × ((get_processes factory idents map_uri s).0 ≡ ok qs))
      × IsValid key_dec (get_processes factory idents map_uri s).1.context_processes
unfolding get_processes
get_processes-returns factory idents map_uri s {ps} v known makes =
    let done = for_map-Succeeds factory idents map_uri ps s.context_processes v makes in
    rw (known, get_processes) ((done.value, done.returns), done.valid)
