-- ===== src/Cache/Lookups.antt =====
-- Every look-up of a project answers as if there were no cache.
use py_qgis_wps.Prelude.{
  some-eq, ◌≡◌, refl, sym, ap, ◌∙◌, subst, inl, inr, String, Bool, none, some, List, str_dec, arith,
  Option-cases,
}
use py_qgis_wps.Exceptions.{Exn, Result, ok, raise, Result-cases, ok-eq}
use py_qgis_wps.Lru.{peek, get_item, set_item}
use py_qgis_wps.Lru.Bounds.{IsValid, set_item-IsValid, get_item-IsValid, set_item-kept}
use py_qgis_wps.Lru.Reads.{
  get_item-peek, peek-get_item, peek-set_item_self, peek-set_item_ne, or_key_error,
}
use py_qgis_wps.Cache.{ParseResult, UrlLib, CacheConfig}
use py_qgis_wps.Cache.Aliases.{
  Aliases, initial, get_project_factory-initial, get_project_factory-Aliases,
}
use py_qgis_wps.Cache.Manager.{
  PathLib, Disk, CacheDetails, Handler, Manager, get_project, get_project_factory, store_details,
  update_entry, lookup_project, is_updated, on_cache, on_aliases,
}
use py_qgis_wps.Cache.Location.{Moment, Later}
use py_qgis_wps.Cache.Fresh.{get_project-Later}

pub Later-refl : {P : Type 0} (w : Disk P) → Moment w → Later w w
Later-refl w moment = record {
  time = omega arith;
  kept = λ p h. h;
  files = λ p h. inr (h, refl, refl);
  storages = λ u t h. inr (h, refl);
}

Later-trans : {P : Type 0} (w0 w1 w2 : Disk P) → Later w0 w1 → Later w1 w2 → Later w0 w2
Later-trans w0 w1 w2 a b = record {
  time = omega (arith, a.time, b.time);
  kept = λ p h. b.kept p (a.kept p h);
  files = λ p h. elim (b.files p h) [
    | inl newer ↦ inl (omega (arith, newer, a.time))
    | inr (there, t, same) ↦ elim (a.files p there) [
      | inl newer ↦ inl (omega (arith, newer, t))
      | inr (there0, t0, same0) ↦ inr (there0, t ∙ t0, same ∙ same0)
    ]
  ];
  storages = λ u t h. elim (b.storages u t h) [
    | inl newer ↦ inl (omega (arith, newer, a.time))
    | inr (there, same) ↦ elim (a.storages u t there) [
      | inl newer ↦ inl newer
      | inr (there0, same0) ↦ inr (there0, same ∙ same0)
    ]
  ];
}

-- The parts of what a look-up returns.
abbrev pub first_of : {A B : Type 0} → Result (A × B) → Result A
first_of (raise e) = raise e
first_of (ok (a, b)) = ok a

abbrev pub project_of : {P : Type 0} → Result (CacheDetails P) → Result P
project_of (raise e) = raise e
project_of (ok d) = ok d.project

module _ {P : Type 0} (urls : UrlLib) (paths : PathLib) (cfg : CacheConfig)
    (restricted_layers : P → List String) where
  abbrev factory_at : String → Result (Handler × ParseResult)
  factory_at key = (get_project_factory urls paths cfg restricted_layers key (initial cfg)).0

  abbrev read_with : Disk P → Result (Handler × ParseResult) → Result (CacheDetails P)
  read_with w (raise e) = raise e
  read_with w (ok f) = get_project urls paths cfg restricted_layers f w none

  -- What a manager without a cache reads.
  abbrev pub uncached : Disk P → String → Result (CacheDetails P)
  uncached w key = read_with w (factory_at key)

  -- Where an entry comes from: it was read at an earlier moment.
  pub record Origin (w : Disk P) (key : String) (d : CacheDetails P) : Type 0 where
    pub handler : Handler × ParseResult
    pub found : factory_at key ≡ ok handler
    pub origin : Disk P
    pub moment : Moment origin
    pub later : Later origin w
    pub read : get_project urls paths cfg restricted_layers handler origin none ≡ ok d

  pub record IsFresh (w : Disk P) (m : Manager P) : Type 0 where
    pub valid : IsValid str_dec m.cache
    pub table : Aliases urls cfg m.aliases
    pub entries :
        (key : String) (d : CacheDetails P) → peek str_dec m.cache key ≡ some d → Origin w key d

  -- Time passes: what was read earlier still was.
  pub IsFresh-Later : (w0 w : Disk P) (m : Manager P) → Later w0 w → IsFresh w0 m → IsFresh w m
  IsFresh-Later w0 w m later h = record {
    valid = h.valid;
    table = h.table;
    entries = λ key d there.
        (let o = h.entries key d there in
          record {
            handler = o.handler;
            found = o.found;
            origin = o.origin;
            moment = o.moment;
            later = Later-trans o.origin w0 w o.later later;
            read = o.read;
          });
  }

  -- The details that are in the cache make no difference.
  get_project-peek :
      (w : Disk P) (key : String) (m : Manager P) (f : Handler × ParseResult)
      → IsFresh w m
      → factory_at key ≡ ok f
      → get_project urls paths cfg restricted_layers f w (peek str_dec m.cache key)
        ≡ get_project urls paths cfg restricted_layers f w none
  get_project-peek w key m f h found = elim (Option-cases (peek str_dec m.cache key)) [
    | inl new ↦ ap (get_project urls paths cfg restricted_layers f w) new
    | inr (d, old) ↦
        let o = h.entries key d old in
        let same : o.handler ≡ f = ok-eq (sym o.found ∙ found) in
        ap (get_project urls paths cfg restricted_layers f w) old
        ∙ get_project-Later urls paths cfg restricted_layers f o.origin w d o.moment o.later (
            subst (λ g. get_project urls paths cfg restricted_layers g o.origin none ≡ ok d) same
              o.read)
  ]

  -- The cache after a write and a read of an entry that was just read.
  written-entries :
      (w : Disk P) (key : String) (d : CacheDetails P) (m : Manager P)
      → IsFresh w m
      → Origin w key d
      → (q : String) (e : CacheDetails P)
      → peek str_dec (set_item str_dec key d m.cache).1 q ≡ some e
      → Origin w q e
  written-entries w key d m h o q e there = elim (str_dec q key) [
    | yes same ↦
        let written : d ≡ e = some-eq (
          sym (peek-set_item_self str_dec key d m.cache h.valid)
          ∙ ap (peek str_dec (set_item str_dec key d m.cache).1) (sym same)
          ∙ there) in
        subst (λ r. Origin w r e) (sym same) (subst (λ r. Origin w key r) written o)
    | no other ↦ elim (peek-set_item_ne str_dec key q d m.cache h.valid other) [
      | inl stays ↦ h.entries q e (sym stays ∙ there)
      | inr (gone, _, _) ↦ absurd (cc (gone, there))
    ]
  ]

  -- The manager after an entry was stored and read again.
  abbrev stored : String → CacheDetails P → Manager P → Manager P
  stored key d m = record m { cache = (get_item str_dec key (set_item str_dec key d m.cache).1).1 }

  stored-IsFresh :
      (w : Disk P) (key : String) (d : CacheDetails P) (m : Manager P)
      → IsFresh w m
      → Origin w key d
      → IsFresh w (stored key d m)
  stored-IsFresh w key d m h o = record {
    valid =
        get_item-IsValid str_dec key (set_item str_dec key d m.cache).1
          (set_item-IsValid str_dec key d m.cache h.valid);
    table = h.table;
    entries = λ q e there.
        written-entries w key d m h o q e
          (sym (peek-get_item str_dec key q (set_item str_dec key d m.cache).1) ∙ there);
  }

  -- The state once the key is resolved.
  abbrev resolved : String → Manager P → Manager P
  resolved key m = record m {
    aliases = (get_project_factory urls paths cfg restricted_layers key m.aliases).1;
  }

  resolved-IsFresh :
      (w : Disk P) (key : String) (m : Manager P) → IsFresh w m → IsFresh w (resolved key m)
  resolved-IsFresh w key m h = record {
    valid = h.valid;
    table = get_project_factory-Aliases urls paths cfg restricted_layers key m.aliases h.table;
    entries = h.entries;
  }

  -- What a look-up does, by what can be read without a cache.
  pub data Looked (w : Disk P) (key : String) (m : Manager P)
      : Result (CacheDetails P) → Result (P × Bool) × Manager P → Type 0 where
    failed : (e : Exn) → Looked w key m (raise e) (raise e, resolved key m)
    found :
        (d : CacheDetails P) (updated : Bool)
        → Looked w key m (ok d) (ok (d.project, updated), stored key d (resolved key m))

  lookup_project-Looked :
      (w : Disk P) (key : String) (m : Manager P)
      → IsFresh w m
      → Looked w key m (uncached w key) (lookup_project urls paths cfg restricted_layers w key m)
  unfolding lookup_project update_entry on_aliases store_details on_cache
  lookup_project-Looked w key m h =
      let table =
        get_project_factory-initial urls paths cfg restricted_layers key m.aliases h.table in
      elim (Result-cases (factory_at key)) [
        | inl (e, bad) ↦ rw (table, bad) (failed e)
        | inr (f, good) ↦
            let same = get_project-peek w key m f h good in
            elim (Result-cases (get_project urls paths cfg restricted_layers f w none)) [
              | inl (e, bad) ↦ rw (table, good, same, bad) (failed e)
              | inr (d, read) ↦
                  let kept = ap (λ x. x.0) (set_item-kept str_dec key d m.cache h.valid) in
                  let got : (get_item str_dec key (set_item str_dec key d m.cache).1).0 ≡ ok d =
                    get_item-peek str_dec key (set_item str_dec key d m.cache).1
                    ∙ ap or_key_error (peek-set_item_self str_dec key d m.cache h.valid) in
                  rw (table, good, same, read, kept, got)
                    (found d
                      (is_updated urls paths cfg restricted_layers (peek str_dec m.cache key) d))
            ]
      ]

  Looked-IsFresh :
      (w : Disk P) (key : String) (m : Manager P) (r : Result (CacheDetails P))
      (x : Result (P × Bool) × Manager P)
      → Looked w key m r x
      → ((d : CacheDetails P) → r ≡ ok d → Origin w key d)
      → IsFresh w m
      → (first_of x.0 ≡ project_of r) × IsFresh w x.1
  Looked-IsFresh w key m _ _ (failed e) o h = (refl, resolved-IsFresh w key m h)
  Looked-IsFresh w key m _ _ (found d updated) o h =
      (refl, stored-IsFresh w key d (resolved key m) (resolved-IsFresh w key m h) (o d refl))

  uncached-Origin :
      (w : Disk P) (key : String) (d : CacheDetails P)
      → Moment w
      → uncached w key ≡ ok d
      → Origin w key d
  uncached-Origin w key d moment read = elim (Result-cases (factory_at key)) [
    | inl (e, bad) ↦ absurd (cc (sym (ap (read_with w) bad) ∙ read))
    | inr (f, good) ↦ record {
      handler = f;
      found = good;
      origin = w;
      moment = moment;
      later = Later-refl w moment;
      read = sym (ap (read_with w) good) ∙ read;
    }
  ]

  -- One look-up answers as without a cache, and keeps what the cache promises.
  pub lookup_project-IsFresh :
      (w : Disk P) (key : String) (m : Manager P)
      → Moment w
      → IsFresh w m
      → (first_of (lookup_project urls paths cfg restricted_layers w key m).0
          ≡ project_of (uncached w key))
        × IsFresh w (lookup_project urls paths cfg restricted_layers w key m).1
  lookup_project-IsFresh w key m moment h =
      Looked-IsFresh w key m (uncached w key)
        (lookup_project urls paths cfg restricted_layers w key m) (lookup_project-Looked w key m h)
        (λ d read. uncached-Origin w key d moment read) h
