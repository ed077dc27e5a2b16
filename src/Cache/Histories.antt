-- ===== src/Cache/Histories.antt =====
-- A manager over the life of a server: look-ups, removals and resets while projects change.
use py_qgis_wps.Prelude.{
  ◌<◌, ◌≡◌, refl, ap, ◌∙◌, String, some, List, [], ◌∷◌, lookup, str_dec, arith, lookup-remove, ltb,
  true, false, remove, Option-cases, inl, inr,
}
use py_qgis_wps.Exceptions.{Result}
use py_qgis_wps.Lru.{Lru, peek, del_item, clear}
use py_qgis_wps.Lru.Bounds.{init-IsValid, del_item-IsValid}
use py_qgis_wps.Cache.{UrlLib, CacheConfig}
use py_qgis_wps.Cache.Manager
use py_qgis_wps.Cache.Manager.{
  PathLib, Disk, CacheDetails, Manager, lookup_project, remove_entry, clear_cache, on_cache,
}
use py_qgis_wps.Cache.Location.{Moment, Later}
use py_qgis_wps.Cache.Lookups.{
  IsFresh, IsFresh-Later, lookup_project-IsFresh, first_of, project_of, uncached,
}

pub data Use : Type 0 where
  look : String → Use
  forget : String → Use
  reset : Use

-- The calls, each with the files and storages as they are then.
abbrev pub Life : Type 0 → Type 0
Life P = List (Disk P × Use)

-- Every call is later than the one before.
abbrev pub Passes : {P : Type 0} → Disk P → Life P → Type 0
Passes w [] = Unit
Passes w ((v, _) ∷ rest) = Moment v × Later w v × Passes v rest

module _ {P : Type 0} (urls : UrlLib) (paths : PathLib) (cfg : CacheConfig)
    (restricted_layers : P → List String) where
  -- What the look-ups of a life return.
  unfoldable pub answers : Life P → Manager P → List (Result P)
  answers [] m = []
  answers ((w, look key) ∷ rest) m =
      first_of (lookup_project urls paths cfg restricted_layers w key m).0
      ∷ answers rest (lookup_project urls paths cfg restricted_layers w key m).1
  answers ((w, forget key) ∷ rest) m =
      answers rest (remove_entry urls paths cfg restricted_layers key m).1
  answers ((w, reset) ∷ rest) m = answers rest (clear_cache urls paths cfg restricted_layers m)

  -- What is read if nothing is cached.
  abbrev pub reads : Life P → List (Result P)
  reads [] = []
  reads ((w, look key) ∷ rest) =
      project_of (uncached urls paths cfg restricted_layers w key) ∷ reads rest
  reads ((w, forget key) ∷ rest) = reads rest
  reads ((w, reset) ∷ rest) = reads rest

  peek-del_item :
      (k q : String) (d : CacheDetails P) (c : Lru String (CacheDetails P))
      → peek str_dec (del_item str_dec k c).1 q ≡ some d
      → peek str_dec c q ≡ some d
  unfolding peek del_item
  peek-del_item k q d c h = elim (Option-cases (lookup str_dec k c.table)) [
    | inl missing ↦ rw (missing, del_item) at h
    | inr (e, there) ↦
        let left : lookup str_dec q (remove str_dec k c.table) ≡ some d =
          rw (there, del_item) at h in
        ground (arith, lookup-remove str_dec k q c.table, left)
  ]

  remove_entry-IsFresh :
      (w : Disk P) (key : String) (m : Manager P)
      → IsFresh urls paths cfg restricted_layers w m
      → IsFresh urls paths cfg restricted_layers w
          (remove_entry urls paths cfg restricted_layers key m).1
  unfolding remove_entry on_cache
  remove_entry-IsFresh w key m h = record {
    valid = del_item-IsValid str_dec key m.cache h.valid;
    table = h.table;
    entries = λ q d there. h.entries q d (peek-del_item key q d m.cache there);
  }

  clear_cache-IsFresh :
      (w : Disk P) (m : Manager P)
      → IsFresh urls paths cfg restricted_layers w m
      → IsFresh urls paths cfg restricted_layers w (clear_cache urls paths cfg restricted_layers m)
  unfolding clear_cache clear peek lookup
  clear_cache-IsFresh w m h = record {
    valid = record { positive = h.valid.positive; bounded = omega arith; unique = tt };
    table = h.table;
    entries = λ q d there. absurd (cc (there));
  }

  answers-reads :
      (life : Life P) (w : Disk P) (m : Manager P)
      → Passes w life
      → IsFresh urls paths cfg restricted_layers w m
      → answers life m ≡ reads life
  unfolding answers
  answers-reads [] w m p h = refl
  answers-reads ((v, look key) ∷ rest) w m (moment, later, p) h =
      let (same, next) =
        lookup_project-IsFresh urls paths cfg restricted_layers v key m moment
          (IsFresh-Later urls paths cfg restricted_layers w v m later h) in
      ap (λ r. r ∷ answers rest (lookup_project urls paths cfg restricted_layers v key m).1) same
      ∙ ap (λ l. project_of (uncached urls paths cfg restricted_layers v key) ∷ l)
          (answers-reads rest v (lookup_project urls paths cfg restricted_layers v key m).1 p next)
  answers-reads ((v, forget key) ∷ rest) w m (moment, later, p) h =
      answers-reads rest v (remove_entry urls paths cfg restricted_layers key m).1 p (
        remove_entry-IsFresh v key m (IsFresh-Later urls paths cfg restricted_layers w v m later h))
  answers-reads ((v, reset) ∷ rest) w m (moment, later, p) h =
      answers-reads rest v (clear_cache urls paths cfg restricted_layers m) p
        (clear_cache-IsFresh v m (IsFresh-Later urls paths cfg restricted_layers w v m later h))

  init-IsFresh :
      (w : Disk P)
      → 0 < cfg.size
      → IsFresh urls paths cfg restricted_layers w (Manager.init urls paths cfg restricted_layers)
  unfolding Manager.init peek lookup
  init-IsFresh w h =
      let t : ltb 0 cfg.size ≡ true = ground arith in
      let u : ltb cfg.size cfg.size ≡ false = ground arith in
      record {
        valid = init-IsValid str_dec cfg.size h;
        table = λ scheme. refl;
        entries = λ q d there. absurd (cc (rw (t, u) at there));
      }

  -- Where files do not vanish, nothing has a modification time in the future, what changes has one
  -- after the moment before, and the cache has a positive size, every look-up of a server's life answers with the project
  -- that is read without a cache, or with the exception of that, whatever entries are removed or
  -- evicted in between.
  pub answers-init-reads :
      (w : Disk P) (life : Life P)
      → 0 < cfg.size
      → Passes w life
      → answers life (Manager.init urls paths cfg restricted_layers) ≡ reads life
  answers-init-reads w life positive p =
      answers-reads life w (Manager.init urls paths cfg restricted_layers) p
        (init-IsFresh w positive)
