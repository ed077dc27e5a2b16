-- ===== src/Cache/Files.antt =====
-- utils/filecache.py: `FileCache`, projects by the time of the file they were read from.
use py_qgis_wps.Prelude.{
  ℕ, ◌≡◌, refl, ap, ◌∙◌, String, Bool, true, false, Option, none, some, str_dec, ltb, if◌then◌else◌,
  Bool-cases, inl, inr,
}
use py_qgis_wps.Exceptions.{Result, ok, raise}
use py_qgis_wps.Exec.{Exec, pure, ◌>>=◌, ◌>>◌}
use py_qgis_wps.Lru.{Lru, peek, get_item, set_item, del_item}
use py_qgis_wps.Lru.Bounds.{
  IsValid, set_item-IsValid, get_item-IsValid, set_item-kept, del_item-IsValid,
}
use py_qgis_wps.Lru.Reads.{get_item-peek, peek-set_item_self, or_key_error}
use py_qgis_wps.Cache.Manager.{CacheDetails}

-- The store, which gives the path and the modification time of a key, and `QgsProject.read`.
pub record FileStore (P : Type 0) : Type 0 where
  pub getpath : String → Result (String × ℕ)
  pub read : String → P

module _ {P : Type 0} (store : FileStore P) where
  open store use {getpath, read}

  -- The end of `validate`: the project is read and cached; `on_cache_update` does nothing.
  unfoldable pub load_project : String → String × ℕ → Exec (Lru String (CacheDetails P)) Bool
  unfolding set_item
  load_project key (path, timestamp) = do
    set_item str_dec key (record { project = read path; timestamp = timestamp })
    pure true

  unfoldable pub revalidate :
      String → String × ℕ → Option (CacheDetails P) → Exec (Lru String (CacheDetails P)) Bool
  unfolding load_project del_item
  revalidate key location none = load_project key location
  revalidate key location (some details) =
      if ltb details.timestamp location.1
      then (do del_item str_dec key; load_project key location)
      else pure false

  unfoldable pub validate : String → Exec (Lru String (CacheDetails P)) Bool
  unfolding revalidate peek
  validate key c = elim (getpath key) [
    | raise e ↦ (raise e, c)
    | ok location ↦ revalidate key location (peek str_dec c key) c
  ]

  unfoldable pub lookup_file : String → Exec (Lru String (CacheDetails P)) P
  unfolding validate get_item
  lookup_file key = do validate key; details ← get_item str_dec key; pure details.project

  -- The project that a look-up is to return: the cached one unless the file is newer.
  unfoldable pub expected : String × ℕ → Option (CacheDetails P) → P
  expected location none = read location.0
  expected location (some details) =
      if ltb details.timestamp location.1 then read location.0 else details.project

  -- The rest of a look-up once the key is validated.
  abbrev read_entry : String → Exec (Lru String (CacheDetails P)) P
  read_entry key = do details ← get_item str_dec key; pure details.project

  -- The call returned the project and left a valid cache.
  abbrev Returns : P → Result P × Lru String (CacheDetails P) → Type 0
  Returns p x = (x.0 ≡ ok p) × IsValid str_dec x.1

  load_project-Returns :
      (key : String) (location : String × ℕ) (c : Lru String (CacheDetails P))
      → IsValid str_dec c
      → Returns (read location.0) ((load_project key location >> read_entry key) c)
  unfolding load_project
  load_project-Returns key location c v =
      let d : CacheDetails P = record { project = read location.0; timestamp = location.1 } in
      let written = (set_item str_dec key d c).1 in
      let kept = ap (λ x. x.0) (set_item-kept str_dec key d c v) in
      let got : (get_item str_dec key written).0 ≡ ok d =
        get_item-peek str_dec key written
        ∙ ap or_key_error (peek-set_item_self str_dec key d c v) in
      rw (kept, got)
        (refl, get_item-IsValid str_dec key written (set_item-IsValid str_dec key d c v))

  del_item-ok :
      (key : String) (d : CacheDetails P) (c : Lru String (CacheDetails P))
      → peek str_dec c key ≡ some d
      → (del_item str_dec key c).0 ≡ ok tt
  unfolding peek del_item
  del_item-ok key d c there = rw (there, del_item) refl

  revalidate-Returns :
      (key : String) (location : String × ℕ) (c : Lru String (CacheDetails P))
      (found : Option (CacheDetails P))
      → IsValid str_dec c
      → peek str_dec c key ≡ found
      → Returns (expected location found) ((revalidate key location found >> read_entry key) c)
  unfolding revalidate expected
  revalidate-Returns key location c none v there = load_project-Returns key location c v
  revalidate-Returns key location c (some d) v there =
      elim (Bool-cases (ltb d.timestamp location.1)) [
        | inl newer ↦
            let gone = del_item-ok key d c there in
            rw (newer, gone)
              (load_project-Returns key location (del_item str_dec key c).1
                (del_item-IsValid str_dec key c v))
        | inr fresh ↦
            let got : (get_item str_dec key c).0 ≡ ok d =
              get_item-peek str_dec key c ∙ ap or_key_error there in
            rw (fresh, got) (refl, get_item-IsValid str_dec key c v)
      ]

  -- On a valid cache, a look-up of a key that the store knows returns the cached project unless
  -- there is none or the file is newer, in which case the file is read; it never raises, and the
  -- cache stays valid.
  pub lookup_file-expected :
      (key : String) (location : String × ℕ) (c : Lru String (CacheDetails P))
      → IsValid str_dec c
      → getpath key ≡ ok location
      → ((lookup_file key c).0 ≡ ok (expected location (peek str_dec c key)))
        × IsValid str_dec (lookup_file key c).1
  unfolding lookup_file validate
  lookup_file-expected key location c v known =
      rw (known, validate) (revalidate-Returns key location c (peek str_dec c key) v refl)
