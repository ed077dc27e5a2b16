-- ===== src/Cache/Fresh.antt =====
-- The cached projects are those that the files and the storages hold.
use py_qgis_wps.Prelude.{
  ℕ, ◌≡◌, refl, sym, ap, ◌∙◌, inl, inr, String, false, none, some, ltb, arith, List,
}
use py_qgis_wps.Exceptions.{Result, ok, raise, Result-cases, ok-eq}
use py_qgis_wps.Cache.{ParseResult, UrlLib, CacheConfig}
use py_qgis_wps.Cache.Manager.{
  PathLib, Disk, CacheDetails, read_project, reread, keep_or_read, from_location,
  get_storage_metadata, locate, Handler, file_handler, storage_handler, get_project,
}
use py_qgis_wps.Cache.Location.{Moment, Later, Settled, storage_settled, locate_settled}

module _ {P : Type 0} (cfg : CacheConfig) (restricted_layers : P → List String) where
  -- What a project that was read is filed as.
  pub reread_ok :
      (w : Disk P) (path : String) (t : ℕ) (d : CacheDetails P)
      → reread cfg restricted_layers w path t ≡ ok d
      → d.timestamp ≡ t
  unfolding reread
  reread_ok w path t d h = elim (Result-cases (read_project cfg restricted_layers w path)) [
    | inl (e, broken) ↦ absurd (ground (arith, broken, h))
    | inr (project, read) ↦
        let same : record { project = project; timestamp = t } ≡ d =
          ok-eq (sym (rw (read, reread) refl) ∙ h) in
        sym (ap (λ c. c.timestamp) same)
  ]

  reread_same :
      (w0 w : Disk P) (path : String) (t : ℕ)
      → w.contents path ≡ w0.contents path
      → reread cfg restricted_layers w path t ≡ reread cfg restricted_layers w0 path t
  unfolding reread read_project
  reread_same w0 w path t h = rw (h, reread, read_project) refl

  keep_or_read-reread :
      (w0 w : Disk P) (l0 l : String × ℕ) (d : CacheDetails P)
      → Settled w0 w l0 l
      → keep_or_read cfg restricted_layers w0 none l0 ≡ ok d
      → keep_or_read cfg restricted_layers w (some d) l
        ≡ keep_or_read cfg restricted_layers w none l
  unfolding keep_or_read
  keep_or_read-reread w0 w l0 l d (inl newer) h = ground (arith, newer, reread_ok w0 l0.0 l0.1 d h)
  keep_or_read-reread w0 w l0 l d (inr (q, t, same)) h =
      let kept : ltb d.timestamp l.1 ≡ false = ground (arith, t, reread_ok w0 l0.0 l0.1 d h) in
      rw kept (
        sym h
        ∙ ap (λ p. reread cfg restricted_layers w0 p l0.1) (sym q)
        ∙ ap (λ u. reread cfg restricted_layers w0 l.0 u) (sym t)
        ∙ sym (reread_same w0 w l.0 l.1 same))

  pub from_location-Settled :
      (w0 w : Disk P) (r0 r : Result (String × ℕ)) (d : CacheDetails P)
      → ((l0 l : String × ℕ) → r0 ≡ ok l0 → r ≡ ok l → Settled w0 w l0 l)
      → from_location cfg restricted_layers w0 none r0 ≡ ok d
      → from_location cfg restricted_layers w (some d) r
        ≡ from_location cfg restricted_layers w none r
  unfolding from_location
  from_location-Settled w0 w r0 (raise e) d settled h = refl
  from_location-Settled w0 w (raise e) (ok l) d settled h = absurd (cc (h))
  from_location-Settled w0 w (ok l0) (ok l) d settled h =
      keep_or_read-reread w0 w l0 l d (settled l0 l refl refl) h

module _ {P : Type 0} (urls : UrlLib) (paths : PathLib) (cfg : CacheConfig)
    (restricted_layers : P → List String) where
  -- Details that a handler read at an earlier moment give the answer that it gives without them.
  pub get_project-Later :
      (f : Handler × ParseResult) (w0 w : Disk P) (d : CacheDetails P)
      → Moment w0
      → Later w0 w
      → get_project urls paths cfg restricted_layers f w0 none ≡ ok d
      → get_project urls paths cfg restricted_layers f w (some d)
        ≡ get_project urls paths cfg restricted_layers f w none
  unfolding get_project
  get_project-Later (file_handler, url) w0 w d moment later h =
      from_location-Settled cfg restricted_layers w0 w (locate paths w0 url.path)
        (locate paths w url.path) d (locate_settled w0 w moment later paths url.path) h
  get_project-Later (storage_handler, url) w0 w d moment later h =
      from_location-Settled cfg restricted_layers w0 w
        (get_storage_metadata w0 (urls.urlunparse url))
        (get_storage_metadata w (urls.urlunparse url)) d
        (storage_settled w0 w moment later (urls.urlunparse url)) h
