-- ===== src/Cache/Refusal.antt =====
-- Which projects the manager refuses.
use py_qgis_wps.Prelude.{
  ◌≡◌, refl, String, Bool, true, Option, none, some, List, [], ◌∷◌, arith, elem, str_dec, all, All,
  Bool-cases, inl, inr, sym, ◌∙◌, ◌&&◌, ap,
}
use py_qgis_wps.Exceptions.{ok, ok-eq}
use py_qgis_wps.Cache.{CacheConfig}
use py_qgis_wps.Cache.Manager.{QgisRead, handle_bad_layers, validate_layers, strict_checked}

-- Whether a bad layer, as QGIS reports it, has no name or one of the restricted layers.
abbrev pub is_hidden : List String → Option String → Bool
is_hidden restricted none = true
is_hidden restricted (some name) = elem str_dec name restricted

module _ {P : Type 0} (cfg : CacheConfig) (restricted_layers : P → List String) where
  -- What the strict check asks of a project: each bad layer that QGIS reports with a name is one
  -- that the project hides.
  abbrev pub Acceptable : QgisRead P → Type 0
  Acceptable r = All (λ l. is_hidden (restricted_layers r.project) l ≡ true) r.bad_layers

  handle_bad_layers-all :
      (layers : List (Option String)) (restricted : List String)
      → all (λ name. elem str_dec name restricted) (handle_bad_layers layers)
        ≡ all (is_hidden restricted) layers
  unfolding handle_bad_layers
  handle_bad_layers-all [] restricted = refl
  handle_bad_layers-all (none ∷ layers) restricted = handle_bad_layers-all layers restricted
  handle_bad_layers-all (some name ∷ layers) restricted =
      ap (λ b. elem str_dec name restricted && b) (handle_bad_layers-all layers restricted)

  validate_layers-all :
      (names restricted : List String)
      → validate_layers names restricted ≡ all (λ name. elem str_dec name restricted) names
  unfolding validate_layers
  validate_layers-all [] restricted = refl
  validate_layers-all (n ∷ names) restricted = refl

  all-All :
      (layers : List (Option String)) (restricted : List String)
      → all (is_hidden restricted) layers ≡ true
      → All (λ l. is_hidden restricted l ≡ true) layers
  all-All [] restricted h = tt
  all-All (l ∷ layers) restricted h = (ground arith, all-All layers restricted (ground arith))

  -- With the strict check on, a project is handed out only if each bad layer that QGIS reports with
  -- a name is one of the project's restricted layers.
  pub strict_checked-Acceptable :
      (r : QgisRead P) (project : P)
      → cfg.strict_check ≡ true
      → strict_checked cfg restricted_layers r ≡ ok project
      → Acceptable r × (project ≡ r.project)
  unfolding strict_checked
  strict_checked-Acceptable r project strict h =
      let names = handle_bad_layers r.bad_layers in
      let restricted = restricted_layers r.project in
      elim (Bool-cases (validate_layers names restricted)) [
        | inl fine ↦ (
          all-All r.bad_layers restricted (
              sym (handle_bad_layers-all r.bad_layers restricted)
              ∙ sym (validate_layers-all names restricted)
              ∙ fine),
          sym (ok-eq (rw (strict, fine, strict_checked) at h)),
        )
        | inr bad ↦ absurd (cc (rw (strict, bad, strict_checked) at h))
      ]
