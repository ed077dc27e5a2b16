-- ===== src/Cache/Aliases.antt =====
-- The table of aliases only remembers what the configuration says.
use py_qgis_wps.Prelude.{
  String, ◌≡◌, refl, sym, ap, ◌∙◌, ◌⊎◌, Option, none, some, List, [], ◌∷◌, Dict, lookup, insert,
  str_dec, holds, lookup-insert, if◌then◌else◌, Option-cases, inl, inr, arith, Bool-cases, subst,
  ite,
}
use py_qgis_wps.Prelude.Text.{lower, replace, or_else}
use py_qgis_wps.Exceptions.{Result, ok, raise}
use py_qgis_wps.Exec.{continue}
use py_qgis_wps.Cache.{
  ParseResult, UrlLib, CacheConfig, rootdir_url, user_scheme, base_of, with_base, resolve_alias,
}
use py_qgis_wps.Cache.Manager.{PathLib, Handler, factory_of, get_project_factory}

-- The table that the manager starts with.
abbrev pub initial : CacheConfig → Dict String String
initial cfg = ("file", rootdir_url cfg) ∷ []

-- The base URL by what the table and the configuration hold.
abbrev base_text : Option String → String → String
base_text none user = user
base_text (some b) user = if holds (str_dec b "") then user else b

abbrev text_or_empty : Option String → String
text_or_empty none = ""
text_or_empty (some b) = b

base_text_same : (b : String) → base_text (some b) b ≡ b
base_text_same b = ground arith

module _ (urls : UrlLib) (cfg : CacheConfig) where
  -- What the user configured for a scheme.
  abbrev user_text : String → String
  user_text scheme = text_or_empty (cfg.schemes (lower (replace "-" "_" scheme)))

  -- The table answers as the one of the start.
  abbrev pub Aliases : Dict String String → Type 0
  Aliases aliases =
      (scheme : String)
      → (base_of urls cfg scheme aliases).0 ≡ (base_of urls cfg scheme (initial cfg)).0

  user_scheme_text :
      (scheme : String) (aliases : Dict String String)
      → (user_scheme urls cfg scheme aliases).0 ≡ user_text scheme
  unfolding user_scheme
  user_scheme_text scheme aliases = ground arith

  base_of_text :
      (scheme : String) (aliases : Dict String String)
      → (base_of urls cfg scheme aliases).0
        ≡ base_text (lookup str_dec scheme aliases) (user_text scheme)
  unfolding base_of
  base_of_text scheme aliases = ground (arith, user_scheme_text scheme aliases)

  -- What the user configured is what the table has for the scheme after it.
  base_of-insert :
      (scheme q b : String) (aliases : Dict String String)
      → user_text scheme ≡ b
      → (base_of urls cfg scheme aliases).0 ≡ b
      → (base_of urls cfg q (insert str_dec scheme b aliases)).0 ≡ (base_of urls cfg q aliases).0
  base_of-insert scheme q b aliases u h =
      base_of_text q (insert str_dec scheme b aliases)
      ∙ ap (λ l. base_text l (user_text q)) (lookup-insert str_dec scheme q b aliases)
      ∙ elim (str_dec scheme q)
          as (λ c.
            base_text (ite c (some b) (lookup str_dec q aliases)) (user_text q)
            ≡ (base_of urls cfg q aliases).0) [
              | yes p ↦
                  subst (λ r. base_text (some b) (user_text r) ≡ (base_of urls cfg r aliases).0) p
                    (ap (base_text (some b)) u ∙ base_text_same b ∙ sym h)
              | no _ ↦ sym (base_of_text q aliases)
            ]

  -- The table stays, or it takes in what the user configured.
  base_of_table :
      (scheme : String) (aliases : Dict String String)
      → ((base_of urls cfg scheme aliases).1 ≡ aliases)
        ⊎ ((b : String) × ((base_of urls cfg scheme aliases).1 ≡ insert str_dec scheme b aliases)
            × (user_text scheme ≡ b)
            × ((base_of urls cfg scheme aliases).0 ≡ b))
  unfolding base_of user_scheme
  base_of_table scheme aliases =
      elim (Option-cases (cfg.schemes (lower (replace "-" "_" scheme)))) [
        | inl missing ↦ inl (ground arith)
        | inr (b, there) ↦ elim (Option-cases (lookup str_dec scheme aliases)) [
          | inl new ↦ inr (b, ground arith, ground arith, ground arith)
          | inr (c, old) ↦ elim (Bool-cases (holds (str_dec c ""))) [
            | inl blank ↦ inr (b, ground arith, ground arith, ground arith)
            | inr set ↦ inl (ground arith)
          ]
        ]
      ]

  base_of-base_of :
      (scheme q : String) (aliases : Dict String String)
      → (base_of urls cfg q (base_of urls cfg scheme aliases).1).0 ≡ (base_of urls cfg q aliases).0
  base_of-base_of scheme q aliases = elim (base_of_table scheme aliases) [
    | inl same ↦ rw same refl
    | inr (b, table, u, h) ↦ rw table (base_of-insert scheme q b aliases u h)
  ]

module _ {P : Type 0} (urls : UrlLib) (paths : PathLib) (cfg : CacheConfig)
    (restricted_layers : P → List String) where
  abbrev factory : ParseResult → Result (Handler × ParseResult)
  factory url = factory_of urls paths cfg restricted_layers url

  abbrev then_factory : Result ParseResult → Result (Handler × ParseResult)
  then_factory (raise e) = raise e
  then_factory (ok url) = factory url

  rest_table :
      (r : Result ParseResult) (aliases : Dict String String)
      → continue r (λ url al. (factory url, al)) aliases ≡ (then_factory r, aliases)
  rest_table (raise e) aliases = refl
  rest_table (ok url) aliases = refl

  abbrev scheme_of : String → String
  scheme_of key = or_else (urls.urlparse key).scheme cfg.default_scheme

  factory_table :
      (key : String) (aliases : Dict String String)
      → get_project_factory urls paths cfg restricted_layers key aliases ≡ (
        then_factory
            (with_base urls cfg (base_of urls cfg (scheme_of key) aliases).0 (urls.urlparse key)),
        (base_of urls cfg (scheme_of key) aliases).1,
      )
  unfolding get_project_factory resolve_alias
  factory_table key aliases =
      rest_table
        (with_base urls cfg (base_of urls cfg (scheme_of key) aliases).0 (urls.urlparse key))
        (base_of urls cfg (scheme_of key) aliases).1

  -- Under every table that the manager can have, a key is resolved as at the start.
  pub get_project_factory-initial :
      (key : String) (aliases : Dict String String)
      → Aliases urls cfg aliases
      → (get_project_factory urls paths cfg restricted_layers key aliases).0
        ≡ (get_project_factory urls paths cfg restricted_layers key (initial cfg)).0
  get_project_factory-initial key aliases h =
      ap (λ r. r.0) (factory_table key aliases)
      ∙ ap (λ b. then_factory (with_base urls cfg b (urls.urlparse key))) (h (scheme_of key))
      ∙ sym (ap (λ r. r.0) (factory_table key (initial cfg)))

  pub get_project_factory-Aliases :
      (key : String) (aliases : Dict String String)
      → Aliases urls cfg aliases
      → Aliases urls cfg (get_project_factory urls paths cfg restricted_layers key aliases).1
  get_project_factory-Aliases key aliases h q =
      ap (λ r. (base_of urls cfg q r.1).0) (factory_table key aliases)
      ∙ base_of-base_of urls cfg (scheme_of key) q aliases
      ∙ h q
