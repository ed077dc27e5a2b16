-- ===== src/Config/Settings/Loaded.antt =====
-- pyqgiswps/config.py: load_configuration and its table of settings.
use py_qgis_wps.Prelude.{
  ◌≡◌, refl, ap, ◌∙◌, String, Bool, true, false, not, ◌&&◌, Option, none, some, List, [], ◌∷◌,
  lookup, insert, str_dec, elem, Option-cases, is_some, Dict, lookup-insert, ite, holds, ◌||◌, sym,
  subst, inl, inr, if_pos, if_neg, arith, if◌then◌else◌,
}
use py_qgis_wps.Exceptions.{Result, ok, raise}
use py_qgis_wps.Config.{Config, Environ, raw, put_option, set}
use py_qgis_wps.Config.Table.{Statement, section, setting, statements}
use py_qgis_wps.Config.Settings.{value_of, new_section, execute, execute_all, load_configuration}
use py_qgis_wps.Config.Stored.{raw-set, raw-set_other, raw-there, raw-section}

-- Whether every section is new, and every setting is of a section before it.
abbrev pub well_ordered : List String → List Statement → Bool
well_ordered seen [] = true
well_ordered seen (section name ∷ rest) =
    not (elem str_dec name seen) && well_ordered (name ∷ seen) rest
well_ordered seen (setting name option from ∷ rest) =
    elem str_dec name seen && well_ordered seen rest

statements-well_ordered : (tempdir : String) → well_ordered [] (statements tempdir) ≡ true
unfolding statements str_dec
statements-well_ordered tempdir = refl

-- The sections of a configuration
abbrev Seen : List String → Config → Type 0
Seen seen c = (name : String) → is_some (lookup str_dec name c) ≡ elem str_dec name seen

insert-Seen_new :
    (name : String) (seen : List String) (options : Dict String String) (c : Config)
    → Seen seen c
    → Seen (name ∷ seen) (insert str_dec name options c)
insert-Seen_new name seen options c h n =
    rw (lookup-insert str_dec name n options c)
      (elim (str_dec name n)
        as (λ d.
          is_some (ite d (some options) (lookup str_dec n c)) ≡ holds d || elem str_dec n seen) [
            | yes same ↦ refl
            | no other ↦ h n
          ])

insert-Seen :
    (name : String) (seen : List String) (options : Dict String String) (c : Config)
    → elem str_dec name seen ≡ true
    → Seen seen c
    → Seen seen (insert str_dec name options c)
insert-Seen name seen options c there h n =
    rw (lookup-insert str_dec name n options c)
      (elim (str_dec name n)
        as (λ d. is_some (ite d (some options) (lookup str_dec n c)) ≡ elem str_dec n seen) [
          | yes same ↦ sym (subst (λ q. elem str_dec q seen ≡ true) same there)
          | no other ↦ h n
        ])

new_section-Seen :
    (name : String) (seen : List String) (c : Config)
    → elem str_dec name seen ≡ false
    → Seen seen c
    → new_section name c ≡ (ok tt, insert str_dec name [] c)
unfolding new_section
new_section-Seen name seen c new h = elim (Option-cases (lookup str_dec name c)) [
  | inl missing ↦ rw (missing, new_section) refl
  | inr (options, there) ↦ absurd (cc (h name, there, new))
]

set-Seen :
    (before_set : String → Bool) (name option value : String) (seen : List String) (c : Config)
    → before_set value ≡ true
    → elem str_dec name seen ≡ true
    → Seen seen c
    → (options : Dict String String) × (set before_set name option value c
        ≡ (ok tt, insert str_dec name options c))
unfolding set put_option
set-Seen before_set name option value seen c accepted there h =
    elim (Option-cases (lookup str_dec name c)) [
      | inl missing ↦ absurd (cc (h name, missing, there))
      | inr (options, found) ↦ (insert str_dec option value options, rw (accepted, found, set) refl)
    ]

missing-Seen :
    (name : String) (seen : List String) (c : Config)
    → elem str_dec name seen ≡ false
    → Seen seen c
    → lookup str_dec name c ≡ none
missing-Seen name seen c new h = elim (Option-cases (lookup str_dec name c)) [
  | inl missing ↦ missing
  | inr (options, there) ↦ absurd (cc (h name, there, new))
]

raw_missing :
    (name option : String) (c : Config) → lookup str_dec name c ≡ none → raw c name option ≡ none
unfolding raw
raw_missing name option c missing = rw (missing, raw) refl

lookup_nothing : (o : String) → lookup {V = String} str_dec o [] ≡ none
unfolding lookup
lookup_nothing o = refl

section_missing : (name : String) → lookup {V = Dict String String} str_dec name [] ≡ none
unfolding lookup
section_missing name = refl

empty-Seen : Seen [] []
unfolding lookup
empty-Seen name = refl

-- A new section has no option.
new_section-raw :
    (name s o : String) (c : Config)
    → lookup str_dec name c ≡ none
    → raw (insert str_dec name [] c) s o ≡ raw c s o
new_section-raw name s o c missing = elim (str_dec name s) [
  | yes same ↦
      raw-there s o [] (insert str_dec name [] c)
        (lookup-insert str_dec name s [] c ∙ if_pos (str_dec name s) same _ _)
      ∙ lookup_nothing o
      ∙ sym (raw_missing s o c (subst (λ q. lookup str_dec q c ≡ none) same missing))
  | no other ↦
      raw-section s o (insert str_dec name [] c) c
        (lookup-insert str_dec name s [] c ∙ if_neg (str_dec name s) other _ _)
]

module _ (before_set : String → Bool) (env : Environ) where
  -- Whether interpolation takes the text of each setting.
  abbrev pub accepts : List Statement → Bool
  accepts [] = true
  accepts (section name ∷ rest) = accepts rest
  accepts (setting name option from ∷ rest) = before_set (value_of env from) && accepts rest

  -- The text of an option after the statements: the one of the last setting of it, if there is one.
  abbrev pub assigned : String → String → List Statement → Option String → Option String
  assigned s o [] known = known
  assigned s o (section name ∷ rest) known = assigned s o rest known
  assigned s o (setting name option from ∷ rest) known = assigned s o rest (
      if holds (str_dec name s) && holds (str_dec option o)
      then some (value_of env from)
      else known)

  set-assigned :
      (name option value s o : String) (c : Config)
      → (set before_set name option value c).0 ≡ ok tt
      → raw (set before_set name option value c).1 s o
        ≡ (if holds (str_dec name s) && holds (str_dec option o) then some value else raw c s o)
  set-assigned name option value s o c h =
      elim (str_dec name s)
        as (λ d.
          raw (set before_set name option value c).1 s o
          ≡ (if holds d && holds (str_dec option o) then some value else raw c s o)) [
            | no other ↦ raw-set_other before_set name option value s o c (λ e. other e.0)
            | yes same ↦
                elim (str_dec option o)
                  as (λ d.
                    raw (set before_set name option value c).1 s o
                    ≡ (if holds d then some value else raw c s o)) [
                      | no other ↦ raw-set_other before_set name option value s o c (λ e. other e.1)
                      | yes also ↦
                          subst (λ q. raw (set before_set name option value c).1 q o ≡ some value)
                            same
                            (subst
                              (λ q. raw (set before_set name option value c).1 name q ≡ some value)
                              also (raw-set before_set name option value c h))
                    ]
          ]

  execute_all-step :
      (s : Statement) (rest : List Statement) (c d : Config)
      → execute before_set env s c ≡ (ok tt, d)
      → execute_all before_set env (s ∷ rest) c ≡ execute_all before_set env rest d
  unfolding execute_all
  execute_all-step s rest c d h =
      ap
        (λ x. elim x.0 as (λ r. Result (Unit {0}) × Config) [
          | ok u ↦ execute_all before_set env rest x.1
          | raise e ↦ (raise e, x.1)
        ])
        h

  -- The statements ran, and the options have their texts.
  abbrev pub Ran : List Statement → Config → Result (Unit {0}) × Config → Type 0
  Ran rest c x = (x.0 ≡ ok tt) × ((s o : String) → raw x.1 s o ≡ assigned s o rest (raw c s o))

  execute_all-Ran :
      (rest : List Statement) (seen : List String) (c : Config)
      → well_ordered seen rest ≡ true
      → accepts rest ≡ true
      → Seen seen c
      → Ran rest c (execute_all before_set env rest c)
  unfolding execute execute_all
  execute_all-Ran [] seen c ordered accepted h = (refl, λ s o. refl)
  execute_all-Ran (section name ∷ rest) seen c ordered accepted h =
      let new : elem str_dec name seen ≡ false = ground arith in
      let missing = missing-Seen name seen c new h in
      let after =
        execute_all-Ran rest (name ∷ seen) (insert str_dec name [] c) (ground arith) accepted
          (insert-Seen_new name seen [] c h) in
      subst (Ran (section name ∷ rest) c)
        (sym (
          execute_all-step (section name) rest c (insert str_dec name [] c)
            (new_section-Seen name seen c new h)))
        (after.0, λ s o. after.1 s o ∙ ap (assigned s o rest) (new_section-raw name s o c missing))
  execute_all-Ran (setting name option from ∷ rest) seen c ordered accepted h =
      let there : elem str_dec name seen ≡ true = ground arith in
      let done =
        set-Seen before_set name option (value_of env from) seen c (ground arith) there h in
      let d = insert str_dec name done.0 c in
      let after =
        execute_all-Ran rest seen d (ground arith) (ground arith)
          (insert-Seen name seen done.0 c there h) in
      subst (Ran (setting name option from ∷ rest) c)
        (sym (execute_all-step (setting name option from) rest c d done.1))
        (
          after.0,
          λ s o.
              after.1 s o
              ∙ ap (assigned s o rest) (
                  ap (λ x. raw x.1 s o) (sym done.1)
                  ∙ set-assigned name option (value_of env from) s o c (ap (λ x. x.0) done.1)),
        )

  -- Where interpolation takes the text of each setting, the configuration loads without an
  -- exception, whatever it was before, and an option then has the text of the last setting that
  -- is for it, its variable in the environment first, and none where no setting is for it.
  pub load_configuration-assigned :
      (tempdir : String) (c : Config) (s o : String)
      → accepts (statements tempdir) ≡ true
      → ((load_configuration before_set env tempdir c).0 ≡ ok tt)
        × (raw (load_configuration before_set env tempdir c).1 s o
            ≡ assigned s o (statements tempdir) none)
  unfolding load_configuration
  load_configuration-assigned tempdir c s o accepted =
      let ran =
        execute_all-Ran (statements tempdir) [] [] (statements-well_ordered tempdir) accepted
          (λ name. empty-Seen name) in
      (
        ran.0,
        ran.1 s o ∙ ap (assigned s o (statements tempdir)) (raw_missing s o [] (section_missing s)),
      )
