-- ===== src/Config/Origin.antt =====
-- pyqgiswps/config.py: the reading of an option by the configuration service.
use py_qgis_wps.Prelude.{
  ◌≡◌, refl, sym, ap, ◌∙◌, subst, inl, inr, String, Bool, true, Option, none, some, Option-cases,
}
use py_qgis_wps.Exceptions.{Exn, Result, ok, raise, Result-cases}
use py_qgis_wps.Config.Stored.{Same, raw-set, raw-set_other}
use py_qgis_wps.Config.{
  Config, Environ, varname, raw, set, keep_some, get_fun, read_again, get_env, get_impl,
}

module _ (before_set : String → Bool) where
  module _ {A : Type 0} (convert : Config → String → String → String → Result A) where
    get_fun_there :
        (section option text : String) (fallback : Option A) (c : Config)
        → raw c section option ≡ some text
        → get_fun before_set convert section option fallback c
          ≡ keep_some before_set convert (convert c section option text)
    unfolding get_fun
    get_fun_there section option text fallback c h = rw (h, get_fun) refl

    -- An option that has a text is read from it, and nothing is stored.
    pub get_impl_there :
        (allow_env : Bool) (env : Environ) (section option : String) (fallback : Option A)
        (c : Config) (text : String)
        → raw c section option ≡ some text
        → get_impl before_set convert allow_env env section option fallback c
          ≡ (convert c section option text, c)
    unfolding get_impl get_fun
    get_impl_there allow_env env section option fallback c text h =
        elim (Result-cases (convert c section option text)) [
          | inl (e, p) ↦ rw (h, p, get_impl) refl
          | inr (a, p) ↦ rw (h, p, get_impl) refl
        ]

    read_again_ok :
        (section option value : String) (fallback : Option A) (x : Result (Unit {0}) × Config)
        → x.0 ≡ ok tt
        → raw x.1 section option ≡ some value
        → read_again before_set convert section option fallback x
          ≡ (convert x.1 section option value, x.1)
    unfolding read_again
    read_again_ok section option value fallback (raise e, s) h there = absurd (cc (h))
    read_again_ok section option value fallback (ok u, s) h there =
        elim (Result-cases (convert s section option value)) [
          | inl (e, p) ↦ rw (get_fun_there section option value fallback s there, p) refl
          | inr (a, p) ↦ rw (get_fun_there section option value fallback s there, p) refl
        ]

    get_env_given :
        (env : Environ) (section option value : String) (fallback : Option A) (c : Config)
        → env (varname section option) ≡ some value
        → get_env before_set convert env section option fallback c
          ≡ read_again before_set convert section option fallback
              (set before_set section option value c)
    unfolding get_env
    get_env_given env section option value fallback c given = rw (given, get_env) refl

    get_impl_absent :
        (env : Environ) (section option value : String) (fallback : Option A) (c : Config)
        → raw c section option ≡ none
        → env (varname section option) ≡ some value
        → get_impl before_set convert true env section option fallback c
          ≡ read_again before_set convert section option fallback
              (set before_set section option value c)
    unfolding get_impl get_fun
    get_impl_absent env section option value fallback c missing given =
        rw (missing, get_impl) (get_env_given env section option value fallback c given)

    read_again_raise :
        (section option : String) (fallback : Option A) (x : Result (Unit {0}) × Config) (e : Exn)
        → x.0 ≡ raise e
        → (read_again before_set convert section option fallback x).0 ≡ raise e
    unfolding read_again
    read_again_raise section option fallback (raise e, s) d h = cc (h)
    read_again_raise section option fallback (ok u, s) d h = absurd (cc (h))

    -- The value is read again after the call, whose result is given, and the other options are as
    -- they were before it.
    abbrev Again : String → String → Config → A → Result A × Config → Type 0
    Again section option c a x =
        ((allow_env : Bool) (env : Environ) (fallback : Option A)
          → get_impl before_set convert allow_env env section option fallback x.1 ≡ (ok a, x.1))
        × ((other_section other : String)
            → ¬ Same (section, option) (other_section, other)
            → raw x.1 other_section other ≡ raw c other_section other)

    -- Where the value was read of a text.
    read-Again :
        (section option text : String) (c d : Config) (a : A) (x : Result A × Config)
        → x ≡ (convert d section option text, d)
        → raw d section option ≡ some text
        → ((other_section other : String)
            → ¬ Same (section, option) (other_section, other)
            → raw d other_section other ≡ raw c other_section other)
        → x.0 ≡ ok a
        → Again section option c a x
    read-Again section option text c d a x from there others got =
        subst (Again section option c a) (sym from) (
          (λ allow_env env fallback.
              get_impl_there allow_env env section option fallback d text there
              ∙ ap (λ r. (r, d)) (ap (λ p. p.0) (sym from) ∙ got)),
          others,
        )

    stored-Again :
        (section option value : String) (fallback : Option A) (c : Config) (a : A)
        → (read_again before_set convert section option fallback
            (set before_set section option value c)).0
          ≡ ok a
        → Again section option c a (
            read_again before_set convert section option fallback
              (set before_set section option value c))
    stored-Again section option value fallback c a got =
        elim (Result-cases (set before_set section option value c).0) [
          | inl (e, p) ↦ absurd (
              cc (
                read_again_raise section option fallback (set before_set section option value c) e
                    p,
                got,
              ))
          | inr (u, p) ↦
              read-Again section option value c (set before_set section option value c).1 a _
                (read_again_ok section option value fallback _ p
                  (raw-set before_set section option value c p))
                (raw-set before_set section option value c p)
                (λ other_section other.
                  raw-set_other before_set section option value other_section other c)
                got
        ]

    got-Again :
        (env : Environ) (section option value : String) (fallback : Option A) (c : Config) (a : A)
        → env (varname section option) ≡ some value
        → (get_impl before_set convert true env section option fallback c).0 ≡ ok a
        → Again section option c a (get_impl before_set convert true env section option fallback c)
    got-Again env section option value fallback c a given got =
        elim (Option-cases (raw c section option)) [
          | inr (text, there) ↦
              read-Again section option text c c a _
                (get_impl_there true env section option fallback c text there) there
                (λ other_section other h. refl) got
          | inl missing ↦
              let from = get_impl_absent env section option value fallback c missing given in
              subst (Again section option c a) (sym from)
                (stored-Again section option value fallback c a (ap (λ p. p.0) (sym from) ∙ got))
        ]

    -- Where the variable of an option is in the environment, a value that was read of the option is
    -- the one that is read the next time, in any environment, with any fallback and whether or not
    -- the environment is allowed; this changes nothing more, and the first reading has left the
    -- text of any other option as it was.
    pub get_impl-again :
        (env later_env : Environ) (section option value : String)
        (fallback later_fallback : Option A) (allow_env : Bool) (c : Config) (a : A)
        (other_section other : String)
        → env (varname section option) ≡ some value
        → (get_impl before_set convert true env section option fallback c).0 ≡ ok a
        → ¬ Same (section, option) (other_section, other)
        → (get_impl before_set convert allow_env later_env section option later_fallback
              (get_impl before_set convert true env section option fallback c).1
            ≡ (ok a, (get_impl before_set convert true env section option fallback c).1))
          × (raw
                (get_impl before_set convert true env section option fallback c).1
                other_section
                other
              ≡ raw c other_section other)
    get_impl-again env later_env section option value fallback later_fallback allow_env c a
          other_section other given got different =
        let again = got-Again env section option value fallback c a given got in
        (again.0 allow_env later_env later_fallback, again.1 other_section other different)
