-- ===== src/Config/Stored.antt =====
-- pyqgiswps/config.py: what a setting stores in CONFIG.
use py_qgis_wps.Prelude.{
  ◌≡◌, ◌≢◌, refl, sym, ◌∙◌, subst, String, Bool, true, false, Option, none, some, Dict, lookup,
  insert, lookup-insert, str_dec, if_pos, if_neg, if◌then◌else◌,
}
use py_qgis_wps.Exceptions.{value_error, ok, raise}
use py_qgis_wps.Config.{Config, raw, put_option, set}

-- The same option of the same section.
abbrev pub Same : String × String → String × String → Type 0
Same (section, option) (other_section, other) = (section ≡ other_section) × (option ≡ other)

pub raw-there :
    (section option : String) (options : Dict String String) (c : Config)
    → lookup str_dec section c ≡ some options
    → raw c section option ≡ lookup str_dec option options
unfolding raw
raw-there section option options c there = rw (there, raw) refl

pub raw-section :
    (section option : String) (c d : Config)
    → lookup str_dec section c ≡ lookup str_dec section d
    → raw c section option ≡ raw d section option
unfolding raw
raw-section section option c d same = rw (same, raw) refl

lookup-same :
    {V : Type 0} (k : String) (v : V) (d : Dict String V)
    → lookup str_dec k (insert str_dec k v d) ≡ some v
lookup-same k v d = lookup-insert str_dec k k v d ∙ if_pos (str_dec k k) refl _ _

lookup-other :
    {V : Type 0} (k j : String) (v : V) (d : Dict String V)
    → k ≢ j
    → lookup str_dec j (insert str_dec k v d) ≡ lookup str_dec j d
lookup-other k j v d other = lookup-insert str_dec k j v d ∙ if_neg (str_dec k j) other _ _

put_option-raw :
    (section option value : String) (found_options : Option (Dict String String)) (c : Config)
    → (put_option section option value found_options c).0 ≡ ok tt
    → raw (put_option section option value found_options c).1 section option ≡ some value
unfolding put_option raw
put_option-raw section option value none c h = absurd (cc (h))
put_option-raw section option value (some options) c h =
    raw-there section option (insert str_dec option value options)
      (insert str_dec section (insert str_dec option value options) c)
      (lookup-same section (insert str_dec option value options) c)
    ∙ lookup-same option value options

put_option-raw_other :
    (section option value other_section other : String)
    (found_options : Option (Dict String String)) (c : Config)
    → lookup str_dec section c ≡ found_options
    → ¬ Same (section, option) (other_section, other)
    → raw (put_option section option value found_options c).1 other_section other
      ≡ raw c other_section other
unfolding put_option raw
put_option-raw_other section option value other_section other none c there h = refl
put_option-raw_other section option value other_section other (some options) c there h =
    elim (str_dec section other_section) [
      | yes same ↦
          raw-there other_section other (insert str_dec option value options)
            (insert str_dec section (insert str_dec option value options) c)
            (subst
              (λ q.
                lookup str_dec q (insert str_dec section (insert str_dec option value options) c)
                ≡ some (insert str_dec option value options))
              same (lookup-same section (insert str_dec option value options) c))
          ∙ lookup-other option other value options (λ e. h (same, e))
          ∙ sym (
              raw-there other_section other options c
                (subst (λ q. lookup str_dec q c ≡ some options) same there))
      | no different ↦
          raw-section other_section other
            (insert str_dec section (insert str_dec option value options) c) c
            (lookup-other section other_section (insert str_dec option value options) c different)
    ]

module _ (before_set : String → Bool) where
  -- An option that was set has the text.
  pub raw-set :
      (section option value : String) (c : Config)
      → (set before_set section option value c).0 ≡ ok tt
      → raw (set before_set section option value c).1 section option ≡ some value
  unfolding set
  raw-set section option value c h = go (before_set value) h
    where
      go :
          (b : Bool)
          → (if b
              then put_option section option value (lookup str_dec section c) c
              else (raise value_error, c)).0
            ≡ ok tt
          → raw
              (if b
                then put_option section option value (lookup str_dec section c) c
                else (raise value_error, c)).1
              section
              option
            ≡ some value
      go true h = put_option-raw section option value (lookup str_dec section c) c h
      go false h = absurd (cc (h))

  -- The other options stay.
  pub raw-set_other :
      (section option value other_section other : String) (c : Config)
      → ¬ Same (section, option) (other_section, other)
      → raw (set before_set section option value c).1 other_section other
        ≡ raw c other_section other
  unfolding set
  raw-set_other section option value other_section other c h =
      elim (before_set value)
        as (λ b.
          raw
            (if b
              then put_option section option value (lookup str_dec section c) c
              else (raise value_error, c)).1
            other_section other
          ≡ raw c other_section other) [
            | true ↦
                put_option-raw_other section option value other_section other
                  (lookup str_dec section c) c refl h
            | false ↦ refl
          ]
