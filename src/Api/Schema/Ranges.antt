-- ===== src/Api/Schema/Ranges.antt =====
-- The published schema of a range and its validation.
use py_qgis_wps.Prelude.{
  ℕ, ◌*◌, ◌≡◌, ap, ◌↔◌, Bool, true, false, Option, none, some, is_some, ◌&&◌, subst, sym,
}
use py_qgis_wps.Prelude.Int.{ℤ, abs, ◌≤ℤ◌, ◌<ℤ◌}
use py_qgis_wps.Exceptions.{ok, ok-eq}
use py_qgis_wps.Validator.{
  AllowedValues, range_type, number, RangeClosureType, open_range, closed_range, open_closed,
  closed_open, validate_range, validate_bounds,
}
use py_qgis_wps.Validator.Range.{InRange, any_value, validate_bounds-InRange}
use py_qgis_wps.Api.Schema.{
  Schema, opens_below, opens_above, counted_spacing, range_schema, ogcapi_schema,
}

-- What the keywords of draft 4 of JSON Schema mean for an integer.
abbrev AtLeast : Option ℤ → Bool → ℤ → Type 0
AtLeast none exclusive x = Unit
AtLeast (some m) true x = m <ℤ x
AtLeast (some m) false x = m ≤ℤ x

abbrev AtMost : Option ℤ → Bool → ℤ → Type 0
AtMost none exclusive x = Unit
AtMost (some m) true x = x <ℤ m
AtMost (some m) false x = x ≤ℤ m

abbrev IsMultiple : Option ℤ → ℤ → Type 0
IsMultiple none x = Unit
IsMultiple (some s) x = (k : ℕ) × (abs x ≡ abs s * k)

abbrev pub Satisfies : Schema → ℤ → Type 0
Satisfies s x =
    AtLeast s.minimum s.exclusive_minimum x
    × AtMost s.maximum s.exclusive_maximum x
    × IsMultiple s.multiple_of x

range_both :
    (lo hi : ℤ) (closure : RangeClosureType) (x : ℤ)
    → (AtLeast (some lo) (opens_below closure) x
        × AtMost (some hi) (opens_above closure) x
        × Unit {0})
      ↔ InRange (some lo) (some hi) none closure x
unfolding opens_below opens_above
range_both lo hi open_range x = (λ s. (s.0, s.1, any_value), λ r. (r.0, r.1, tt))
range_both lo hi closed_range x = (λ s. (s.0, s.1, any_value), λ r. (r.0, r.1, tt))
range_both lo hi open_closed x = (λ s. (s.0, s.1, any_value), λ r. (r.0, r.1, tt))
range_both lo hi closed_open x = (λ s. (s.0, s.1, any_value), λ r. (r.0, r.1, tt))

range_below :
    (lo : ℤ) (closure : RangeClosureType) (x : ℤ)
    → (AtLeast (some lo) (opens_below closure) x × Unit {0} × Unit {0})
      ↔ InRange (some lo) none none closure x
unfolding opens_below
range_below lo open_range x = (λ s. (s.0, any_value), λ r. (r.0, tt, tt))
range_below lo closed_range x = (λ s. (s.0, any_value), λ r. (r.0, tt, tt))
range_below lo open_closed x = (λ s. (s.0, any_value), λ r. (r.0, tt, tt))
range_below lo closed_open x = (λ s. (s.0, any_value), λ r. (r.0, tt, tt))

range_above :
    (hi : ℤ) (closure : RangeClosureType) (x : ℤ)
    → (Unit {0} × AtMost (some hi) (opens_above closure) x × Unit {0})
      ↔ InRange none (some hi) none closure x
unfolding opens_above
range_above hi open_range x = (λ s. s.1, λ r. (tt, r, tt))
range_above hi closed_range x = (λ s. s.1, λ r. (tt, r, tt))
range_above hi open_closed x = (λ s. s.1, λ r. (tt, r, tt))
range_above hi closed_open x = (λ s. s.1, λ r. (tt, r, tt))

-- The schema of bounds without spacing.
bounds_schema :
    (lo hi : Option ℤ) (closure : RangeClosureType) (x : ℤ)
    → (AtLeast lo (is_some lo && opens_below closure) x
        × AtMost hi (is_some hi && opens_above closure) x
        × Unit {0})
      ↔ InRange lo hi none closure x
bounds_schema (some lo) (some hi) closure x = range_both lo hi closure x
bounds_schema (some lo) none closure x = range_below lo closure x
bounds_schema none (some hi) closure x = range_above hi closure x
bounds_schema none none closure x = (λ s. tt, λ u. (tt, tt, tt))

bounds_taken :
    (lo hi : Option ℤ) (closure : RangeClosureType) (x : ℤ)
    → (AtLeast lo (is_some lo && opens_below closure) x
        × AtMost hi (is_some hi && opens_above closure) x
        × Unit {0})
      ↔ (ok (validate_bounds lo hi none closure x) ≡ ok true)
bounds_taken lo hi closure x =
    let schema = bounds_schema lo hi closure x in
    let taken = validate_bounds-InRange lo hi none closure x in
    (λ s. ap ok (taken.1 (schema.0 s)), λ h. schema.1 (taken.0 (ok-eq h)))

-- For a range without spacing, an integer satisfies the schema that is published for the input
-- exactly if the validation of a request takes it.
pub ogcapi_schema-validate_range :
    (a : AllowedValues) (s : Schema) (x : ℤ)
    → a.allowed_type ≡ range_type
    → a.spacing ≡ none
    → ogcapi_schema a ≡ ok s
    → Satisfies s x ↔ (validate_range a (number x) ≡ ok true)
unfolding ogcapi_schema range_schema counted_spacing validate_range
ogcapi_schema-validate_range a s x range spacing h =
    subst (λ z. Satisfies z x ↔ (validate_range a (number x) ≡ ok true))
      (ok-eq (rw (range, ogcapi_schema) at h))
      (subst
        (λ p.
          (AtLeast a.minval (is_some a.minval && opens_below a.range_closure) x
            × AtMost a.maxval (is_some a.maxval && opens_above a.range_closure) x
            × IsMultiple (counted_spacing p) x)
          ↔ (ok (validate_bounds a.minval a.maxval p a.range_closure x) ≡ ok true))
        (sym spacing) (bounds_taken a.minval a.maxval a.range_closure x))
