-- ===== src/Service/Accepted.antt =====
-- What a literal is that was accepted, and which units can be asked for.
use py_qgis_wps.Prelude.{
  ◌≡◌, ◌≢◌, refl, ap, ◌∙◌, subst, inl, inr, String, true, false, Option, some, List, ◌∷◌, str_dec,
  holds, arith,
}
use py_qgis_wps.Prelude.Int.{ℤ}
use py_qgis_wps.Exceptions.{type_error, ok, raise, Result-cases, ok-eq}
use py_qgis_wps.Json.{Json, str, Fields, get_field}
use py_qgis_wps.Access.{truthy}
use py_qgis_wps.Validator.{
  AllowedValues, range_type, simple, Value, number, validate_allowed_values, validate_range,
}
use py_qgis_wps.Validator.Range.{InRange, validate_bounds-InRange}
use py_qgis_wps.Service.{
  Conversions, LiteralInput, Given, literal, check_valid, set_data, convert, is_code,
  get_supported_uom, uom_of, validate_literal,
}

module _ (conv : Conversions) where
  -- A value that passes the check is not changed by it, and the validator took it.
  check_valid-eq :
      (i : LiteralInput) (a : AllowedValues) (x y : Value)
      → i.allowed_values ≡ some a
      → check_valid conv i x ≡ ok y
      → (x ≡ y) × (validate_allowed_values conv.layer_path a x i.mode ≡ ok true)
  unfolding check_valid
  check_valid-eq i a x y allowed h =
      elim (Result-cases (validate_allowed_values conv.layer_path a x i.mode)) [
        | inl (e, bad) ↦ absurd (cc (rw (allowed, bad, check_valid) at h))
        | inr (true, fine) ↦ (ok-eq (rw (allowed, fine, check_valid) at h), fine)
        | inr (false, bad) ↦ absurd (cc (rw (allowed, bad, check_valid) at h))
      ]

  number-InRange :
      (a : AllowedValues) (x : ℤ)
      → a.allowed_type ≡ range_type
      → validate_allowed_values conv.layer_path a (number x) simple ≡ ok true
      → InRange a.minval a.maxval a.spacing a.range_closure x
  unfolding validate_allowed_values validate_range
  number-InRange a x range h =
      (validate_bounds-InRange a.minval a.maxval a.spacing a.range_closure x).0
        (ok-eq (rw (range, validate_allowed_values) at h))

  set_data-InRange :
      (i : LiteralInput) (a : AllowedValues) (data_ : Option Json) (x : ℤ)
      → i.allowed_values ≡ some a
      → a.allowed_type ≡ range_type
      → i.mode ≡ simple
      → set_data conv i data_ ≡ ok (number x)
      → InRange a.minval a.maxval a.spacing a.range_closure x
  unfolding set_data
  set_data-InRange i a data_ x allowed range mode h =
      elim (Result-cases (convert conv i.data_type data_)) [
        | inl (e, bad) ↦ absurd (cc (rw (bad, set_data) at h))
        | inr (y, made) ↦
            let (same, valid) =
              check_valid-eq i a y (number x) allowed (rw (made, set_data) at h) in
            number-InRange a x range (
              subst (λ v. validate_allowed_values conv.layer_path a v simple ≡ ok true) same
                (subst (λ m. validate_allowed_values conv.layer_path a y m ≡ ok true) mode valid))
      ]

  set_data-Valid :
      (i : LiteralInput) (a : AllowedValues) (data_ : Option Json) (x : Value)
      → i.allowed_values ≡ some a
      → set_data conv i data_ ≡ ok x
      → validate_allowed_values conv.layer_path a x i.mode ≡ ok true
  unfolding set_data
  set_data-Valid i a data_ x allowed h = elim (Result-cases (convert conv i.data_type data_)) [
    | inl (e, bad) ↦ absurd (cc (rw (bad, set_data) at h))
    | inr (y, made) ↦
        let (same, valid) = check_valid-eq i a y x allowed (rw (made, set_data) at h) in
        subst (λ v. validate_allowed_values conv.layer_path a v i.mode ≡ ok true) same valid
  ]

  -- What is accepted for a literal input is a literal, and the validator took it.
  pub validate_literal-Valid :
      (i : LiteralInput) (a : AllowedValues) (inpt : Fields) (g : Given)
      → i.allowed_values ≡ some a
      → validate_literal conv i inpt ≡ ok g
      → (uom : Option String) × (x : Value) × (literal uom x ≡ g)
        × (validate_allowed_values conv.layer_path a x i.mode ≡ ok true)
  unfolding validate_literal
  validate_literal-Valid i a inpt g allowed h =
      elim (Result-cases (uom_of i.supported_uoms (get_field "uom" inpt))) [
        | inl (e, bad) ↦ absurd (cc (rw (bad, validate_literal) at h))
        | inr (unit, good) ↦ elim (Result-cases (set_data conv i (get_field "data" inpt))) [
          | inl (e, bad) ↦ absurd (cc (rw (good, bad, validate_literal) at h))
          | inr (x, fine) ↦ (
            unit,
            x,
            ok-eq (rw (good, fine, validate_literal) at h),
            set_data-Valid i a (get_field "data" inpt) x allowed fine,
          )
        ]
      ]

  abbrev value_in : Value → Given → Value
  value_in d (literal uom x) = x
  value_in d g = d

  -- A number that is accepted for a literal input with a range, in the mode that literals have by
  -- default, lies in the range.
  pub validate_literal-InRange :
      (i : LiteralInput) (a : AllowedValues) (inpt : Fields) (uom : Option String) (x : ℤ)
      → i.allowed_values ≡ some a
      → a.allowed_type ≡ range_type
      → i.mode ≡ simple
      → validate_literal conv i inpt ≡ ok (literal uom (number x))
      → InRange a.minval a.maxval a.spacing a.range_closure x
  unfolding validate_literal
  validate_literal-InRange i a inpt uom x allowed range mode h =
      elim (Result-cases (uom_of i.supported_uoms (get_field "uom" inpt))) [
        | inl (e, bad) ↦ absurd (cc (rw (bad, validate_literal) at h))
        | inr (unit, good) ↦ elim (Result-cases (set_data conv i (get_field "data" inpt))) [
          | inl (e, bad) ↦ absurd (cc (rw (good, bad, validate_literal) at h))
          | inr (y, set) ↦
              let same : y ≡ number x =
                ap (value_in y) (ok-eq (rw (good, set, validate_literal) at h)) in
              set_data-InRange i a (get_field "data" inpt) x allowed range mode (set ∙ ap ok same)
        ]
      ]

  uom_of_other :
      (first unit : String) (uoms : List String)
      → unit ≢ ""
      → first ≢ unit
      → uom_of (first ∷ uoms) (some (str unit)) ≡ raise type_error
  unfolding uom_of get_supported_uom is_code truthy
  uom_of_other first unit uoms set other =
      let not_blank : holds (str_dec unit "") ≡ false = ground (arith, set) in
      let not_first : holds (str_dec first unit) ≡ false = ground (arith, other) in
      rw (not_blank, not_first) refl

  -- A unit that is not the first of the supported ones ends in a `TypeError`, whether it is among
  -- the others or not.
  pub validate_literal-uom :
      (i : LiteralInput) (inpt : Fields) (first unit : String) (uoms : List String)
      → i.supported_uoms ≡ first ∷ uoms
      → get_field "uom" inpt ≡ some (str unit)
      → unit ≢ ""
      → first ≢ unit
      → validate_literal conv i inpt ≡ raise type_error
  unfolding validate_literal
  validate_literal-uom i inpt first unit uoms supported asked set other =
      let refused : uom_of i.supported_uoms (get_field "uom" inpt) ≡ raise type_error =
        ap (λ o. uom_of i.supported_uoms o) asked
        ∙ ap (λ l. uom_of l (some (str unit))) supported
        ∙ uom_of_other first unit uoms set other in
      rw (refused, validate_literal) refl
