-- ===== src/Api/Execute/Outputs.antt =====
-- The limits that a request may set, and the outputs that are read.
use py_qgis_wps.Prelude.{
  ℕ, ◌⊎◌, ◌≤◌, ◌≡◌, refl, ap, String, Option, none, some, [], ◌∷◌, ◌++◌, Dict, lookup, str_dec,
  arith, inl, inr, Bool-cases, min,
}
use py_qgis_wps.Prelude.Int.{ℤ, pos, leb_ℤ, max_zero, ◌≤ℤ◌}
use py_qgis_wps.Exceptions.{Result, ok, raise, invalid_parameter_value}
use py_qgis_wps.Json.{Json, obj, Fields}
use py_qgis_wps.Request.{Request}
use py_qgis_wps.Api.Execute.{
  check_and_set_timeout, OutputType, complex_output, output_of, output_turn,
  get_outputs_from_document,
}

-- How the timeout of a request is set, from a parameter and the time that the server allows.
pub data Limited (r : Request) : Option ℤ → Result (Unit {0}) × Request → Type 0 where
  kept : Limited r none (ok tt, r)
  refused : (z : ℤ) → z ≤ℤ pos 0 → Limited r (some z) (raise (invalid_parameter_value ""), r)
  lowered :
      (z : ℤ) (r' : Request)
      → 1 ≤ max_zero z
      → r'.timeout ≤ max_zero z
      → r'.timeout ≤ r.timeout
      → (r'.timeout ≡ max_zero z) ⊎ (r'.timeout ≡ r.timeout)
      → r'.expiration ≡ r.expiration
      → Limited r (some z) (ok tt, r')

min-either : (a b : ℕ) → (min a b ≡ b) ⊎ (min a b ≡ a)
min-either a b = ground arith

-- A timeout that is not positive is refused and changes nothing. For a positive one the timeout of
-- the request becomes the smaller of it and of what the server allows, and the expiration is kept.
-- Without one the request is kept.
pub check_and_set_timeout-Limited :
    (param : Option ℤ) (r : Request) → Limited r param (check_and_set_timeout param r)
unfolding check_and_set_timeout
check_and_set_timeout-Limited none r = kept
check_and_set_timeout-Limited (some z) r = elim (Bool-cases (leb_ℤ z (pos 0))) [
  | inl e ↦ rw (e, check_and_set_timeout) (refused z (ground (arith, e)))
  | inr e ↦
      rw (e, check_and_set_timeout)
        (lowered z (record r { timeout = min r.timeout (max_zero z) }) (ground (arith, e))
          (omega arith) (omega arith) (min-either r.timeout (max_zero z)) refl)
]

-- A complex output, given as an object, ends the reading: it is left out itself, and so is every
-- output after it.
pub get_outputs_from_document-append :
    (typeclasses : Dict String OutputType) (before after : Dict String Json) (ident : String)
    (d : Fields)
    → lookup str_dec ident typeclasses ≡ some complex_output
    → get_outputs_from_document typeclasses (before ++ (ident, obj d) ∷ after)
      ≡ get_outputs_from_document typeclasses before
unfolding get_outputs_from_document
get_outputs_from_document-append typeclasses [] after ident d e =
    unfold output_turn output_of in rw (e, output_turn) refl
get_outputs_from_document-append typeclasses ((j, o) ∷ before) after ident d e =
    ap (output_turn typeclasses j o)
      (get_outputs_from_document-append typeclasses before after ident d e)
