-- ===== src/Ows/Checks.antt =====
-- How the version and the timeout of an OWS request are settled.
use py_qgis_wps.Prelude.{
  ◌≤◌, ◌≡◌, refl, ◌∙◌, String, true, false, Option, none, some, List, [], ◌∷◌, elem, str_dec, min,
  arith, inl, inr, Bool-cases, if◌then◌else◌,
}
use py_qgis_wps.Prelude.Int.{ℤ, pos, leb_ℤ, max_zero, ◌≤ℤ◌}
use py_qgis_wps.Exceptions.{
  unbound_local_error, invalid_parameter_value, version_negotiation_failed, Result, ok, raise,
}
use py_qgis_wps.Request.{Request}
use py_qgis_wps.Ows.{
  check_version, check_and_set_version, last_known, check_accepted_versions, Parameter, absent,
  not_integer, integer, set_timeout,
}

-- How the versions that a client accepts are negotiated.
pub data Negotiated (r : Request)
    : Option (List String) → Result (Unit {0}) × Request → Type 0 where
  unspecified : Negotiated r none (ok tt, record r { version = some "1.0.0" })
  known :
      (l : List String)
      → elem str_dec "1.0.0" l ≡ true
      → Negotiated r (some l) (ok tt, record r { version = some "1.0.0" })
  unknown :
      (l : List String)
      → elem str_dec "1.0.0" l ≡ false
      → Negotiated r (some l) (raise (version_negotiation_failed "version"), r)

last_known-some : (l : List String) → last_known l (some "1.0.0") ≡ some "1.0.0"
unfolding last_known check_version
last_known-some [] = refl
last_known-some (x ∷ xs) = ground (arith, last_known-some xs)

last_known-elem :
    (l : List String) → last_known l none ≡ (if elem str_dec "1.0.0" l then some "1.0.0" else none)
unfolding last_known check_version
last_known-elem [] = refl
last_known-elem (x ∷ xs) = ground (arith, last_known-some xs, last_known-elem xs)

set_known :
    (r : Request)
    → check_and_set_version (some "1.0.0") r ≡ (ok tt, record r { version = some "1.0.0" })
unfolding check_and_set_version check_version str_dec
set_known r = refl

-- The version is negotiated on every branch: it is 1.0.0 if the client names no version or this one
-- among others, and otherwise the negotiation fails and nothing is set.
pub check_accepted_versions-Negotiated :
    (acceptedversions : Option (List String)) (r : Request)
    → Negotiated r acceptedversions (check_accepted_versions acceptedversions r)
unfolding check_accepted_versions
check_accepted_versions-Negotiated none r = rw (set_known r) unspecified
check_accepted_versions-Negotiated (some l) r = elim (Bool-cases (elem str_dec "1.0.0" l)) [
  | inl here ↦
      let last : last_known l none ≡ some "1.0.0" = last_known-elem l ∙ rw here refl in
      rw (last, check_accepted_versions, set_known r) (known l here)
  | inr missing ↦
      let last : last_known l none ≡ none = last_known-elem l ∙ rw missing refl in
      rw (last, check_accepted_versions) (unknown l missing)
]

-- How the timeout of a request is settled.
pub data Settled (r : Request) : Parameter → Result (Unit {0}) × Request → Type 0 where
  kept : Settled r absent (ok tt, r)
  broken : Settled r not_integer (raise unbound_local_error, r)
  refused :
      (z : ℤ) → z ≤ℤ pos 0 → Settled r (integer z) (raise (invalid_parameter_value "timeout"), r)
  lowered :
      (z : ℤ) (r' : Request)
      → 1 ≤ max_zero z
      → r'.timeout ≤ max_zero z
      → r'.timeout ≤ r.timeout
      → Settled r (integer z) (ok tt, r')

-- A timeout that is an integer is refused unless it is positive, and never raises what the server
-- allows; one that is no integer raises `UnboundLocalError` in place of the refusal.
pub set_timeout-Settled : (p : Parameter) (r : Request) → Settled r p (set_timeout p r)
unfolding set_timeout
set_timeout-Settled absent r = kept
set_timeout-Settled not_integer r = broken
set_timeout-Settled (integer z) r = elim (Bool-cases (leb_ℤ z (pos 0))) [
  | inl e ↦ rw (e, set_timeout) (refused z (ground (arith, e)))
  | inr e ↦
      rw (e, set_timeout)
        (lowered z (record r { timeout = min r.timeout (max_zero z) }) (ground (arith, e))
          (omega arith) (omega arith))
]
