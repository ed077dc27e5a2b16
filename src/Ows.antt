-- ===== src/Ows.antt =====
-- ogc/ows/request.py: the checks of the parameters of an OWS request.
pub mod Checks
pub mod Kvp
pub mod Get
pub mod Post
mod Tests
use py_qgis_wps.Prelude.{
  ℕ, min, String, Bool, true, false, Option, none, some, List, [], ◌∷◌, holds, str_dec,
  if◌then◌else◌,
}
use py_qgis_wps.Prelude.Int.{ℤ, pos, leb_ℤ, max_zero}
use py_qgis_wps.Exceptions.{
  unbound_local_error, invalid_parameter_value, missing_parameter_value, version_negotiation_failed,
  Result, ok, raise,
}
use py_qgis_wps.Exec.{Exec}
use py_qgis_wps.Request.{Request}

-- `version in SCHEMA_VERSIONS`
unfoldable pub check_version : String → Bool
check_version version = holds (str_dec version "1.0.0")

-- An empty text is no version.
unfoldable pub check_and_set_version : Option String → Exec Request (Unit {0})
unfolding check_version
check_and_set_version none r = (raise (missing_parameter_value "version"), r)
check_and_set_version (some version) r =
    if holds (str_dec version "")
    then (raise (missing_parameter_value "version"), r)
    else if check_version version
    then (ok tt, record r { version = some version })
    else (raise (version_negotiation_failed "version"), r)

-- The loop over the accepted versions: the last one that is known.
unfoldable pub last_known : List String → Option String → Option String
unfolding check_version
last_known [] version = version
last_known (aversion ∷ rest) version =
    last_known rest (if check_version aversion then some aversion else version)

-- The versions are those between the commas; `none` is no text, or an empty one.
unfoldable pub check_accepted_versions : Option (List String) → Exec Request (Unit {0})
unfolding last_known check_and_set_version
check_accepted_versions none r = check_and_set_version (some "1.0.0") r
check_accepted_versions (some acceptedversions) r = elim (last_known acceptedversions none) [
  | none ↦ (raise (version_negotiation_failed "version"), r)
  | some version ↦ check_and_set_version (some version) r
]

unfoldable pub check_and_set_language : Option String → Exec Request (Unit {0})
check_and_set_language none r = (ok tt, r)
check_and_set_language (some language) r =
    if holds (str_dec language "")
    then (ok tt, r)
    else if holds (str_dec language "en-US")
    then (ok tt, record r { language = some language })
    else (raise (invalid_parameter_value "language"), r)

-- A text parameter as `int` reads it.
pub data Parameter : Type 0 where
  absent not_integer : Parameter
  integer : ℤ → Parameter

-- The message of the exception reads the number, which a text that is no integer has not set.
unfoldable pub set_timeout : Parameter → Exec Request (Unit {0})
set_timeout absent r = (ok tt, r)
set_timeout not_integer r = (raise unbound_local_error, r)
set_timeout (integer timeout) r =
    if leb_ℤ timeout (pos 0)
    then (raise (invalid_parameter_value "timeout"), r)
    else (ok tt, record r { timeout = min r.timeout (max_zero timeout) })

unfoldable pub set_expiration : Parameter → Exec Request (Unit {0})
set_expiration absent r = (ok tt, r)
set_expiration not_integer r = (raise unbound_local_error, r)
set_expiration (integer expire) r =
    if leb_ℤ expire (pos 0)
    then (raise (invalid_parameter_value "expire"), r)
    else (ok tt, record r { expiration = max_zero expire })
