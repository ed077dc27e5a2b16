-- ===== src/Handlers/Preferences.antt =====
-- handlers/processeshandler.py: the header `Prefer` of an execution, and what is said to be applied.
pub mod Applied
use py_qgis_wps.Prelude.{
  ℕ, String, Bool, true, false, ◌==◌, Option, none, some, List, [], ◌∷◌, ◌++◌, map, str_dec, holds,
  if◌then◌else◌,
}
use py_qgis_wps.Prelude.Int.{ℤ, pos, negsuc}
use py_qgis_wps.Prelude.Text.{split, strip, lower, join, starts_with}
use py_qgis_wps.Exceptions.{Exn, index_error, Result, ok, raise}
use py_qgis_wps.Request.{Request}

pub record ExecutePrefs : Type 0 where
  pub execute_async : Bool
  pub timeout : Option ℤ
  pub expire : Option ℤ

abbrev pub no_prefs : ExecutePrefs
no_prefs = record { execute_async = false; timeout = none; expire = none }

-- `pref.split('=')[1]`
unfoldable pub second : List String → Result String
second (a ∷ b ∷ rest) = ok b
second l = raise index_error

-- `kwargs['timeout'] = ...` and `kwargs['expire'] = ...`
unfoldable pub with_timeout : ExecutePrefs → Result ℤ → Result ExecutePrefs
with_timeout p (ok z) = ok (record p { timeout = some z })
with_timeout p (raise e) = raise e

unfoldable pub with_expire : ExecutePrefs → Result ℤ → Result ExecutePrefs
with_expire p (ok z) = ok (record p { expire = some z })
with_expire p (raise e) = raise e

-- `int_of` is `int` of a text.
module _ (int_of : String → Result ℤ) where
  unfoldable pub value_of : String → Result ℤ
  unfolding second split
  value_of pref = elim (second (split "=" pref)) [ raise e ↦ raise e | ok v ↦ int_of v ]

  -- One turn of the loop. The handler catches `TypeError`, which `int` of a text does not raise.
  unfoldable pub add_preference : String → ExecutePrefs → Result ExecutePrefs
  unfolding value_of with_timeout with_expire starts_with
  add_preference pref p =
      if holds (str_dec pref "respond-async")
      then ok (record p { execute_async = true })
      else if starts_with "wait=" pref
      then with_timeout p (value_of pref)
      else if starts_with "x-expire=" pref
      then with_expire p (value_of pref)
      else ok p

  unfoldable pub add_preferences : List String → ExecutePrefs → Result ExecutePrefs
  unfolding add_preference
  add_preferences [] p = ok p
  add_preferences (pref ∷ prefs) p = elim (add_preference pref p) [
    | raise e ↦ raise e
    | ok q ↦ add_preferences prefs q
  ]

  -- `get_execute_prefs`, blanks being spaces
  unfoldable pub get_execute_prefs : Option String → Result ExecutePrefs
  unfolding add_preferences split strip lower
  get_execute_prefs none = ok no_prefs
  get_execute_prefs (some prefer) =
      add_preferences (map (λ p. lower (strip " " p)) (split "," prefer)) no_prefs

-- `timeout == request.timeout`, where the preference may be missing
unfoldable pub same_number : Option ℤ → ℕ → Bool
same_number none n = false
same_number (some (pos m)) n = m == n
same_number (some (negsuc m)) n = false

abbrev pub named : Bool → String → List String
named b name = if b then name ∷ [] else []

-- `_preference_applied`
unfoldable pub preference_applied : ExecutePrefs → Request → String
unfolding same_number join
preference_applied p r = join "," (
    named p.execute_async "respond-async"
    ++ named (same_number p.timeout r.timeout) "wait"
    ++ named (same_number p.expire r.expiration) "x-expire")
