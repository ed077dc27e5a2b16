-- ===== src/Api/Execute.antt =====
-- ogc/api/request.py: what an execution request sets, and the outputs that it asks for.
pub mod Outputs
use py_qgis_wps.Prelude.{
  ℕ, min, String, Option, none, some, List, [], ◌∷◌, Dict, lookup, str_dec, leb, if◌then◌else◌,
  Bool,
}
use py_qgis_wps.Prelude.Int.{ℤ, pos, leb_ℤ, max_zero}
use py_qgis_wps.Exceptions.{attribute_error, invalid_parameter_value, Result, ok, raise}
use py_qgis_wps.Exec.{Exec, ◌>>◌, ◌>>=◌}
use py_qgis_wps.Json.{Json, obj, Fields, get_field}
use py_qgis_wps.Request.{Request}
use py_qgis_wps.Access.{truthy}

-- The locator of the exception, which is the number, is left out.
unfoldable pub check_and_set_timeout : Option ℤ → Exec Request (Unit {0})
check_and_set_timeout none r = (ok tt, r)
check_and_set_timeout (some timeout) r =
    if leb_ℤ timeout (pos 0)
    then (raise (invalid_parameter_value ""), r)
    else (ok tt, record r { timeout = min r.timeout (max_zero timeout) })

unfoldable pub check_and_set_expiration : Option ℤ → Exec Request (Unit {0})
check_and_set_expiration none r = (ok tt, r)
check_and_set_expiration (some expire) r =
    if leb_ℤ expire (pos 0)
    then (raise (invalid_parameter_value ""), r)
    else (ok tt, record r { expiration = max_zero expire })

-- The two checks of `execute`.
unfoldable pub check_preferences : Option ℤ → Option ℤ → Exec Request (Unit {0})
unfolding check_and_set_timeout check_and_set_expiration
check_preferences timeout expire = do check_and_set_timeout timeout; check_and_set_expiration expire

pub data OutputType : Type 0 where
  literal_output complex_output bounding_box_output : OutputType

pub record OutputSpec : Type 0 where
  pub identifier : String
  pub uom : Option Json
  pub format : Option Json

-- `outp.get(k)`, where the value counts.
unfoldable pub chosen : String → Fields → Option Json
unfolding get_field truthy
chosen k d = if truthy (get_field k d) then get_field k d else none

unfoldable pub yields :
    String → OutputSpec → Result (Dict String OutputSpec) → Result (Dict String OutputSpec)
yields ident output (raise e) = raise e
yields ident output (ok later) = ok ((ident, output) ∷ later)

-- One turn of `_outputs` for an output of a type, with what the later turns give: a complex output
-- returns from the generator.
unfoldable pub output_of :
    OutputType → String → Json → Result (Dict String OutputSpec) → Result (Dict String OutputSpec)
unfolding chosen yields
output_of literal_output ident (obj d) later =
    yields ident (record { identifier = ident; uom = chosen "uom" d; format = none }) later
output_of complex_output ident (obj d) later = ok []
output_of bounding_box_output ident outp later =
    yields ident (record { identifier = ident; uom = none; format = none }) later
output_of type_ ident outp later = raise attribute_error

unfoldable pub output_turn :
    Dict String OutputType
    → String
    → Json
    → Result (Dict String OutputSpec)
    → Result (Dict String OutputSpec)
unfolding lookup output_of
output_turn typeclasses ident outp later = elim (lookup str_dec ident typeclasses) [
  | none ↦ later
  | some typeclass ↦ output_of typeclass ident outp later
]

-- `get_outputs_from_document`, over the `outputs` of the document.
unfoldable pub get_outputs_from_document :
    Dict String OutputType → Dict String Json → Result (Dict String OutputSpec)
unfolding output_turn
get_outputs_from_document typeclasses [] = ok []
get_outputs_from_document typeclasses ((ident, outp) ∷ rest) =
    output_turn typeclasses ident outp (get_outputs_from_document typeclasses rest)
