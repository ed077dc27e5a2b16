-- ===== src/Bridge/Definitions.antt =====
-- pyqgiswps/executors/processingio.py: the inputs of a process from the parameters of an algorithm.
pub mod Outcomes
pub mod Parsed
pub mod Offered
use py_qgis_wps.Prelude.{
  ℕ, String, Bool, Option, none, some, List, [], ◌∷◌, ◌++◌, map, if◌then◌else◌,
}
use py_qgis_wps.Prelude.Text.{append}
use py_qgis_wps.Exceptions.{Exn, type_not_supported, Result, ok, raise}
use py_qgis_wps.Bridge.Params.{Kind, DefaultValue, Param, Arguments, arguments, WpsInput}
use py_qgis_wps.Bridge.Literals.{parse_literal_input}
use py_qgis_wps.Bridge.Layers.{MapLayer, parse_layer_input}
use py_qgis_wps.Bridge.Files.{parse_file_input}

-- `parse_metadata`, on the list that the input shares with the arguments
unfoldable pub parse_metadata : Param → WpsInput → WpsInput
unfolding append
parse_metadata p w = record w {
  metadata = w.metadata ++ map (λ m. (append "processing:meta:" m.0, m.1)) p.metadata;
}

module _ (types_map : String → Option String) (context : Option (List MapLayer)) where
  -- The converters in turn, until one takes the parameter.
  unfoldable pub first_input : Kind → Arguments → Result (Option WpsInput) → Result WpsInput
  unfolding parse_layer_input parse_file_input
  first_input kind k (raise e) = raise e
  first_input kind k (ok (some w)) = ok w
  first_input kind k (ok none) = elim (parse_layer_input kind context k) [
    | raise e ↦ raise e
    | ok (some w) ↦ ok w
    | ok none ↦ elim (parse_file_input types_map kind k) [
      | some w ↦ ok w
      | none ↦ raise type_not_supported
    ]
  ]

  unfoldable pub make_input : Kind → DefaultValue → Arguments → Result WpsInput
  unfolding first_input parse_literal_input
  make_input kind d k = first_input kind k (parse_literal_input kind d k)

  unfoldable pub with_metadata : Param → Result WpsInput → Result WpsInput
  unfolding parse_metadata
  with_metadata p (raise e) = raise e
  with_metadata p (ok w) = ok (parse_metadata p w)

  -- `parse_input_definition`
  unfoldable pub parse_input_definition : Param → Result WpsInput
  unfolding make_input arguments with_metadata
  parse_input_definition p = with_metadata p (make_input p.kind p.default_value (arguments p))

  -- A type that is not supported is logged, and another exception ends the generator.
  unfoldable pub keep_input : Result WpsInput → Result (List WpsInput) → Result (List WpsInput)
  keep_input (ok w) (ok ws) = ok (w ∷ ws)
  keep_input (ok w) (raise e) = raise e
  keep_input (raise type_not_supported) rest = rest
  keep_input (raise e) rest = raise e

  -- `list(parse_input_definitions(alg, context))`
  unfoldable pub parse_input_definitions : List Param → Result (List WpsInput)
  unfolding parse_input_definition keep_input
  parse_input_definitions [] = ok []
  parse_input_definitions (p ∷ params) =
      let rest = parse_input_definitions params in
      if p.is_hidden then rest else keep_input (parse_input_definition p) rest
