-- ===== src/Ows/Post/Given.antt =====
-- The inputs of a document and those of a URL are the same to a process.
use py_qgis_wps.Prelude.{
  ◌≡◌, refl, sym, ap, ◌∙◌, inl, inr, String, true, Option, none, some, List, [], ◌∷◌, ℕ, suc, Dict,
  map, lookup, insert, str_dec, ite, length, ltb, if◌then◌else◌,
}
use py_qgis_wps.Prelude.Text.{join}
use py_qgis_wps.Exceptions.{Result, Result-cases, ok, raise, missing_parameter_value}
use py_qgis_wps.Json.{Json, get_field}
use py_qgis_wps.Access.{truthy}
use py_qgis_wps.Service.{
  Conversions, Given, InputKind, literal_input, complex_input, bounding_box_input, InputDef,
  validate_input, validate_values, check_input, check_inputs, validate_request_inputs,
  validate_literal, uom_of, validate_complex, format_of, given_data, validate_box, box_crs,
  box_data,
}
use py_qgis_wps.Ows.Kvp.{Io, get_data_from_kvp}
use py_qgis_wps.Ows.Kvp.RoundTrip.{plain_items, print_items, get_data_from_kvp-join}
use py_qgis_wps.Ows.Post.Inputs.{Xml, Inputs, get_inputs_from_xml}
use py_qgis_wps.Ows.Post.Values.{
  io_json, entry_values, kvp_values, post_values, option_map, lookup-kvp_values, lookup-post_values,
  post_json, plain_item, given_for, found, entry-found,
}
use py_qgis_wps.Ows.Post.Literal.{AllLiteral, none_kept, add_elements-found}

module _ (conv : Conversions) where
  validate_input-post_json :
      (kind : InputKind) (k v : String)
      → validate_input conv kind (post_json (("identifier", k) ∷ ("data", v) ∷ []))
        ≡ validate_input conv kind (io_json (("identifier", k) ∷ ("data", v) ∷ []))
  unfolding validate_input validate_literal validate_complex validate_box get_field str_dec uom_of
      truthy format_of given_data box_crs box_data
  validate_input-post_json (literal_input i) k v = refl
  validate_input-post_json (complex_input i) k v = refl
  validate_input-post_json (bounding_box_input i) k v = refl

  SameValues : InputKind → List Io → Type 0
  SameValues kind l =
      validate_values conv kind (map post_json l) ≡ validate_values conv kind (map io_json l)

  SameValues-cons :
      (kind : InputKind) (k v : String) (l : List Io)
      → validate_values conv kind (map post_json l) ≡ validate_values conv kind (map io_json l)
      → SameValues kind ((("identifier", k) ∷ ("data", v) ∷ []) ∷ l)
  unfolding SameValues validate_values
  SameValues-cons kind k v l h = λ i. together (validate_input-post_json kind k v i) (h i)
    where
      together : Result Given → Result (List Given) → Result (List Given)
      together r rest = elim r [
        | raise e ↦ raise e
        | ok g ↦ elim rest [ raise e ↦ raise e | ok gs ↦ ok (g ∷ gs) ]
      ]

  SameValues-given_for :
      (kind : InputKind) (k : String) (ps : List (String × String))
      → SameValues kind (given_for k ps)
  unfolding SameValues
  SameValues-given_for kind k [] = refl
  SameValues-given_for kind k ((j, v) ∷ ps) =
      let rest = SameValues-given_for kind k ps in
      elim (str_dec j k)
        as (λ x.
          SameValues kind
            (ite x ((("identifier", j) ∷ ("data", v) ∷ []) ∷ given_for k ps) (given_for k ps))) [
              | yes e ↦ SameValues-cons kind j v (given_for k ps) rest
              | no n ↦ rest
            ]

length-map : {A : Type 0} (f : A → Json) (l : List A) → length (map f l) ≡ length l
length-map f [] = refl
length-map f (a ∷ l) = ap suc (length-map f l)

module _ (conv : Conversions) (ps : List (String × String)) (r s : Dict String (List Json))
    (posted : (k : String) → lookup str_dec k r ≡ found (map post_json (given_for k ps)))
    (sent : (k : String) → lookup str_dec k s ≡ found (map io_json (given_for k ps))) where
  check_input-same :
      (i : InputDef) (d : Dict String (List Given))
      → check_input conv r i d ≡ check_input conv s i d
  unfolding check_input SameValues
  check_input-same i d =
      rw (posted i.identifier, sent i.identifier, check_input)
        (same (given_for i.identifier ps) (SameValues-given_for conv i.kind i.identifier ps))
    where
      checked : ℕ → Result (List Given) → Result (Dict String (List Given))
      checked n values =
          if ltb n i.min_occurs
          then raise (missing_parameter_value i.identifier)
          else elim values [ raise e ↦ raise e | ok gs ↦ ok (insert str_dec i.identifier gs d) ]

      looked : Option (List Json) → Result (Dict String (List Given))
      looked found_values = elim found_values [
        | none ↦ if ltb 0 i.min_occurs then raise (missing_parameter_value i.identifier) else ok d
        | some inputs ↦ checked (length inputs) (validate_values conv i.kind inputs)
      ]

      same :
          (l : List Io)
          → validate_values conv i.kind (map post_json l)
            ≡ validate_values conv i.kind (map io_json l)
          → looked (found (map post_json l)) ≡ looked (found (map io_json l))
      same [] h = refl
      same (io ∷ l) h =
          λ t. checked ((length-map post_json (io ∷ l) ∙ sym (length-map io_json (io ∷ l))) t) (h t)

  check_inputs-same :
      (defs : List InputDef) (d : Dict String (List Given))
      → check_inputs conv r defs d ≡ check_inputs conv s defs d
  unfolding check_inputs
  check_inputs-same [] d = refl
  check_inputs-same (i ∷ defs) d = elim (Result-cases (check_input conv r i d)) [
    | inl (e, bad) ↦
        let bad' = sym (check_input-same i d) ∙ bad in rw (bad, bad', check_inputs) refl
    | inr (added, good) ↦
        let good' = sym (check_input-same i d) ∙ good in
        rw (good, good', check_inputs) (check_inputs-same defs added)
  ]

-- Texts that are given for identifiers, of which there is at least one and none is empty, for which lxml
-- has no text, or has a separator, reach a
-- process as the same values, or are refused with the same exception, whether they are the literal
-- data of a document, without attributes, or written in a URL; the document is read.
pub validate_request_inputs-same :
    (xml : Xml) (conv : Conversions) (defs : List InputDef) (doc : xml.Element)
    (p : String × String) (ps : List (String × String))
    → plain_items (map plain_item (p ∷ ps)) ≡ true
    → AllLiteral xml (xml.xpath doc "/wps:Execute/wps:DataInputs/wps:Input") (p ∷ ps)
    → (inputs : Inputs) × (get_inputs_from_xml xml doc ≡ ok inputs)
      × (validate_request_inputs conv defs (post_values inputs)
          ≡ validate_request_inputs conv defs (
              kvp_values
                (get_data_from_kvp (some (join ";" (print_items (map plain_item (p ∷ ps))))) true)))
unfolding get_inputs_from_xml validate_request_inputs
validate_request_inputs-same xml conv defs doc p ps plain a =
    let els = xml.xpath doc "/wps:Execute/wps:DataInputs/wps:Input" in
    let url = get_data_from_kvp (some (join ";" (print_items (map plain_item (p ∷ ps))))) true in
    let (inputs, e, look) = add_elements-found xml els (p ∷ ps) (λ _. []) [] a (none_kept xml) in
    (
      inputs,
      e,
      check_inputs-same conv (p ∷ ps) (post_values inputs) (kvp_values url)
          (λ k. lookup-post_values k inputs ∙ look k)
          (λ k.
            lookup-kvp_values k url
            ∙ ap (option_map entry_values)
                (get_data_from_kvp-join (plain_item p) (map plain_item ps) k plain)
            ∙ entry-found (given_for k (p ∷ ps)))
          defs [],
    )
