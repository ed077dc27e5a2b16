-- ===== src/Ows/Post/Literal.antt =====
-- What is read of a document whose inputs are literal data.
use py_qgis_wps.Prelude.{
  ◌≡◌, refl, sym, ap, ◌∙◌, String, Option, none, some, List, [], ◌∷◌, ◌++◌, map, lookup,
  lookup-insert, str_dec, ite,
}
use mathlib.Core.List.{append_assoc, append-nil}
use py_qgis_wps.Exceptions.{Result, ok, raise}
use py_qgis_wps.Json.{Json}
use py_qgis_wps.Ows.Kvp.{Io}
use py_qgis_wps.Ows.Post.Inputs
use py_qgis_wps.Ows.Post.Inputs.{
  Xml, Inputs, option_dec, inputs_of_element, only_element, append_inputs, add_element,
  add_elements, get_inputs_from_xml,
}
use py_qgis_wps.Ows.Post.Values.{ite-some, post_json, given_for, found}

lookup-append_inputs :
    (k j : String) (l : List Json) (x : Json) (d : Inputs)
    → lookup option_dec (some j) d ≡ found l
    → lookup option_dec (some k) (append_inputs (some j) (x ∷ []) d)
      ≡ ite (str_dec j k) (found (l ++ x ∷ [])) (lookup option_dec (some k) d)
unfolding append_inputs
lookup-append_inputs k j [] x d h =
    rw (h, append_inputs) (lookup-insert option_dec (some j) (some k) (x ∷ []) d ∙ ite-some j k _ _)
lookup-append_inputs k j (y ∷ l) x d h =
    rw (h, append_inputs)
      (lookup-insert option_dec (some j) (some k) (y ∷ (l ++ x ∷ [])) d ∙ ite-some j k _ _)

module _ (xml : Xml) where
  open xml use {Element, text, attrib, xpath}

  -- An element that gives a text for an identifier, as literal data without attributes.
  pub record IsLiteral (el : Element) (k v : String) : Type 0 where
    pub identifier : Element
    pub identified : xpath el "./ows:Identifier" ≡ identifier ∷ []
    pub named : text identifier ≡ some k
    pub literal : Element
    pub others : List Element
    pub found_literal : xpath el "./wps:Data/wps:LiteralData" ≡ literal ∷ others
    pub value : text literal ≡ some v
    pub no_uom : attrib literal "uom" ≡ none
    pub no_datatype : attrib literal "datatype" ≡ none

  -- The elements give the texts, in their order.
  abbrev pub AllLiteral : List Element → List (String × String) → Type 0
  AllLiteral [] [] = Unit
  AllLiteral [] (p ∷ ps) = ⊥
  AllLiteral (el ∷ els) [] = ⊥
  AllLiteral (el ∷ els) ((k, v) ∷ ps) = IsLiteral el k v × AllLiteral els ps

  IsLiteral-read :
      (el : Element) (k v : String)
      → IsLiteral el k v
      → inputs_of_element xml (some k) el
        ≡ ok (post_json (("identifier", k) ∷ ("data", v) ∷ []) ∷ [])
  unfolding inputs_of_element Inputs.literal_input Inputs.text_json Inputs.str_of Inputs.or_default
  IsLiteral-read el k v h =
      rw (h.found_literal, inputs_of_element, h.value, h.no_uom, h.no_datatype) refl

  IsLiteral-added :
      (el : Element) (k v : String) (d : Inputs)
      → IsLiteral el k v
      → add_element xml el d
        ≡ ok (append_inputs (some k) (post_json (("identifier", k) ∷ ("data", v) ∷ []) ∷ []) d)
  unfolding add_element only_element
  IsLiteral-added el k v d h =
      let read = ap (λ t. inputs_of_element xml t el) h.named ∙ IsLiteral-read el k v h in
      let turned : add_element xml el d
          ≡ turn (inputs_of_element xml (text h.identifier) el) (text h.identifier) =
        rw (h.identified, add_element) refl in
      turned ∙ (λ i. turn (read i) (h.named i))
    where
      turn : Result (List Json) → Option String → Result Inputs
      turn r t = elim r [ raise e ↦ raise e | ok l ↦ ok (append_inputs t l d) ]

  -- Every key holds the values that a function gives.
  abbrev pub Keeps : (String → List Json) → Inputs → Type 0
  Keeps f d = (k : String) → lookup option_dec (some k) d ≡ found (f k)

  abbrev then_given : String → String → (String → List Json) → String → List Json
  then_given j v f k =
      ite (str_dec j k) (f k ++ post_json (("identifier", j) ∷ ("data", v) ∷ []) ∷ []) (f k)

  append_inputs-Keeps :
      (j v : String) (f : String → List Json) (d : Inputs)
      → Keeps f d
      → Keeps
          (then_given j v f)
          (append_inputs (some j) (post_json (("identifier", j) ∷ ("data", v) ∷ []) ∷ []) d)
  append_inputs-Keeps j v f d h k =
      let x = post_json (("identifier", j) ∷ ("data", v) ∷ []) in
      lookup-append_inputs k j (f j) x d (h j)
      ∙ elim (str_dec j k)
          as (λ y.
            ite y (found (f j ++ x ∷ [])) (lookup option_dec (some k) d)
            ≡ found (ite y (f k ++ x ∷ []) (f k))) [
              | yes e ↦ ap (λ i. found (f i ++ x ∷ [])) e
              | no n ↦ h k
            ]

  then_given-append :
      (j v k : String) (f : String → List Json) (ps : List (String × String))
      → then_given j v f k ++ map post_json (given_for k ps)
        ≡ f k ++ map post_json (given_for k ((j, v) ∷ ps))
  then_given-append j v k f ps =
      let io : Io = ("identifier", j) ∷ ("data", v) ∷ [] in
      elim (str_dec j k)
        as (λ y.
          ite y (f k ++ post_json io ∷ []) (f k) ++ map post_json (given_for k ps)
          ≡ f k ++ map post_json (ite y (io ∷ given_for k ps) (given_for k ps))) [
            | yes e ↦ append_assoc (f k) (post_json io ∷ []) (map post_json (given_for k ps))
            | no n ↦ refl
          ]

  pub none_kept : Keeps (λ _. []) []
  unfolding lookup
  none_kept k = refl

  pub add_elements-found :
      (els : List Element) (ps : List (String × String)) (f : String → List Json) (d : Inputs)
      → AllLiteral els ps
      → Keeps f d
      → (added : Inputs) × (add_elements xml els d ≡ ok added)
        × ((k : String)
            → lookup option_dec (some k) added ≡ found (f k ++ map post_json (given_for k ps)))
  unfolding add_elements
  add_elements-found [] [] f d a h = (d, refl, λ k. h k ∙ ap found (sym (append-nil (f k))))
  add_elements-found [] (p ∷ ps) f d a h = absurd a
  add_elements-found (el ∷ els) [] f d a h = absurd a
  add_elements-found (el ∷ els) ((j, v) ∷ ps) f d (l, a) h =
      let x = post_json (("identifier", j) ∷ ("data", v) ∷ []) in
      let d' = append_inputs (some j) (x ∷ []) d in
      let (added, e, look) =
        add_elements-found els ps (then_given j v f) d' a (append_inputs-Keeps j v f d h) in
      (
        added,
        rw (IsLiteral-added el j v d l, add_elements) e,
        λ k. look k ∙ ap found (then_given-append j v k f ps),
      )
