-- ===== src/Bridge/Definitions/Parsed.antt =====
-- Which parameters become inputs.
use py_qgis_wps.Prelude.{
  ◌≡◌, refl, sym, ap, ◌∙◌, subst, inl, inr, String, Bool, true, false, not, ◌&&◌, Option, List, [],
  ◌∷◌, map, keep, Bool-cases, all, ◌||◌, arith, if◌then◌else◌,
}
use py_qgis_wps.Exceptions.{Result, ok}
use py_qgis_wps.Bridge.Params.{Param, arguments, WpsInput}
use py_qgis_wps.Bridge.Layers.{MapLayer}
use py_qgis_wps.Bridge.Definitions.{
  make_input, parse_input_definition, keep_input, parse_input_definitions,
}
use py_qgis_wps.Bridge.Definitions.Outcomes.{
  is_supported, input_ok, Outcome, made, refused, failed, make_input-Outcome, with_metadata-Outcome,
}

cons-eq :
    {x y : String} {xs ys : List String} → x ≡ y → xs ≡ ys → ◌≡◌ {A = List String} (x ∷ xs) (y ∷ ys)
cons-eq h k = cc

module _ (types_map : String → Option String) (context : Option (List MapLayer)) where
  -- The parameters for which there is an input.
  abbrev pub published : Param → Bool
  published p = not p.is_hidden && is_supported p.kind

  abbrev pub good_input : Param → Bool
  good_input p = p.is_hidden || input_ok p.kind p.default_value

  abbrev pub identifiers : List WpsInput → List String
  identifiers = map (λ w. w.definition.identifier)

  -- What the parameters are meant to become.
  abbrev pub Listed : List Param → Result (List WpsInput) → Type 0
  Listed params r =
      (ws : List WpsInput) × (r ≡ ok ws)
      × (identifiers ws ≡ map (λ p. p.name) (keep published params))

  kept_names :
      (p : Param) (params : List Param) (b : Bool)
      → published p ≡ b
      → map (λ q. q.name) (keep published (p ∷ params))
        ≡ map (λ q. q.name) (if b then p ∷ keep published params else keep published params)
  kept_names p params b h =
      ap
        (λ c.
          map (λ (q : Param). q.name)
            (if c then p ∷ keep published params else keep published params))
        h

  keep_input-Listed :
      (p : Param) (params : List Param) (r : Result WpsInput) (rest : Result (List WpsInput))
      → Outcome p.name p.kind p.default_value r
      → p.is_hidden ≡ false
      → input_ok p.kind p.default_value ≡ true
      → Listed params rest
      → Listed (p ∷ params) (keep_input types_map context r rest)
  unfolding keep_input
  keep_input-Listed p params r rest (made w same yet) seen good (ws, done, listed) = (
    w ∷ ws,
    rw done refl,
    cons-eq same listed ∙ sym (kept_names p params true (ground (arith, seen, yet))),
  )
  keep_input-Listed p params r rest (refused none_of) seen good (ws, done, listed) =
      (ws, done, listed ∙ sym (kept_names p params false (ground (arith, seen, none_of))))
  keep_input-Listed p params r rest (failed e bad) seen good listed = absurd (cc (good, bad))

  -- Where the default values of the visible enumerations are good, and the types of data of the
  -- visible parameters of layers are among those that the program names, the parameters become inputs
  -- without an exception: one of the same name for each that is visible and of a type that has a
  -- case, in the order of the parameters.
  pub parse_input_definitions-Listed :
      (params : List Param)
      → all good_input params ≡ true
      → Listed params (parse_input_definitions types_map context params)
  unfolding parse_input_definitions parse_input_definition
  parse_input_definitions-Listed [] h = ([], refl, refl)
  parse_input_definitions-Listed (p ∷ params) h =
      let rest = parse_input_definitions-Listed params (ground arith) in
      elim (Bool-cases p.is_hidden) [
        | inl hidden ↦
            subst
              (λ b. Listed (p ∷ params) (
                if b
                then parse_input_definitions types_map context params
                else keep_input types_map context (parse_input_definition types_map context p)
                    (parse_input_definitions types_map context params)))
              (sym hidden)
              (rest.0, rest.1, rest.2 ∙ sym (kept_names p params false (ground (arith, hidden))))
        | inr seen ↦
            subst
              (λ b. Listed (p ∷ params) (
                if b
                then parse_input_definitions types_map context params
                else keep_input types_map context (parse_input_definition types_map context p)
                    (parse_input_definitions types_map context params)))
              (sym seen)
              (keep_input-Listed p params (parse_input_definition types_map context p)
                (parse_input_definitions types_map context params)
                (with_metadata-Outcome types_map context p
                  (make_input types_map context p.kind p.default_value (arguments p))
                  (make_input-Outcome types_map context p.kind p.default_value (arguments p)))
                seen (ground arith) rest)
      ]
