-- ===== src/Bridge/Values/Enums.antt =====
-- An accepted value of an enumeration and its index.
use py_qgis_wps.Prelude.{
  ℕ, suc, ◌≡◌, refl, sym, ap, ◌∙◌, subst, inl, inr, String, Bool, true, false, ltb, Option, some,
  List, [], ◌∷◌, map, length, elem, str_dec, Option-cases, arith, holds, ◌||◌, ◌≢◌,
}
use py_qgis_wps.Prelude.Int.{ℤ}
use py_qgis_wps.Exceptions.{Result, ok, Result-cases, ok-eq}
use py_qgis_wps.Json.{Json, obj}
use py_qgis_wps.Validator.{
  Value, text, number, value_dec, simple, validate_allowed_values, validate_value,
}
use py_qgis_wps.Service.{
  Conversions, Given, literal, LiteralInput, literal_input, validate_input, validate_values,
}
use py_qgis_wps.Service.Accepted.{validate_literal-Valid}
use py_qgis_wps.Bridge.Params.{enum_param, Param, arguments, WpsInput, make_literal}
use py_qgis_wps.Bridge.Literals.{
  get_elem?, allowed_texts, enum_default, enum_input, parse_literal_input,
}
use py_qgis_wps.Bridge.Layers.{MapLayer}
use py_qgis_wps.Bridge.Definitions.{
  parse_metadata, with_metadata, make_input, first_input, parse_input_definition,
}
use py_qgis_wps.Bridge.Values.{
  Parameter, index, indices, index_of, option_index, option_indices, one_index, many_indices,
  get_processing_value, text_of, LayerUrl, file_value, special_value, or_raw, input_to_processing,
}

-- The index names the option that is the text.
abbrev pub Names : List String → ℕ → Given → Type 0
Names options n g = (s : String) × (get_elem? options n ≡ some s) × (text_of g ≡ some s)

abbrev pub AllName : List String → List ℕ → List Given → Type 0
AllName options [] [] = Unit
AllName options (n ∷ ns) (g ∷ gs) = Names options n g × AllName options ns gs
AllName options ns gs = ⊥

-- What an enumeration is meant to hand to the algorithm: every index, where it is multiple and has
-- several values, and else the index for the first value.
abbrev pub Chosen : List String → (multiple : Bool) → List Given → Parameter → Type 0
Chosen options true (g ∷ h ∷ gs) (indices ns) = AllName options ns (g ∷ h ∷ gs)
Chosen options true (g ∷ []) (index n) = Names options n g
Chosen options false (g ∷ gs) (index n) = Names options n g
Chosen options multiple gs v = ⊥

holds_no : {P : Type 0} (d : Dec P) → ¬ P → holds d ≡ false
holds_no (yes p) h = absurd (h p)
holds_no (no p) h = refl

no_number : (options : List String) (z : ℤ) → elem value_dec (number z) (map text options) ≡ false
no_number [] z = refl
no_number (o ∷ options) z =
    ap (λ b. b || elem value_dec (number z) (map text options))
      (holds_no (value_dec (text o) (number z)) (λ e. cc (e)))
    ∙ no_number options z

index_of_here : (o s : String) (options : List String) → o ≡ s → index_of (o ∷ options) s ≡ some 0
unfolding index_of
index_of_here o s options same = elim (Option-cases (index_of options s)) [
  | inl missing ↦ rw (missing, index_of) (ground arith)
  | inr (i, there) ↦ rw (there, index_of) (ground arith)
]

index_of_later :
    (o s : String) (options : List String) (n : ℕ)
    → o ≢ s
    → index_of options s ≡ some n
    → index_of (o ∷ options) s ≡ some (suc n)
unfolding index_of
index_of_later o s options n other there = rw (there, index_of) (ground arith)

text-eq : {s t : String} → text s ≡ text t → s ≡ t
text-eq h = cc

index_of-get_elem? :
    (options : List String) (s : String)
    → elem value_dec (text s) (map text options) ≡ true
    → (n : ℕ) × (index_of options s ≡ some n) × (get_elem? options n ≡ some s)
index_of-get_elem? [] s h = absurd (cc (h))
index_of-get_elem? (o ∷ options) s h = elim (str_dec o s) [
  | yes same ↦ (0, index_of_here o s options same, ap some same)
  | no other ↦
      let rest : elem value_dec (text s) (map text options) ≡ true =
        subst (λ d. d || elem value_dec (text s) (map text options) ≡ true)
          (holds_no (value_dec (text o) (text s)) (λ e. other (text-eq e))) h in
      let (n, found, there) = index_of-get_elem? options s rest in
      (suc n, index_of_later o s options n other found, there)
]

value-text :
    (options : List String) (layer_path : String → String) (x : Value)
    → validate_allowed_values layer_path (allowed_texts options) x simple ≡ ok true
    → (s : String) × (x ≡ text s) × (elem value_dec (text s) (map text options) ≡ true)
unfolding validate_allowed_values validate_value allowed_texts
value-text options layer_path (text s) h = (s, refl, ok-eq h)
value-text options layer_path (number z) h = absurd (cc (no_number options z, ok-eq h))

accepted-text :
    (conv : Conversions) (options : List String) (i : LiteralInput) (inp : Json) (g : Given)
    → i.allowed_values ≡ some (allowed_texts options)
    → i.mode ≡ simple
    → validate_input conv (literal_input i) inp ≡ ok g
    → (n : ℕ) × (option_index options g ≡ ok n) × Names options n g
unfolding validate_input option_index
accepted-text conv options i (obj d) g allowed mode h =
    let (uom, x, same, valid) =
      validate_literal-Valid conv i (allowed_texts options) d g allowed h in
    let (s, is_text, known) = value-text options conv.layer_path x (
      subst (λ m. validate_allowed_values conv.layer_path (allowed_texts options) x m ≡ ok true)
        mode valid) in
    let (n, found, there) = index_of-get_elem? options s known in
    subst (λ q. (n : ℕ) × (option_index options q ≡ ok n) × Names options n q) same
      (subst
        (λ y.
          (n : ℕ) × (option_index options (literal uom y) ≡ ok n) × Names options n (literal uom y))
        (sym is_text) (n, rw (found, option_index) refl, (s, there, refl)))
accepted-text conv options i j g allowed mode h = absurd (cc (h))

accepted-texts :
    (conv : Conversions) (options : List String) (i : LiteralInput) (inputs : List Json)
    (gs : List Given)
    → i.allowed_values ≡ some (allowed_texts options)
    → i.mode ≡ simple
    → validate_values conv (literal_input i) inputs ≡ ok gs
    → (ns : List ℕ) × (option_indices options gs ≡ ok ns) × AllName options ns gs
unfolding validate_values option_indices
accepted-texts conv options i [] gs allowed mode h =
    subst (λ l. (ns : List ℕ) × (option_indices options l ≡ ok ns) × AllName options ns l) (ok-eq h)
      ([], refl, tt)
accepted-texts conv options i (inp ∷ inputs) gs allowed mode h =
    elim (Result-cases (validate_input conv (literal_input i) inp)) [
      | inl (e, bad) ↦ absurd (cc (rw (bad, validate_values) at h))
      | inr (g, good) ↦ elim (Result-cases (validate_values conv (literal_input i) inputs)) [
        | inl (e, bad) ↦ absurd (cc (rw (good, bad, validate_values) at h))
        | inr (rest, fine) ↦
            let (n, found, named) = accepted-text conv options i inp g allowed mode good in
            let (ns, all_found, all_named) =
              accepted-texts conv options i inputs rest allowed mode fine in
            subst (λ l. (ns : List ℕ) × (option_indices options l ≡ ok ns) × AllName options ns l)
              (ok-eq (rw (good, fine, validate_values) at h))
              (n ∷ ns, rw (found, all_found, option_indices) refl, (named, all_named))
      ]
    ]

first-Names :
    (options : List String) (g : Given) (gs : List Given) (ns : List ℕ)
    → option_indices options (g ∷ gs) ≡ ok ns
    → AllName options ns (g ∷ gs)
    → (n : ℕ) × (option_index options g ≡ ok n) × Names options n g
unfolding option_indices
first-Names options g gs ns found named = elim (Result-cases (option_index options g)) [
  | inl (e, bad) ↦ absurd (cc (rw (bad, option_indices) at found))
  | inr (n, good) ↦ elim (Result-cases (option_indices options gs)) [
    | inl (e, bad) ↦ absurd (cc (rw (good, bad, option_indices) at found))
    | inr (rest, fine) ↦
        let same = ok-eq (rw (good, fine, option_indices) at found) in
        (n, good, (subst (λ l. AllName options l (g ∷ gs)) (sym same) named).0)
  ]
]

-- The values of an enumeration, accepted one by one, are found among its options.
get_processing_value-Chosen :
    (options : List String) (multiple : Bool) (g : Given) (gs : List Given) (n : ℕ) (ns : List ℕ)
    → option_index options g ≡ ok n
    → option_indices options (g ∷ gs) ≡ ok ns
    → Names options n g
    → AllName options ns (g ∷ gs)
    → (v : Parameter) × (get_processing_value (enum_param options multiple) (g ∷ gs) ≡ ok v)
      × Chosen options multiple (g ∷ gs) v
unfolding get_processing_value one_index many_indices
get_processing_value-Chosen options true g (h ∷ gs) n ns found all_found named all_named =
    let many : ltb 1 (length (g ∷ h ∷ gs)) ≡ true = ground arith in
    (indices ns, rw (many, all_found, many_indices) refl, all_named)
get_processing_value-Chosen options true g [] n ns found all_found named all_named =
    (index n, rw (found, one_index) refl, named)
get_processing_value-Chosen options false g gs n ns found all_found named all_named =
    (index n, rw (found, one_index) refl, named)

-- The input of an enumeration takes the texts of the options.
abbrev enum_literal : List String → LiteralInput
enum_literal options = record {
  data_type = "string";
  supported_uoms = [];
  allowed_values = some (allowed_texts options);
  mode = simple;
}

parse_input_definition-enum :
    (types_map : String → Option String) (context : Option (List MapLayer)) (p : Param)
    (options : List String) (multiple : Bool) (w : WpsInput)
    → p.kind ≡ enum_param options multiple
    → parse_input_definition types_map context p ≡ ok w
    → literal_input (enum_literal options) ≡ w.definition.kind
unfolding parse_input_definition make_input first_input with_metadata parse_metadata
    parse_literal_input enum_input make_literal
parse_input_definition-enum types_map context p options multiple w enum h =
    let made =
      subst
        (λ kind.
          with_metadata types_map context p
            (make_input types_map context kind p.default_value (arguments p))
          ≡ ok w)
        enum h in
    elim (Result-cases (enum_default options p.default_value (arguments p).default)) [
      | inl (e, bad) ↦ absurd (cc (rw (bad, enum_input) at made))
      | inr (default, good) ↦ ap (λ v. v.definition.kind) (ok-eq (rw (good, enum_input) at made))
    ]

module _ (parse_url : String → LayerUrl) (select_features : String → Result (Unit {0}))
    (with_suffix : String → String → Result String)
    (download_ref : String → Given → Result (Unit {0})) where
  input_to_processing-enum :
      (p : Param) (options : List String) (multiple : Bool) (g : Given) (gs : List Given)
      (v : Parameter)
      → p.kind ≡ enum_param options multiple
      → get_processing_value (enum_param options multiple) (g ∷ gs) ≡ ok v
      → input_to_processing parse_url select_features with_suffix download_ref p (g ∷ gs)
        ≡ ok (p.name, v)
  unfolding input_to_processing or_raw special_value file_value
  input_to_processing-enum p options multiple g gs v enum made =
      let turned =
        subst
          (λ kind.
            or_raw parse_url select_features with_suffix download_ref kind (g ∷ gs) (
              special_value parse_url select_features with_suffix download_ref p.name kind (g ∷ gs))
            ≡ ok v)
          (sym enum) made in
      rw (turned, input_to_processing) refl

  -- Where a parameter that is an enumeration became an input, values that the input accepts are
  -- handed to the algorithm without an exception: several values of a multiple parameter as the
  -- indices of options that are these texts, one for each, in order; one value as the index of an
  -- option that is its text; and of several values for a parameter that is not multiple only the
  -- first one, so.
  pub input_to_processing-Chosen :
      (conv : Conversions) (types_map : String → Option String) (context : Option (List MapLayer))
      (p : Param) (options : List String) (multiple : Bool) (w : WpsInput) (inputs : List Json)
      (g : Given) (gs : List Given)
      → p.kind ≡ enum_param options multiple
      → parse_input_definition types_map context p ≡ ok w
      → validate_values conv w.definition.kind inputs ≡ ok (g ∷ gs)
      → (v : Parameter) × (input_to_processing parse_url select_features with_suffix download_ref p
            (g ∷ gs)
          ≡ ok (p.name, v))
        × Chosen options multiple (g ∷ gs) v
  input_to_processing-Chosen conv types_map context p options multiple w inputs g gs enum parsed
        valid =
      let accepted =
        subst (λ kind. validate_values conv kind inputs ≡ ok (g ∷ gs))
          (sym (parse_input_definition-enum types_map context p options multiple w enum parsed))
          valid in
      let (ns, found, named) =
        accepted-texts conv options (enum_literal options) inputs (g ∷ gs) refl refl accepted in
      let (n, first, name) = first-Names options g gs ns found named in
      let (v, made, chosen) =
        get_processing_value-Chosen options multiple g gs n ns first found name named in
      (v, input_to_processing-enum p options multiple g gs v enum made, chosen)
