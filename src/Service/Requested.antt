-- ===== src/Service/Requested.antt =====
-- Which inputs reach a process.
use py_qgis_wps.Prelude.{
  ◌≤◌, ◌≡◌, sym, ap, ◌∙◌, ◌⊎◌, inl, inr, String, Option, none, some, List, [], ◌∷◌, Dict, lookup,
  insert, lookup-insert, str_dec, arith, length, All, ltb, Option-cases, Bool-cases, some-eq,
  if_pos, subst,
}
use py_qgis_wps.Exceptions.{ok, Result-cases, ok-eq}
use py_qgis_wps.Json.{Json}
use py_qgis_wps.Service.{
  Conversions, Given, InputKind, InputDef, validate_input, validate_values, check_input,
  check_inputs, validate_request_inputs,
}

-- The values that a request gives for an identifier.
abbrev pub values_in : Option (List Json) → List Json
values_in none = []
values_in (some l) = l

abbrev pub values_of : String → Dict String (List Json) → List Json
values_of k requested = values_in (lookup str_dec k requested)

-- The input is one of those that the process declares.
pub data DeclaredBy (input : InputDef) : List InputDef → Type 0 where
  first_one : {defs : List InputDef} → DeclaredBy input (input ∷ defs)
  later_one :
      {i : InputDef} {defs : List InputDef} → DeclaredBy input defs → DeclaredBy input (i ∷ defs)

module _ (conv : Conversions) where
  -- The values given to the process beside those of the request: each of them is what the check of
  -- its own value gives, in the same order.
  pub data AllChecked (kind : InputKind) : List Json → List Given → Type 0 where
    no_values : AllChecked kind [] []
    checked :
        {inp : Json} {g : Given} {inputs : List Json} {gs : List Given}
        → validate_input conv kind inp ≡ ok g
        → AllChecked kind inputs gs
        → AllChecked kind (inp ∷ inputs) (g ∷ gs)

  validate_values-AllChecked :
      (kind : InputKind) (inputs : List Json) (gs : List Given)
      → validate_values conv kind inputs ≡ ok gs
      → AllChecked kind inputs gs
  unfolding validate_values
  validate_values-AllChecked kind [] gs h = subst (AllChecked kind []) (ok-eq h) no_values
  validate_values-AllChecked kind (inp ∷ inputs) gs h =
      elim (Result-cases (validate_input conv kind inp)) [
        | inl (e, bad) ↦ absurd (cc (rw (bad, validate_values) at h))
        | inr (g, good) ↦ elim (Result-cases (validate_values conv kind inputs)) [
          | inl (e, bad) ↦ absurd (cc (rw (good, bad, validate_values) at h))
          | inr (rest, fine) ↦
              subst (AllChecked kind (inp ∷ inputs)) (ok-eq (rw (good, fine, validate_values) at h))
                (checked good (validate_values-AllChecked kind inputs rest fine))
        ]
      ]

  -- What one turn adds.
  pub data Turn (requested : Dict String (List Json)) (i : InputDef) (d : Dict String (List Given))
      : Dict String (List Given) → Type 0 where
    optional :
        lookup str_dec i.identifier requested ≡ none → i.min_occurs ≡ 0 → Turn requested i d d
    given :
        (inputs : List Json) (gs : List Given)
        → lookup str_dec i.identifier requested ≡ some inputs
        → i.min_occurs ≤ length inputs
        → validate_values conv i.kind inputs ≡ ok gs
        → Turn requested i d (insert str_dec i.identifier gs d)

  check_input-Turn :
      (requested : Dict String (List Json)) (i : InputDef) (d added : Dict String (List Given))
      → check_input conv requested i d ≡ ok added
      → Turn requested i d added
  unfolding check_input
  check_input-Turn requested i d added h =
      elim (Option-cases (lookup str_dec i.identifier requested)) [
        | inl missing ↦ elim (Bool-cases (ltb 0 i.min_occurs)) [
          | inl needed ↦ absurd (cc (rw (missing, needed, check_input) at h))
          | inr free ↦
              subst (Turn requested i d) (ok-eq (rw (missing, free, check_input) at h))
                (optional missing (ground arith))
        ]
        | inr (inputs, there) ↦ elim (Bool-cases (ltb (length inputs) i.min_occurs)) [
          | inl few ↦ absurd (cc (rw (there, few, check_input) at h))
          | inr enough ↦ elim (Result-cases (validate_values conv i.kind inputs)) [
            | inl (e, bad) ↦ absurd (cc (rw (there, enough, bad, check_input) at h))
            | inr (gs, good) ↦
                subst (Turn requested i d) (ok-eq (rw (there, enough, good, check_input) at h))
                  (given inputs gs there (ground arith) good)
          ]
        ]
      ]

  -- What may be among the inputs of the process.
  pub record IsRequested (requested : Dict String (List Json)) (defs : List InputDef) (k : String)
      (gs : List Given) : Type 0 where
    pub input : InputDef
    pub declared : DeclaredBy input defs
    pub named : input.identifier ≡ k
    pub inputs : List Json
    pub sent : lookup str_dec k requested ≡ some inputs
    pub all_checked : AllChecked input.kind inputs gs

  Turn-enough :
      (requested : Dict String (List Json)) (i : InputDef) (d added : Dict String (List Given))
      → Turn requested i d added
      → i.min_occurs ≤ length (values_of i.identifier requested)
  Turn-enough requested i d _ (optional missing free) = omega (arith, free)
  Turn-enough requested i d _ (given inputs gs there enough good) =
      subst (λ o. i.min_occurs ≤ length (values_in o)) (sym there) enough

  -- An entry after a turn was there before, or it is the one of the input.
  Turn-lookup :
      (requested : Dict String (List Json)) (i : InputDef) (defs : List InputDef)
      (d added : Dict String (List Given)) (k : String) (gs : List Given)
      → Turn requested i d added
      → lookup str_dec k added ≡ some gs
      → (lookup str_dec k d ≡ some gs) ⊎ IsRequested requested (i ∷ defs) k gs
  Turn-lookup requested i defs d _ k gs (optional missing free) h = inl h
  Turn-lookup requested i defs d _ k gs (given inputs new there enough good) h =
      elim (str_dec i.identifier k) [
        | no other ↦ inl (ground (arith, lookup-insert str_dec i.identifier k new d))
        | yes same ↦
            let stored : new ≡ gs = some-eq (
              sym (
                lookup-insert str_dec i.identifier k new d
                ∙ if_pos (str_dec i.identifier k) same _ _)
              ∙ h) in
            inr (record {
              input = i;
              declared = first_one;
              named = same;
              inputs = inputs;
              sent = ap (λ q. lookup str_dec q requested) (sym same) ∙ there;
              all_checked =
                  subst (AllChecked i.kind inputs) stored
                    (validate_values-AllChecked i.kind inputs new good);
            })
      ]

  -- A later input does not take back what an earlier one is.
  IsRequested-later :
      (requested : Dict String (List Json)) (i : InputDef) (defs : List InputDef) (k : String)
      (gs : List Given)
      → IsRequested requested defs k gs
      → IsRequested requested (i ∷ defs) k gs
  IsRequested-later requested i defs k gs r = record {
    input = r.input;
    declared = later_one r.declared;
    named = r.named;
    inputs = r.inputs;
    sent = r.sent;
    all_checked = r.all_checked;
  }

  -- The inputs that a process starts with.
  pub record IsAccepted (requested : Dict String (List Json)) (defs : List InputDef)
      (d accepted : Dict String (List Given)) : Type 0 where
    pub enough : All (λ i. i.min_occurs ≤ length (values_of i.identifier requested)) defs
    pub only :
        (k : String) (gs : List Given)
        → lookup str_dec k accepted ≡ some gs
        → (lookup str_dec k d ≡ some gs) ⊎ IsRequested requested defs k gs

  check_inputs-IsAccepted :
      (requested : Dict String (List Json)) (defs : List InputDef)
      (d accepted : Dict String (List Given))
      → check_inputs conv requested defs d ≡ ok accepted
      → IsAccepted requested defs d accepted
  unfolding check_inputs
  check_inputs-IsAccepted requested [] d accepted h = record {
    enough = tt;
    only = λ k gs there. inl (ap (lookup str_dec k) (ok-eq h) ∙ there);
  }
  check_inputs-IsAccepted requested (i ∷ defs) d accepted h =
      elim (Result-cases (check_input conv requested i d)) [
        | inl (e, bad) ↦ absurd (cc (rw (bad, check_inputs) at h))
        | inr (added, good) ↦
            let turn = check_input-Turn requested i d added good in
            let rest =
              check_inputs-IsAccepted requested defs added accepted
                (rw (good, check_inputs) at h) in
            record {
              enough = (Turn-enough requested i d added turn, rest.enough);
              only = λ k gs there. elim (rest.only k gs there) [
                | inl before ↦ Turn-lookup requested i defs d added k gs turn before
                | inr later ↦ inr (IsRequested-later requested i defs k gs later)
              ];
            }
      ]

  -- If a request passes the check, every input of the process is given at least as often as it
  -- must be, and the process gets nothing but inputs that it declares and that the request has:
  -- for each value of the request, in order, what the check of the declared input makes of it.
  pub validate_request_inputs-IsRequested :
      (defs : List InputDef) (requested : Dict String (List Json))
      (accepted : Dict String (List Given))
      → validate_request_inputs conv defs requested ≡ ok accepted
      → All (λ i. i.min_occurs ≤ length (values_of i.identifier requested)) defs
        × ((k : String) (gs : List Given)
            → lookup str_dec k accepted ≡ some gs
            → IsRequested requested defs k gs)
  unfolding validate_request_inputs lookup
  validate_request_inputs-IsRequested defs requested accepted h =
      let a = check_inputs-IsAccepted requested defs [] accepted h in
      (
        a.enough,
        λ k gs there. elim (a.only k gs there) [
          | inl empty ↦ absurd (cc (empty))
          | inr asked ↦ asked
        ],
      )
