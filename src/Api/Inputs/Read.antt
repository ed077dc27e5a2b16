-- ===== src/Api/Inputs/Read.antt =====
-- What is read of the inputs of a document.
use py_qgis_wps.Prelude.{
  ℕ, suc, ◌≡◌, refl, sym, ap, ◌∙◌, ◌≢◌, subst, inl, inr, String, some, List, [], ◌∷◌, Dict, lookup,
  str_dec, length, All, Option-cases, Bool-cases, if_pos, if_neg, some-eq,
}
use py_qgis_wps.Exceptions.{Exn, key_error, Result, ok, raise, Result-cases, ok-eq}
use py_qgis_wps.Json.{
  Json, null, str, bool, num, arr, obj, Items, nil, cons, Fields, field, get_field,
}
use py_qgis_wps.Api.Inputs.{
  InputType, literal_type, complex_type, bounding_box_type, other_type, get_or_null, required_field,
  with_part, literal_data, method_of, reference_data, is_base64, value_data, complex_data, box_of,
  input_of, inputs_of_items, key_checked, all_inputs, get_inputs_from_document,
}

-- An input that carries the identifier it stands under.
pub data Tagged (k : String) : Json → Type 0 where
  tagged : (d : Fields) → Tagged k (obj (field "identifier" (str k) d))

-- How many values a part of a document gives.
abbrev pub items_count : Items → ℕ
items_count nil = 0
items_count (cons j l) = suc (items_count l)

abbrev pub count_of : Json → ℕ
count_of (arr l) = items_count l
count_of j = 1

with_part-Tagged :
    (k : String) (r : Result Json) (rest : Json → Fields) (x : Json)
    → with_part r (λ j. field "identifier" (str k) (rest j)) ≡ ok x
    → Tagged k x
unfolding with_part
with_part-Tagged k (raise e) rest x h = absurd (cc (h))
with_part-Tagged k (ok j) rest x h = subst (Tagged k) (ok-eq h) (tagged (rest j))

literal_data-Tagged : (k : String) (j x : Json) → literal_data k j ≡ ok x → Tagged k x
unfolding literal_data
literal_data-Tagged k (obj d) x h = with_part-Tagged k _ _ x h
literal_data-Tagged k null x h = subst (Tagged k) (ok-eq h) (tagged _)
literal_data-Tagged k (bool b) x h = subst (Tagged k) (ok-eq h) (tagged _)
literal_data-Tagged k (num z) x h = subst (Tagged k) (ok-eq h) (tagged _)
literal_data-Tagged k (str s) x h = subst (Tagged k) (ok-eq h) (tagged _)
literal_data-Tagged k (arr l) x h = subst (Tagged k) (ok-eq h) (tagged _)

reference_data-Tagged :
    (k : String) (d : Fields) (x : Json) → reference_data k d ≡ ok x → Tagged k x
unfolding reference_data
reference_data-Tagged k d x h = elim (Result-cases (required_field "href" d)) [
  | inl (e, bad) ↦ absurd (cc (rw (bad, reference_data) at h))
  | inr (href, good) ↦
      with_part-Tagged k (method_of (get_field "method" d)) _ x (rw (good, reference_data) at h)
]

-- What stands under an identifier that was read.
pub record IsRead (typeclasses : Dict String InputType) (doc : Dict String Json) (k : String)
    (l : List Json) : Type 0 where
  pub typeclass : InputType
  pub declared : lookup str_dec k typeclasses ≡ some typeclass
  pub part : Json
  pub sent : lookup str_dec k doc ≡ some part
  pub tags : All (Tagged k) l
  pub all_read : length l ≡ count_of part

key_checked_raises : (e : Exn) (xs : List Json) → key_checked (raise e) ≡ ok xs → ⊥
unfolding key_checked
key_checked_raises key_error xs h = cc (h)
key_checked_raises e xs h = cc (h)

key_checked-eq : (r : Result (List Json)) (xs : List Json) → key_checked r ≡ ok xs → r ≡ ok xs
unfolding key_checked
key_checked-eq (ok l) xs h = h
key_checked-eq (raise e) xs h = absurd (key_checked_raises e xs h)

module _ (typeclasses : Dict String InputType) (doc : Dict String Json) (j k : String) (v : Json)
    (l : List Json) where
  IsRead-later : j ≢ k → IsRead typeclasses doc k l → IsRead typeclasses ((j, v) ∷ doc) k l
  unfolding lookup
  IsRead-later other r = record {
    typeclass = r.typeclass;
    declared = r.declared;
    part = r.part;
    sent = if_neg (str_dec j k) other _ _ ∙ r.sent;
    tags = r.tags;
    all_read = r.all_read;
  }

module _ (b64decode : Json → Result Json) where
  value_data-Tagged :
      (k : String) (v : Json) (d : Fields) (x : Json)
      → value_data b64decode k v d ≡ ok x
      → Tagged k x
  unfolding value_data
  value_data-Tagged k v d x h = elim (Bool-cases (is_base64 (get_or_null "encoding" d))) [
    | inl encoded ↦ with_part-Tagged k (b64decode v) _ x (rw (encoded, value_data) at h)
    | inr plain ↦ subst (Tagged k) (ok-eq (rw (plain, value_data) at h)) (tagged _)
  ]

  complex_value-Tagged :
      (k : String) (v : Json) (d : Fields) (x : Json)
      → get_or_null "value" d ≡ v
      → complex_data b64decode k (obj d) ≡ ok x
      → Tagged k x
  unfolding complex_data
  complex_value-Tagged k null d x e h = reference_data-Tagged k d x (rw (e, complex_data) at h)
  complex_value-Tagged k (bool b) d x e h = value_data-Tagged k _ d x (rw (e, complex_data) at h)
  complex_value-Tagged k (num z) d x e h = value_data-Tagged k _ d x (rw (e, complex_data) at h)
  complex_value-Tagged k (str s) d x e h = value_data-Tagged k _ d x (rw (e, complex_data) at h)
  complex_value-Tagged k (arr l) d x e h = value_data-Tagged k _ d x (rw (e, complex_data) at h)
  complex_value-Tagged k (obj o) d x e h = value_data-Tagged k _ d x (rw (e, complex_data) at h)

  input_of-Tagged :
      (t : InputType) (k : String) (j x : Json) → input_of b64decode t k j ≡ ok x → Tagged k x
  unfolding input_of complex_data box_of
  input_of-Tagged literal_type k j x h = literal_data-Tagged k j x h
  input_of-Tagged complex_type k (obj d) x h =
      complex_value-Tagged k (get_or_null "value" d) d x refl h
  input_of-Tagged bounding_box_type k (obj d) x h = with_part-Tagged k _ _ x h
  input_of-Tagged other_type k j x h = subst (Tagged k) (ok-eq h) (tagged _)
  input_of-Tagged t k j x h = absurd (cc (h))

  items-Tagged :
      (t : InputType) (k : String) (l : Items) (xs : List Json)
      → inputs_of_items b64decode t k l ≡ ok xs
      → All (Tagged k) xs × (length xs ≡ items_count l)
  unfolding inputs_of_items
  items-Tagged t k nil xs h = subst (λ ys. All (Tagged k) ys × (length ys ≡ 0)) (ok-eq h) (tt, refl)
  items-Tagged t k (cons j l) xs h = elim (Result-cases (input_of b64decode t k j)) [
    | inl (e, bad) ↦ absurd (cc (rw (bad, inputs_of_items) at h))
    | inr (x, good) ↦ elim (Result-cases (inputs_of_items b64decode t k l)) [
      | inl (e, bad) ↦ absurd (cc (rw (good, bad, inputs_of_items) at h))
      | inr (ys, fine) ↦
          let rest = items-Tagged t k l ys fine in
          subst (λ zs. All (Tagged k) zs × (length zs ≡ suc (items_count l)))
            (ok-eq (rw (good, fine, inputs_of_items) at h))
            ((input_of-Tagged t k j x good, rest.0), ap suc rest.1)
    ]
  ]

  all_inputs-Tagged :
      (t : InputType) (k : String) (j : Json) (xs : List Json)
      → all_inputs b64decode t k j ≡ ok xs
      → All (Tagged k) xs × (length xs ≡ count_of j)
  unfolding all_inputs
  all_inputs-Tagged t k (arr l) xs h = items-Tagged t k l xs h
  all_inputs-Tagged t k null xs h = items-Tagged t k (cons null nil) xs h
  all_inputs-Tagged t k (bool b) xs h = items-Tagged t k (cons (bool b) nil) xs h
  all_inputs-Tagged t k (num z) xs h = items-Tagged t k (cons (num z) nil) xs h
  all_inputs-Tagged t k (str s) xs h = items-Tagged t k (cons (str s) nil) xs h
  all_inputs-Tagged t k (obj d) xs h = items-Tagged t k (cons (obj d) nil) xs h

  -- If a document is read, every identifier that is read is declared and stands in the document,
  -- and it has one input for each value that the document gives for it, all with this identifier.
  pub get_inputs_from_document-IsRead :
      (typeclasses : Dict String InputType) (doc : Dict String Json) (d : Dict String (List Json))
      (k : String) (l : List Json)
      → get_inputs_from_document b64decode typeclasses doc ≡ ok d
      → lookup str_dec k d ≡ some l
      → IsRead typeclasses doc k l
  unfolding get_inputs_from_document lookup
  get_inputs_from_document-IsRead typeclasses [] d k l h there =
      absurd (cc (ap (lookup str_dec k) (ok-eq h) ∙ there))
  get_inputs_from_document-IsRead typeclasses ((j, v) ∷ doc) d k l h there =
      elim (Option-cases (lookup str_dec j typeclasses)) [
        | inl undeclared ↦
            let r =
              get_inputs_from_document-IsRead typeclasses doc d k l
                (rw (undeclared, get_inputs_from_document) at h) there in
            IsRead-later typeclasses doc j k v l
              (λ same.
                cc (sym (ap (λ q. lookup str_dec q typeclasses) same) ∙ undeclared, r.declared))
              r
        | inr (t, declared) ↦ elim (Result-cases (key_checked (all_inputs b64decode t j v))) [
          | inl (e, bad) ↦ absurd (cc (rw (declared, bad, get_inputs_from_document) at h))
          | inr (xs, good) ↦
              elim (Result-cases (get_inputs_from_document b64decode typeclasses doc)) [
                | inl (e, bad) ↦
                    absurd (cc (rw (declared, good, bad, get_inputs_from_document) at h))
                | inr (later, fine) ↦
                    let found : lookup str_dec k ((j, xs) ∷ later) ≡ some l =
                      ap (lookup str_dec k)
                        (ok-eq (rw (declared, good, fine, get_inputs_from_document) at h))
                      ∙ there in
                    elim (str_dec j k) [
                      | no other ↦ IsRead-later typeclasses doc j k v l other (
                          get_inputs_from_document-IsRead typeclasses doc later k l fine
                            (sym (if_neg (str_dec j k) other _ _) ∙ found))
                      | yes same ↦
                          let stored : xs ≡ l =
                            some-eq (sym (if_pos (str_dec j k) same _ _) ∙ found) in
                          let read =
                            all_inputs-Tagged t j v xs
                              (key_checked-eq (all_inputs b64decode t j v) xs good) in
                          record {
                            typeclass = t;
                            declared = ap (λ q. lookup str_dec q typeclasses) (sym same) ∙ declared;
                            part = v;
                            sent = if_pos (str_dec j k) same _ _;
                            tags =
                                subst (λ q. All (Tagged q) l) same
                                  (subst (All (Tagged j)) stored read.0);
                            all_read = ap length (sym stored) ∙ read.1;
                          }
                    ]
              ]
        ]
      ]
