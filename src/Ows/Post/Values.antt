-- ===== src/Ows/Post/Values.antt =====
-- The inputs that a request was parsed to, as the service finds them: `wps_request.inputs`.
use py_qgis_wps.Prelude.{
  ◌≡◌, refl, sym, ap, ◌∙◌, String, Option, none, some, List, [], ◌∷◌, Dict, map, lookup, str_dec,
  ite, if_pos, if_neg, arith, some-eq,
}
use py_qgis_wps.Json.{Json, str, obj, Fields, end, field}
use py_qgis_wps.Ows.Kvp.{Io, Entry, many, single}
use py_qgis_wps.Ows.Kvp.RoundTrip.{Item, entry, inputs_of}
use py_qgis_wps.Ows.Post.Inputs.{Inputs, option_dec}

-- What a process sees of the inputs of a URL: a dictionary where a list is expected gives its keys.
abbrev pub io_fields : Io → Fields
io_fields [] = end
io_fields ((k, v) ∷ io) = field k (str v) (io_fields io)

abbrev pub io_json : Io → Json
io_json io = obj (io_fields io)

unfoldable pub entry_values : Entry → List Json
entry_values (many l) = map io_json l
entry_values (single io) = map (λ x. str x.0) io

unfoldable pub kvp_values : Dict String Entry → Dict String (List Json)
unfolding entry_values
kvp_values [] = []
kvp_values ((k, e) ∷ d) = (k, entry_values e) ∷ kvp_values d

-- Of the inputs of a document, those that have a key.
unfoldable pub post_values : Inputs → Dict String (List Json)
post_values [] = []
post_values ((none, l) ∷ d) = post_values d
post_values ((some k, l) ∷ d) = (k, l) ∷ post_values d

abbrev pub option_map : {A B : Type 0} → (A → B) → Option A → Option B
option_map f none = none
option_map f (some a) = some (f a)

pub lookup-kvp_values :
    (k : String) (d : Dict String Entry)
    → lookup str_dec k (kvp_values d) ≡ option_map entry_values (lookup str_dec k d)
unfolding kvp_values lookup
lookup-kvp_values k [] = refl
lookup-kvp_values k ((j, e) ∷ d) = ground (arith, lookup-kvp_values k d)

pub ite-some :
    {A : Type 0} (j k : String) (a b : A)
    → ite (option_dec (some j) (some k)) a b ≡ ite (str_dec j k) a b
ite-some j k a b = elim (str_dec j k) [
  | yes e ↦ if_pos _ (ap some e) a b ∙ sym (if_pos _ e a b)
  | no n ↦ if_neg _ (λ h. n (some-eq h)) a b ∙ sym (if_neg _ n a b)
]

missing-other : (k : String) → ◌≡◌ {A = Option String} none (some k) → ⊥
missing-other k h = cc

pub lookup-post_values :
    (k : String) (d : Inputs) → lookup str_dec k (post_values d) ≡ lookup option_dec (some k) d
unfolding post_values lookup
lookup-post_values k [] = refl
lookup-post_values k ((none, l) ∷ d) =
    lookup-post_values k d
    ∙ sym (
        if_neg (option_dec none (some k)) (missing-other k) (some l) (lookup option_dec (some k) d))
lookup-post_values k ((some j, l) ∷ d) =
    ap (ite (str_dec j k) (some l)) (lookup-post_values k d) ∙ sym (ite-some j k _ _)

-- An input of a document, whose attributes are missing, beside that of a URL.
abbrev pub blank_fields : Io → Fields
blank_fields [] = field "uom" (str "") (field "datatype" (str "") end)
blank_fields ((k, v) ∷ io) = field k (str v) (blank_fields io)

abbrev pub post_json : Io → Json
post_json io = obj (blank_fields io)

-- An input that only has a value.
abbrev pub plain_item : String × String → Item
plain_item (k, v) = record { identifier = k; value = v; attributes = [] }

abbrev pub given_for : String → List (String × String) → List Io
given_for k ps = inputs_of k (map plain_item ps)

-- A list that is not empty is found.
abbrev pub found : List Json → Option (List Json)
found [] = none
found (j ∷ js) = some (j ∷ js)

pub entry-found : (l : List Io) → option_map entry_values (entry l) ≡ found (map io_json l)
unfolding entry_values
entry-found [] = refl
entry-found (io ∷ l) = refl
