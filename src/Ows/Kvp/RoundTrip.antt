-- ===== src/Ows/Kvp/RoundTrip.antt =====
-- Inputs that are written as text are read back.
use Prim.Native.Char.{Char, code}
use py_qgis_wps.Prelude.{
  String, ◌≡◌, refl, sym, ap, ◌∙◌, Bool, true, false, ◌&&◌, ◌==◌, Option, none, some, List, [], ◌∷◌,
  ◌++◌, Dict, lookup, insert, lookup-insert, str_dec, arith, ite, subst,
}
use mathlib.Core.List.{append_assoc, append-nil}
use py_qgis_wps.Prelude.Text.{append, join, free, all_free, split-free, split-append, split-join}
use py_qgis_wps.Ows.Kvp.{
  Io, Entry, many, pair, set_attribute, set_attributes, read_fields, read_item, append_io,
  store_item, add_item, add_items, get_data_from_kvp,
}

-- An input as a client means it.
pub record Item : Type 0 where
  pub identifier : String
  pub value : String
  pub attributes : List (String × String)

-- None of the characters that separate inputs.
abbrev pub plain : String → Bool
plain s = free ";" s && (free "@" s && free "=" s)

abbrev pub plain_pairs : List (String × String) → Bool
plain_pairs [] = true
plain_pairs ((a, v) ∷ rest) = (plain a && plain v) && plain_pairs rest

abbrev pub plain_items : List Item → Bool
plain_items [] = true
plain_items (i ∷ is) = plain_pairs ((i.identifier, i.value) ∷ i.attributes) && plain_items is

-- The text of inputs: `identifier=value@attribute=value;...`
abbrev pub print_pair : String → String → String
print_pair a v = append a (String.◌∷◌ "=" v)

abbrev pub print_pairs : List (String × String) → List String
print_pairs [] = []
print_pairs ((a, v) ∷ rest) = print_pair a v ∷ print_pairs rest

abbrev pub print_item : Item → String
print_item i = join "@" (print_pair i.identifier i.value ∷ print_pairs i.attributes)

abbrev pub print_items : List Item → List String
print_items [] = []
print_items (i ∷ is) = print_item i ∷ print_items is

-- The key under which an attribute is meant to stand: `xlink:href` is the reference of a datum.
abbrev pub meant_name : String → String
meant_name a = ite (str_dec a "xlink:href") "href" a

-- The dictionary that is meant by an input: the identifier, the value, and every attribute, which
-- takes the place of what stands under its name.
abbrev pub set_all : List (String × String) → Io → Io
set_all [] io = io
set_all ((a, v) ∷ rest) io = set_all rest (insert str_dec (meant_name a) v io)

abbrev pub io_of : Item → Io
io_of i = set_all i.attributes (("identifier", i.identifier) ∷ ("data", i.value) ∷ [])

free-append : (sep : Char) (s t : String) → free sep (append s t) ≡ free sep s && free sep t
unfolding append
free-append sep String.[] t = refl
free-append sep (String.◌∷◌ c s) t = ground (arith, free-append sep s t)

pair-print_pair :
    (a v : String) → free "=" a ≡ true → free "=" v ≡ true → pair (print_pair a v) ≡ some (a, v)
unfolding pair
pair-print_pair a v h k = rw (split-append "=" a v h, split-free "=" v k) refl

set_attributes-pair :
    (attr : String) (rest : List String) (p : String × String) (io : Io)
    → pair attr ≡ some p
    → set_attributes (attr ∷ rest) io ≡ set_attributes rest (set_attribute p.0 p.1 io)
unfolding set_attributes pair
set_attributes-pair attr rest p io h = rw (h, set_attributes) refl

read_fields-pair :
    (first : String) (attrs : List String) (p : String × String) (io : Io)
    → pair first ≡ some p
    → set_attributes attrs (("identifier", p.0) ∷ ("data", p.1) ∷ []) ≡ some io
    → read_fields (first ∷ attrs) ≡ some (p.0, io)
unfolding read_fields pair
read_fields-pair first attrs p io h k = ground arith

set_attribute-meant_name :
    (a v : String) (io : Io) → set_attribute a v io ≡ insert str_dec (meant_name a) v io
unfolding set_attribute
set_attribute-meant_name a v io = elim (str_dec a "xlink:href") [
  | yes p ↦ ground arith
  | no n ↦ ground arith
]

set_attributes-print_pairs :
    (l : List (String × String)) (io : Io)
    → plain_pairs l ≡ true
    → set_attributes (print_pairs l) io ≡ some (set_all l io)
set_attributes-print_pairs [] io h = unfold set_attributes in refl
set_attributes-print_pairs ((a, v) ∷ rest) io h =
    set_attributes-pair (print_pair a v) (print_pairs rest) (a, v) io
      (pair-print_pair a v (ground arith) (ground arith))
    ∙ ap (set_attributes (print_pairs rest)) (set_attribute-meant_name a v io)
    ∙ set_attributes-print_pairs rest (insert str_dec (meant_name a) v io) (ground arith)

free-print_pair :
    (sep : Char) (a v : String)
    → free sep a ≡ true
    → free sep v ≡ true
    → (code "=" == code sep) ≡ false
    → free sep (print_pair a v) ≡ true
free-print_pair sep a v h k n = ground (arith, free-append sep a (String.◌∷◌ "=" v))

all_free-print_pairs :
    (l : List (String × String)) → plain_pairs l ≡ true → all_free "@" (print_pairs l) ≡ true
all_free-print_pairs [] h = refl
all_free-print_pairs ((a, v) ∷ rest) h =
    ground (arith, free-print_pair "@" a v, all_free-print_pairs rest)

read_item-print_item :
    (i : Item)
    → plain_pairs ((i.identifier, i.value) ∷ i.attributes) ≡ true
    → read_item (print_item i) ≡ some (i.identifier, io_of i)
unfolding read_item
read_item-print_item i h =
    rw
      (split-join "@" (print_pair i.identifier i.value) (print_pairs i.attributes)
        (all_free-print_pairs ((i.identifier, i.value) ∷ i.attributes) h))
      (read_fields-pair (print_pair i.identifier i.value) (print_pairs i.attributes)
        (i.identifier, i.value) (io_of i)
        (pair-print_pair i.identifier i.value (ground arith) (ground arith))
        (set_attributes-print_pairs i.attributes
          (("identifier", i.identifier) ∷ ("data", i.value) ∷ []) (ground arith)))

-- The inputs of an identifier, in the order they are written.
abbrev pub inputs_of : String → List Item → List Io
inputs_of k [] = []
inputs_of k (i ∷ is) =
    let rest = inputs_of k is in ite (str_dec i.identifier k) (io_of i ∷ rest) rest

-- A list that is not empty is an entry.
abbrev pub entry : List Io → Option Entry
entry [] = none
entry (io ∷ l) = some (many (io ∷ l))

-- Every key holds the list that a function gives.
abbrev pub Holds : (String → List Io) → Dict String Entry → Type 0
Holds f d = (k : String) → lookup str_dec k d ≡ entry (f k)

append_io-entry : (io : Io) (l : List Io) → append_io io (entry l) ≡ some (many (l ++ io ∷ []))
unfolding append_io
append_io-entry io [] = refl
append_io-entry io (x ∷ l) = refl

some-entry : (io : Io) (l : List Io) → some (many (l ++ io ∷ [])) ≡ entry (l ++ io ∷ [])
some-entry io [] = refl
some-entry io (x ∷ l) = refl

store_item-entry :
    (identifier : String) (io : Io) (l : List Io) (d : Dict String Entry)
    → lookup str_dec identifier d ≡ entry l
    → store_item true (some (identifier, io)) d
      ≡ some (insert str_dec identifier (many (l ++ io ∷ [])) d)
unfolding store_item
store_item-entry identifier io l d h = ground (arith, ap (append_io io) h ∙ append_io-entry io l)

add_item-print_item :
    (i : Item) (l : List Io) (d : Dict String Entry)
    → plain_pairs ((i.identifier, i.value) ∷ i.attributes) ≡ true
    → lookup str_dec i.identifier d ≡ entry l
    → add_item true (print_item i) d ≡ insert str_dec i.identifier (many (l ++ io_of i ∷ [])) d
unfolding add_item
add_item-print_item i l d p h =
    rw (add_item, read_item-print_item i p, store_item-entry i.identifier (io_of i) l d h) refl

-- What an item adds to the lists.
abbrev then_item : Item → (String → List Io) → String → List Io
then_item i f k = f k ++ ite (str_dec i.identifier k) (io_of i ∷ []) []

entry-ite :
    (j k : String) (c : Dec (j ≡ k)) (f : String → List Io) (io : Io) (e : Option Entry)
    → e ≡ entry (f k)
    → ite c (some (many (f j ++ io ∷ []))) e ≡ entry (f k ++ ite c (io ∷ []) [])
entry-ite j k (yes p) f io e h =
    subst (λ x. some (many (f x ++ io ∷ [])) ≡ entry (f k ++ io ∷ [])) (sym p) (some-entry io (f k))
entry-ite j k (no _) f io e h = h ∙ ap entry (sym (append-nil (f k)))

add_item-Holds :
    (i : Item) (f : String → List Io) (d : Dict String Entry)
    → plain_pairs ((i.identifier, i.value) ∷ i.attributes) ≡ true
    → Holds f d
    → Holds (then_item i f) (add_item true (print_item i) d)
add_item-Holds i f d p h k =
    ap (lookup str_dec k) (add_item-print_item i (f i.identifier) d p (h i.identifier))
    ∙ lookup-insert str_dec i.identifier k (many (f i.identifier ++ io_of i ∷ [])) d
    ∙ entry-ite i.identifier k (str_dec i.identifier k) f (io_of i) (lookup str_dec k d) (h k)

append-ite :
    {P : Type 0} (c : Dec P) (l : List Io) (io : Io) (rest : List Io)
    → (l ++ ite c (io ∷ []) []) ++ rest ≡ l ++ ite c (io ∷ rest) rest
append-ite (yes _) l io rest = append_assoc l (io ∷ []) rest
append-ite (no _) l io rest = ap (λ m. m ++ rest) (append-nil l)

add_items-print_items :
    (items : List Item) (f : String → List Io) (d : Dict String Entry)
    → plain_items items ≡ true
    → Holds f d
    → (k : String)
    → lookup str_dec k (add_items true (print_items items) d) ≡ entry (f k ++ inputs_of k items)
unfolding add_items
add_items-print_items [] f d p h k = h k ∙ ap entry (sym (append-nil (f k)))
add_items-print_items (i ∷ is) f d p h k =
    add_items-print_items is (then_item i f) (add_item true (print_item i) d) (ground arith)
      (add_item-Holds i f d (ground arith) h) k
    ∙ ap entry (append-ite (str_dec i.identifier k) (f k) (io_of i) (inputs_of k is))

free-join :
    (sep : Char) (by : Char) (w : String) (ws : List String)
    → (code by == code sep) ≡ false
    → all_free sep (w ∷ ws) ≡ true
    → free sep (join by (w ∷ ws)) ≡ true
unfolding join
free-join sep by w [] n h = ground arith
free-join sep by w (v ∷ ws) n h =
    ground (arith, free-append sep w (String.◌∷◌ by (join by (v ∷ ws))), free-join sep by v ws n)

pairs_free :
    (l : List (String × String)) → plain_pairs l ≡ true → all_free ";" (print_pairs l) ≡ true
pairs_free [] h = refl
pairs_free ((a, v) ∷ rest) h = ground (arith, free-print_pair ";" a v, pairs_free rest)

items_free :
    (items : List Item) → plain_items items ≡ true → all_free ";" (print_items items) ≡ true
items_free [] h = refl
items_free (i ∷ is) h = ground (
  arith,
  free-join ";" "@" (print_pair i.identifier i.value) (print_pairs i.attributes) refl
      (pairs_free ((i.identifier, i.value) ∷ i.attributes) (ground arith)),
  items_free is,
)

-- Inputs whose texts hold none of `;`, `@` and `=`, of which there is at least one, are read back from the text
-- that is written for them: under each identifier stand all inputs of that identifier, in the order in which they
-- are written, and under another key stands nothing. Each has its identifier, its value and its attributes,
-- `xlink:href` under the name `href`; a later attribute of the same name, also one named `identifier` or `data`,
-- takes the place of the earlier entry.
pub get_data_from_kvp-join :
    (i : Item) (is : List Item) (k : String)
    → plain_items (i ∷ is) ≡ true
    → lookup str_dec k (get_data_from_kvp (some (join ";" (print_items (i ∷ is)))) true)
      ≡ entry (inputs_of k (i ∷ is))
unfolding get_data_from_kvp
get_data_from_kvp-join i is k h =
    ap (λ l. lookup str_dec k (add_items true l []))
      (split-join ";" (print_item i) (print_items is) (items_free (i ∷ is) h))
    ∙ add_items-print_items (i ∷ is) (λ _. []) [] h (λ _. unfold lookup in refl) k
