-- ===== src/Access/Lizmap/Meant.antt =====
-- Which rules are meant for a request: for whom a rule is, and for which map.
use py_qgis_wps.Prelude.{
  String, ◌≡◌, refl, ap, ◌∙◌, Bool, true, false, not, ◌||◌, ◌&&◌, Option, none, some, List, [], ◌∷◌,
  ◌++◌, map, any, any-append, any_none, any_swap, arith, elem, holds, str_dec, Option-cases,
  Bool-cases, inl, inr,
}
use py_qgis_wps.Access.{Rules}
use py_qgis_wps.Access.Lizmap.{
  Rule, Key, user, group, key_dec, group_all, keys_of, parse_policy, HttpRequest, last, applies,
  names, add_policy,
}
use py_qgis_wps.Access.Lizmap.Concerned.{any-add_policy-names, any_ext, any-map}

-- Whether the request is made by the user: its header is there and is not empty.
abbrev pub is_user : HttpRequest → String → Bool
is_user request name = elim request.user_header [
  | none ↦ false
  | some u ↦ not (holds (str_dec u "")) && holds (str_dec name u)
]

-- Whether the request is of the group, or every request is.
abbrev pub is_member : HttpRequest → String → Bool
is_member request name =
    any (λ g. holds (str_dec name g)) request.groups_header || holds (str_dec name "all")

-- Whether a rule is for a request: for everyone where it names no user and no group, and else for
-- those it names.
abbrev pub is_for : HttpRequest → List String → List String → Bool
is_for request [] [] = true
is_for request users groups = any (is_user request) users || any (is_member request) groups

-- The map of a request: its last argument `MAP`.
abbrev pub map_of : List String → Option String
map_of [] = none
map_of (uri ∷ []) = some uri
map_of (uri ∷ next ∷ uris) = map_of (next ∷ uris)

-- Whether a rule is for a map: for all where it names none.
abbrev pub is_for_map : (String → String → Bool) → Option String → List String → Bool
is_for_map matches uri [] = true
is_for_map matches uri (m ∷ maps) = elim uri [ none ↦ false | some u ↦ any (matches u) (m ∷ maps) ]

last-map_of : (l : List String) → last l ≡ map_of l
unfolding last
last-map_of [] = refl
last-map_of (uri ∷ []) = refl
last-map_of (uri ∷ next ∷ uris) =
    let later = last-map_of (next ∷ uris) in
    elim (Option-cases (last uris)) [
      | inl e ↦ rw (e) (rw (e) at later)
      | inr (u, e) ↦ rw (e) (rw (e) at later)
    ]

applies-is_for_map :
    (matches : String → String → Bool) (uri : Option String) (maps : List String)
    → applies matches uri maps ≡ is_for_map matches uri maps
unfolding applies
applies-is_for_map matches uri [] = refl
applies-is_for_map matches none (m ∷ maps) = refl
applies-is_for_map matches (some u) (m ∷ maps) = refl

holds-eq : {P Q : Type 0} (d : Dec P) (e : Dec Q) → (P → Q) → (Q → P) → holds d ≡ holds e
holds-eq (yes p) (yes q) f g = refl
holds-eq (yes p) (no n) f g = absurd (n (f p))
holds-eq (no n) (yes q) f g = absurd (n (g q))
holds-eq (no n) (no m) f g = refl

user-eq : {a b : String} → user a ≡ user b → a ≡ b
user-eq h = cc

group-eq : {a b : String} → group a ≡ group b → a ≡ b
group-eq h = cc

holds-user : (a b : String) → holds (key_dec (user a) (user b)) ≡ holds (str_dec a b)
holds-user a b = holds-eq (key_dec (user a) (user b)) (str_dec a b) user-eq (ap user)

holds-group : (a b : String) → holds (key_dec (group a) (group b)) ≡ holds (str_dec a b)
holds-group a b = holds-eq (key_dec (group a) (group b)) (str_dec a b) group-eq (ap group)

holds_no : {P : Type 0} (d : Dec P) → ¬ P → holds d ≡ false
holds_no (yes p) n = absurd (n p)
holds_no (no m) n = refl

module _ (matches : String → String → Bool) (request : HttpRequest) where
  -- No user stands under the key of a group.
  no_group :
      (u : String)
      → any (λ k. holds (key_dec (user u) k)) (map group request.groups_header ++ group_all ∷ [])
        ≡ false
  no_group u =
      let F : Key → Bool = λ k. holds (key_dec (user u) k) in
      any-append F (map group request.groups_header) (group_all ∷ [])
      ∙ rw
          (
            any-map F group request.groups_header,
            any_ext (λ g. holds_no (key_dec (user u) (group g)) (λ e. cc (e)))
                request.groups_header,
            any_none request.groups_header,
            holds_no (key_dec (user u) group_all) (λ e. cc (e)),
          )
          refl

  any-names_user :
      (u : String)
      → any (λ k. holds (key_dec (user u) k)) (names matches request) ≡ is_user request u
  unfolding names
  any-names_user u = elim (Option-cases request.user_header) [
    | inl e ↦ rw (e) (no_group u)
    | inr (v, e) ↦ elim (Bool-cases (holds (str_dec v ""))) [
      | inl empty ↦ rw (e, empty) (no_group u)
      | inr there ↦ rw (e, there, no_group u, holds-user u v) (ground arith)
    ]
  ]

  any-names_group :
      (g : String)
      → any (λ k. holds (key_dec (group g) k)) (names matches request) ≡ is_member request g
  unfolding names
  any-names_group g =
      let F : Key → Bool = λ k. holds (key_dec (group g) k) in
      let l = map group request.groups_header ++ group_all ∷ [] in
      let rest : any F l ≡ is_member request g =
        any-append F (map group request.groups_header) (group_all ∷ [])
        ∙ rw
            (
              any-map F group request.groups_header,
              any_ext (λ h. holds-group g h) request.groups_header,
              holds-group g "all",
            )
            (ground arith) in
      elim (Option-cases request.user_header) [
        | inl e ↦ rw (e) rest
        | inr (v, e) ↦ elim (Bool-cases (holds (str_dec v ""))) [
          | inl empty ↦ rw (e, empty) rest
          | inr there ↦ rw (e, there, holds_no (key_dec (group g) (user v)) (λ e. cc (e))) rest
        ]
      ]

  any-names_keys :
      (users groups : List String)
      → any (λ k. elem key_dec k (map user users ++ map group groups)) (names matches request)
        ≡ any (is_user request) users || any (is_member request) groups
  any-names_keys users groups =
      let F : Key → Bool = λ x. any (λ k. holds (key_dec x k)) (names matches request) in
      any_swap (λ x k. holds (key_dec x k)) (map user users ++ map group groups)
        (names matches request)
      ∙ any-append F (map user users) (map group groups)
      ∙ rw
          (
            any-map F user users,
            any-map F group groups,
            any_ext any-names_user users,
            any_ext any-names_group groups,
          )
          refl

  all_member : is_member request "all" ≡ true
  unfolding str_dec
  all_member = ground arith

  any-names :
      (users groups : List String)
      → any (λ k. elem key_dec k (keys_of users groups)) (names matches request)
        ≡ is_for request users groups
  unfolding keys_of
  any-names [] [] = any-names_keys [] ("all" ∷ []) ∙ rw all_member refl
  any-names (u ∷ users) groups = any-names_keys (u ∷ users) groups
  any-names [] (g ∷ groups) = any-names_keys [] (g ∷ groups)

module _ (matches : String → String → Bool) (request : HttpRequest) (f : Rules → Bool) where
  -- Whether a rule is meant for the request and its map, and what it allows and denies passes the
  -- test.
  abbrev pub is_meant : Rule → Bool
  is_meant r =
      is_for request r.users r.groups
      && (is_for_map matches (map_of request.map_argument) r.maps
          && f (record { allow = r.allow; deny = r.deny }))

  -- A request comes with the definitions of exactly those rules that are for everyone, for its
  -- user or for one of its groups, of which `all` always is one, and for its map if they name maps:
  -- stated for every test f of a definition, as one of the definitions passes it exactly if one of
  -- those rules does.
  pub any-add_policy :
      (rs : List Rule) → any f (add_policy matches request (parse_policy rs)) ≡ any is_meant rs
  any-add_policy rs =
      any-add_policy-names matches request f rs
      ∙ any_ext
          (λ r.
            rw
              (
                any-names matches request r.users r.groups,
                last-map_of request.map_argument,
                applies-is_for_map matches (map_of request.map_argument) r.maps,
              )
              refl)
          rs
