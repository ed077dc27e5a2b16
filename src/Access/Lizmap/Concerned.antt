-- ===== src/Access/Lizmap/Concerned.antt =====
-- Which rules a request comes with.
use py_qgis_wps.Prelude.{
  String, ◌≡◌, refl, sym, ap, ◌∙◌, Bool, ◌||◌, ◌&&◌, List, [], ◌∷◌, ◌++◌, map, any, keep,
  any-append, any_none, any_or, arith, elem, holds, Dict, lookup, lookup-insert,
}
use py_qgis_wps.Access.{Rules}
use py_qgis_wps.Access.Lizmap.{
  Rule, Key, key_dec, group_all, chain, append_to, append_all, keys_of, register, parse_policy,
  HttpRequest, last, applies, add_policy_for, add_all, names, add_policy,
}

any-keep : {A : Type 0} (f p : A → Bool) (l : List A) → any f (keep p l) ≡ any (λ x. p x && f x) l
any-keep f p [] = refl
any-keep f p (x ∷ xs) = ground (arith, any-keep f p xs)

pub any-map :
    {A B : Type 0} (f : B → Bool) (g : A → B) (l : List A) → any f (map g l) ≡ any (λ x. f (g x)) l
any-map f g [] = refl
any-map f g (x ∷ xs) = ap (λ b. f (g x) || b) (any-map f g xs)

-- After a rule is added under a key, the chain of any key has it or not.
chain-append_to :
    (f : Rule → Bool) (j k : Key) (r : Rule) (rules : Dict Key (List Rule))
    → any f (chain j (append_to k r rules)) ≡ any f (chain j rules) || (holds (key_dec k j) && f r)
unfolding chain append_to
chain-append_to f j k r rules = ground (
  arith,
  lookup-insert key_dec k j (chain k rules ++ r ∷ []) rules,
  any-append f (chain k rules) (r ∷ []),
)

chain-append_all :
    (f : Rule → Bool) (j : Key) (ks : List Key) (r : Rule) (rules : Dict Key (List Rule))
    → any f (chain j (append_all ks r rules)) ≡ any f (chain j rules) || (elem key_dec j ks && f r)
unfolding append_all
chain-append_all f j [] r rules = ground arith
chain-append_all f j (k ∷ ks) r rules =
    ground (arith, chain-append_all f j ks r (append_to k r rules), chain-append_to f j k r rules)

-- Whether a rule stands under a key.
abbrev pub stands_under : Key → Rule → Bool
stands_under k r = elem key_dec k (keys_of r.users r.groups)

chain-register :
    (f : Rule → Bool) (j : Key) (rs : List Rule) (rules : Dict Key (List Rule))
    → any f (chain j (register rs rules))
      ≡ any f (chain j rules) || any (λ r. stands_under j r && f r) rs
unfolding register
chain-register f j [] rules = ground arith
chain-register f j (r ∷ rs) rules = ground (
  arith,
  chain-register f j rs (append_all (keys_of r.users r.groups) r rules),
  chain-append_all f j (keys_of r.users r.groups) r rules,
)

chain-parse_policy :
    (f : Rule → Bool) (j : Key) (rs : List Rule)
    → any f (chain j (parse_policy rs)) ≡ any (λ r. stands_under j r && f r) rs
unfolding parse_policy
chain-parse_policy f j rs =
    chain-register f j rs ((group_all, []) ∷ [])
    ∙ unfold chain lookup in ground (arith, key_dec group_all j)

any_and : {A : Type 0} (f : A → Bool) (b : Bool) (l : List A) → any (λ x. f x && b) l ≡ any f l && b
any_and f b [] = refl
any_and f b (x ∷ xs) = ground (arith, any_and f b xs)

pub any_ext :
    {A : Type 0} {f g : A → Bool} → ((x : A) → f x ≡ g x) → (l : List A) → any f l ≡ any g l
any_ext h [] = refl
any_ext h (x ∷ xs) = rw (h x, any_ext h xs) refl

module _ (matches : String → String → Bool) (request : HttpRequest) (f : Rules → Bool) where
  -- Whether a rule is for the map of the request and what it allows and denies passes the test.
  abbrev pub serves : Rule → Bool
  serves r =
      applies matches (last request.map_argument) r.maps
      && f (record { allow = r.allow; deny = r.deny })

  any-add_policy_for :
      (k : Key) (rs : List Rule)
      → any f (add_policy_for matches k request (parse_policy rs))
        ≡ any (λ r. stands_under k r && serves r) rs
  unfolding add_policy_for
  any-add_policy_for k rs =
      any-map f (λ r. record { allow = r.allow; deny = r.deny })
        (keep (λ r. applies matches (last request.map_argument) r.maps) (chain k (parse_policy rs)))
      ∙ any-keep (λ r. f (record { allow = r.allow; deny = r.deny }))
          (λ r. applies matches (last request.map_argument) r.maps) (chain k (parse_policy rs))
      ∙ chain-parse_policy serves k rs

  any-add_all :
      (ks : List Key) (rs : List Rule)
      → any f (add_all matches ks request (parse_policy rs))
        ≡ any (λ r. any (λ k. stands_under k r) ks && serves r) rs
  unfolding add_all
  any-add_all [] rs = sym (any_none rs)
  any-add_all (k ∷ ks) rs =
      any-append f (add_policy_for matches k request (parse_policy rs))
        (add_all matches ks request (parse_policy rs))
      ∙ rw (any-add_policy_for k rs, any-add_all ks rs)
          (sym (
            any_ext (λ r. ground arith) rs
            ∙ any_or (λ r. stands_under k r && serves r)
                (λ r. any (λ j. stands_under j r) ks && serves r) rs))

  pub any-add_policy-names :
      (rs : List Rule)
      → any f (add_policy matches request (parse_policy rs))
        ≡ any (λ r. any (λ k. stands_under k r) (names matches request) && serves r) rs
  unfolding add_policy
  any-add_policy-names rs = any-add_all (names matches request) rs
