-- ===== src/Access/Lizmap.antt =====
-- pyqgisservercontrib/lizmapacl/filters.py: `PolicyManager`, from its rules to the definitions that
-- a request comes with.
pub mod Concerned
pub mod Meant
use py_qgis_wps.Prelude.{
  String, Bool, true, false, not, Option, none, some, List, [], ◌∷◌, ◌++◌, map, keep, any, holds,
  str_dec, Dict, lookup, insert, if◌then◌else◌,
}
use py_qgis_wps.Json.{Json}
use py_qgis_wps.Access.{Rules}

-- `PolicyRule`, with the lists as `_to_list` gives them.
pub record Rule : Type 0 where
  pub allow : Option Json
  pub deny : Option Json
  pub groups : List String
  pub users : List String
  pub maps : List String

-- The keys of the chains: 'u__' before the name of a user, 'g__' before that of a group.
pub data Key : Type 0 where
  user : String → Key
  group : String → Key

pub key_dec : Discrete Key
key_dec = hlevel str_dec

abbrev pub group_all : Key
group_all = group "all"

-- `rules.get(k, [])`
unfoldable pub chain : Key → Dict Key (List Rule) → List Rule
unfolding lookup
chain k rules = elim (lookup key_dec k rules) [ none ↦ [] | some l ↦ l ]

unfoldable pub append_to : Key → Rule → Dict Key (List Rule) → Dict Key (List Rule)
unfolding chain insert
append_to k r rules = insert key_dec k (chain k rules ++ r ∷ []) rules

-- The inner loop, over the keys of a rule.
unfoldable pub append_all : List Key → Rule → Dict Key (List Rule) → Dict Key (List Rule)
unfolding append_to
append_all [] r rules = rules
append_all (k ∷ ks) r rules = append_all ks r (append_to k r rules)

-- The keys that a rule stands under: that of everyone, or those of its users and groups.
unfoldable pub keys_of : List String → List String → List Key
keys_of [] [] = group_all ∷ []
keys_of users groups = map user users ++ map group groups

-- The loop of `parse_policy`.
unfoldable pub register : List Rule → Dict Key (List Rule) → Dict Key (List Rule)
unfolding append_all keys_of
register [] rules = rules
register (r ∷ rs) rules = register rs (append_all (keys_of r.users r.groups) r rules)

unfoldable pub parse_policy : List Rule → Dict Key (List Rule)
unfolding register
parse_policy policies = register policies ((group_all, []) ∷ [])

-- What is read of a request: two headers, the second one split at its commas and stripped, and the
-- values of its argument `MAP`.
pub record HttpRequest : Type 0 where
  pub user_header : Option String
  pub groups_header : List String
  pub map_argument : List String

-- `test[-1]`
unfoldable pub last : List String → Option String
last [] = none
last (x ∷ xs) = elim (last xs) [ none ↦ some x | some y ↦ some y ]

module _ (matches : String → String → Bool) where
  -- The test of a rule against the map of the request.
  unfoldable pub applies : Option String → List String → Bool
  applies uri [] = true
  applies none (m ∷ ms) = false
  applies (some uri) (m ∷ ms) = any (matches uri) (m ∷ ms)

  unfoldable pub add_policy_for : Key → HttpRequest → Dict Key (List Rule) → List Rules
  unfolding applies chain last
  add_policy_for name request rules =
      map (λ r. record { allow = r.allow; deny = r.deny })
        (keep (λ r. applies (last request.map_argument) r.maps) (chain name rules))

  -- `policies.extend(...)` for one name after another.
  unfoldable pub add_all : List Key → HttpRequest → Dict Key (List Rule) → List Rules
  unfolding add_policy_for
  add_all [] request rules = []
  add_all (k ∷ ks) request rules = add_policy_for k request rules ++ add_all ks request rules

  -- The names of a request, in order: an empty header counts as none.
  unfoldable pub names : HttpRequest → List Key
  names request =
      elim request.user_header [
        | none ↦ []
        | some u ↦ if holds (str_dec u "") then [] else user u ∷ []
      ]
      ++ map group request.groups_header
      ++ group_all ∷ []

  unfoldable pub add_policy : HttpRequest → Dict Key (List Rule) → List Rules
  unfolding add_all names
  add_policy request rules = add_all (names request) request rules
