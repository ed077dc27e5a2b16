-- ===== src/Access.antt =====
-- pyqgiswps/accesspolicy.py: which processes a request may see. The match of a name with a
-- pattern, `Path(name).match(pattern)`, is a parameter.
pub mod Decision
pub mod Lizmap
pub mod Middleware
mod Tests
use py_qgis_wps.Prelude.{
  String, Bool, true, false, not, ◌||◌, ◌==◌, Option, none, some, List, [], ◌∷◌, ◌++◌, any, holds,
  str_dec, if◌then◌else◌,
}
use py_qgis_wps.Prelude.Int.{ℤ, pos}
use py_qgis_wps.Exceptions.{invalid_policy_error, attribute_error, Result, ok, raise}
use py_qgis_wps.Exec.{Exec, pure, ◌>>◌, ◌>>=◌}
use py_qgis_wps.Json.{
  Json, null, bool, num, str, arr, obj, Items, nil, cons, Fields, end, field, get_field,
}

-- A list that holds nothing but texts.
unfoldable pub texts : Items → Result (List String)
texts nil = ok []
texts (cons (str s) rest) = elim (texts rest) [ raise e ↦ raise e | ok l ↦ ok (s ∷ l) ]
texts (cons v rest) = raise invalid_policy_error

-- `_validate_policy` over what YAML may give.
unfoldable pub validate_policy : Json → Result (List String)
unfolding texts
validate_policy (str s) = if holds (str_dec s "all") then ok ("*" ∷ []) else ok (s ∷ [])
validate_policy (arr items) = texts items
validate_policy v = raise invalid_policy_error

-- The fields of `AccessPolicy` and of `DefaultPolicy`.
pub record Policy : Type 0 where
  pub allowed : List String
  pub denied : List String

abbrev pub no_rules : Policy
no_rules = record { allowed = []; denied = [] }

-- Python's truth of an argument.
unfoldable pub truthy : Option Json → Bool
truthy none = false
truthy (some null) = false
truthy (some (bool b)) = b
truthy (some (num (pos n))) = not (n == 0)
truthy (some (num z)) = true
truthy (some (str s)) = not (holds (str_dec s ""))
truthy (some (arr nil)) = false
truthy (some (obj end)) = false
truthy (some v) = true

-- `if rules: l.extend(_validate_policy(rules))`, the texts that are added.
unfoldable pub added : Option Json → Result (List String)
unfolding truthy validate_policy
added none = ok []
added (some v) = if truthy (some v) then validate_policy v else ok []

-- A custom policy, as a filter gives it.
pub record Rules : Type 0 where
  pub allow : Option Json
  pub deny : Option Json

-- `AccessPolicy.add_policy`, over the two lists: the texts to allow are added before those to deny
-- are validated.
unfoldable pub extend : Result (List String) → Result (List String) → Exec Policy (Unit {0})
extend (raise e) denied p = (raise e, p)
extend (ok allowed) (raise e) p = (raise e, record p { allowed = p.allowed ++ allowed })
extend (ok allowed) (ok denied) p =
    (ok tt, record { allowed = p.allowed ++ allowed; denied = p.denied ++ denied })

unfoldable pub add_policy : Rules → Exec Policy (Unit {0})
unfolding added extend
add_policy r = extend (added r.allow) (added r.deny)

-- The loop over the definitions of a request, on a new policy.
unfoldable pub add_policies : List Rules → Exec Policy (Unit {0})
unfolding add_policy
add_policies [] = pure tt
add_policies (r ∷ rs) = do add_policy r; add_policies rs

-- `policy.get(k, [])`, validated.
unfoldable pub section : String → Fields → Result (List String)
unfolding get_field validate_policy
section k d = elim (get_field k d) [ none ↦ ok [] | some v ↦ validate_policy v ]

-- `DefaultPolicy.init`: `none` is a file that does not exist.
unfoldable pub init : Option Json → Exec Policy (Unit {0})
unfolding section
init none p = (ok tt, p)
init (some (obj d)) p = elim (section "deny" d) [
  | raise e ↦ (raise e, p)
  | ok denied ↦
      let p' : Policy = record p { denied = denied } in
      elim (section "allow" d) [
        | raise e ↦ (raise e, p')
        | ok allowed ↦ (ok tt, record p' { allowed = allowed })
      ]
]
init (some v) p = (raise attribute_error, p)

-- `DefaultPolicy.allow`
module _ (matches : String → String → Bool) where
  unfoldable pub allow : String → Policy → Policy → Bool
  allow identifier default child =
      if any (matches identifier) (default.allowed ++ child.allowed)
      then true
      else not (any (matches identifier) (default.denied ++ child.denied))
