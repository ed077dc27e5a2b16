-- ===== src/Access/Middleware.antt =====
-- pyqgiswps/middleware.py: `MiddleWareRouter`, and `_FilterBase` of
-- pyqgisservercontrib/core/filters.py.
pub mod Routing
use py_qgis_wps.Prelude.{
  ℕ, String, Bool, true, false, Option, none, some, List, [], ◌∷◌, ◌++◌, if◌then◌else◌,
}
use py_qgis_wps.Prelude.Int.{ℤ, pos, leb_ℤ}
use py_qgis_wps.Exceptions.{Result, ok, raise}
use py_qgis_wps.Access.{Policy, Rules, no_rules, add_policies}

-- What the function of a filter comes to: definitions, an `HTTPError`, or another exception.
pub data Applied : Type 0 where
  definitions : Option (List Rules) → Applied
  http_failure : ℕ → Applied
  failure : Applied

-- A filter: whether its regular expression matches a path, the replacement of what is matched, and
-- its function, on the path that was matched and the one that the request then has.
pub record Filter : Type 0 where
  pub pattern : Option (String → Bool)
  pub repl : Option (String → String)
  pub fn : String → String → Applied

pub record FilterPolicy : Type 0 where
  pub pri : ℤ
  pub filters : List Filter

unfoldable pub replaced : Option (String → String) → String → String
replaced none path = path
replaced (some sub) path = sub path

-- `_FilterBase.match`
unfoldable pub match_path : Filter → String → Option String
unfolding replaced
match_path f path = elim f.pattern [
  | none ↦ some path
  | some m ↦ if m path then some (replaced f.repl path) else none
]

-- `sort(key=lambda p: p.pri, reverse=True)`, which keeps the order of equal priorities.
unfoldable pub place : FilterPolicy → List FilterPolicy → List FilterPolicy
place p [] = p ∷ []
place p (q ∷ qs) = let rest = place p qs in if leb_ℤ q.pri p.pri then p ∷ q ∷ qs else q ∷ rest

unfoldable pub sort : List FilterPolicy → List FilterPolicy
unfolding place
sort [] = []
sort (p ∷ ps) = place p (sort ps)

-- `__init__`: the policies that are registered, and the filters that it is given.
unfoldable pub policies : List FilterPolicy → List Filter → List FilterPolicy
unfolding sort
policies registered [] = sort registered
policies registered (f ∷ fs) = sort (registered ++ record { pri = pos 0; filters = f ∷ fs } ∷ [])

-- The inner loop: the first filter that matches the path, what it comes to, and the new path.
unfoldable pub first_match : List Filter → String → Option (Applied × String)
unfolding match_path
first_match [] path = none
first_match (f ∷ fs) path = elim (match_path f path) [
  | some path' ↦ some (f.fn path path', path')
  | none ↦ first_match fs path
]

-- The loops of `find_handler`: a status of an error, or the last definitions, and the path.
pub data Routed : Type 0 where
  rejected : ℕ → String → Routed
  passed : Option (List Rules) → String → Routed

unfoldable pub route : List FilterPolicy → Option (List Rules) → String → Routed
unfolding first_match
route [] defs path = passed defs path
route (p ∷ ps) defs path = elim (first_match p.filters path) [
  | none ↦ route ps defs path
  | some (applied, path') ↦ elim applied [
    | definitions d ↦ route ps d path'
    | http_failure status ↦ rejected status path'
    | failure ↦ rejected 500 path'
  ]
]

-- What the application is asked for: the handler of errors with a status, or the handler of a path
-- with its access policy replaced or not.
pub data Delegate : Type 0 where
  error_handler : ℕ → Delegate
  handler : String → Option Policy → Delegate

-- `takes` tells whether the handler of a path has an access policy.
unfoldable pub dispatch : (String → Bool) → Routed → Result Delegate
unfolding add_policies
dispatch takes (rejected status path) = ok (error_handler status)
dispatch takes (passed none path) = ok (handler path none)
dispatch takes (passed (some []) path) = ok (handler path none)
dispatch takes (passed (some (d ∷ ds)) path) =
    if takes path
    then (let (r, p) = add_policies (d ∷ ds) no_rules in
        elim r [ raise e ↦ raise e | ok u ↦ ok (handler path (some p)) ])
    else ok (handler path none)

unfoldable pub find_handler : (String → Bool) → List FilterPolicy → String → Result Delegate
unfolding dispatch route
find_handler takes ps path = dispatch takes (route ps none path)
