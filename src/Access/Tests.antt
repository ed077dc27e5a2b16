-- ===== src/Access/Tests.antt =====
-- Policies and filters on concrete requests.
use py_qgis_wps.Prelude.{
  String, ◌≡◌, refl, Bool, true, false, ◌||◌, Option, none, some, List, [], ◌∷◌, any, all, str_dec,
  holds,
}
use py_qgis_wps.Prelude.Int.{ℤ, pos}
use mathlib.Core.List.Perm
use py_qgis_wps.Exceptions.{ok}
use py_qgis_wps.Json.{str}
use py_qgis_wps.Access.{Rules, no_rules, added, add_policies, allow}
use py_qgis_wps.Access.Decision.{is_valid, allowed_by, allow-add_policies, add_policies-Perm}
use py_qgis_wps.Access.Lizmap.{Rule, HttpRequest, parse_policy, add_policy}
use py_qgis_wps.Access.Lizmap.Meant.{is_meant, any-add_policy}
use py_qgis_wps.Access.Middleware.{
  definitions, http_failure, Filter, FilterPolicy, sort, first_match, passed, rejected, route,
  error_handler, dispatch, find_handler,
}
use py_qgis_wps.Access.Middleware.Routing.{
  Descending, of_priority, sort-Descending, find_handler_rejected, find_handler_last,
}

-- A pattern matches its own text, and the star everything.
abbrev matches : String → String → Bool
matches i p = holds (str_dec p "*") || holds (str_dec p i)

abbrev deny_all : Rules
deny_all = record { allow = none; deny = some (str "all") }

abbrev allow_one : Rules
allow_one = record { allow = some (str "scripts:one"); deny = none }

abbrev rules : List Rules
rules = deny_all ∷ allow_one ∷ []

rules_valid : all is_valid rules ≡ true
unfolding added str_dec
rules_valid = refl

allow-add_policies_example :
    ((add_policies rules no_rules).0 ≡ ok tt)
    × (allow matches "scripts:one" no_rules (add_policies rules no_rules).1
        ≡ allowed_by matches "scripts:one" no_rules rules)
allow-add_policies_example = allow-add_policies matches "scripts:one" no_rules rules rules_valid

seen : allowed_by matches "scripts:one" no_rules rules ≡ true
unfolding added str_dec
seen = refl

unseen : allowed_by matches "scripts:two" no_rules rules ≡ false
unfolding added str_dec
unseen = refl

policies_in_any_order :
    ((add_policies (allow_one ∷ deny_all ∷ []) no_rules).0 ≡ ok tt)
    × (allow matches "scripts:two" no_rules (add_policies (allow_one ∷ deny_all ∷ []) no_rules).1
        ≡ allow matches "scripts:two" no_rules (add_policies rules no_rules).1)
policies_in_any_order =
    add_policies-Perm matches "scripts:two" no_rules (Perm.swap allow_one deny_all []) rules_valid

abbrev for_operators : Rule
for_operators = record {
  allow = some (str "scripts:one");
  deny = none;
  groups = "operator" ∷ [];
  users = [];
  maps = "france_parts" ∷ [];
}

abbrev for_everyone : Rule
for_everyone = record { allow = none; deny = some (str "all"); groups = []; users = []; maps = [] }

abbrev request : HttpRequest
request = record {
  user_header = some "jack";
  groups_header = "operator" ∷ [];
  map_argument = "france_parts" ∷ [];
}

abbrev allows_something : Rules → Bool
allows_something r = elim r.allow [ none ↦ false | some v ↦ true ]

any-add_policy_example :
    any allows_something
      (add_policy matches request (parse_policy (for_everyone ∷ for_operators ∷ [])))
    ≡ any (is_meant matches request allows_something) (for_everyone ∷ for_operators ∷ [])
any-add_policy_example =
    any-add_policy matches request allows_something (for_everyone ∷ for_operators ∷ [])

-- A filter for every path, one for nothing but `/ows`, and one that refuses.
abbrev gives : Option (List Rules) → Filter
gives d = record { pattern = none; repl = none; fn = λ before after. definitions d }

abbrev refuses : Filter
refuses = record {
  pattern = some (λ p. holds (str_dec p "/ows"));
  repl = none;
  fn = λ before after. http_failure 403;
}

abbrev first_policy : FilterPolicy
first_policy = record { pri = pos 10; filters = gives (some rules) ∷ [] }

abbrev last_policy : FilterPolicy
last_policy = record { pri = pos 0; filters = refuses ∷ gives none ∷ [] }

places_by_priority :
    Descending (sort (last_policy ∷ first_policy ∷ []))
    × ((z : ℤ)
        → of_priority z (sort (last_policy ∷ first_policy ∷ []))
          ≡ of_priority z (last_policy ∷ first_policy ∷ []))
places_by_priority = sort-Descending (last_policy ∷ first_policy ∷ [])

refused : route (last_policy ∷ []) none "/ows" ≡ rejected 403 "/ows"
unfolding route str_dec
refused = refl

not_found_here :
    find_handler (λ p. true) (last_policy ∷ first_policy ∷ []) "/ows" ≡ ok (error_handler 403)
not_found_here =
    find_handler_rejected (λ p. true) (last_policy ∷ []) (first_policy ∷ []) "/ows" refused

first_route : route (first_policy ∷ []) none "/jobs" ≡ passed (some rules) "/jobs"
unfolding route
first_route = refl

last_match : first_match last_policy.filters "/jobs" ≡ some (definitions none, "/jobs")
unfolding first_match str_dec
last_match = refl

last_filter :
    find_handler (λ p. true) (first_policy ∷ last_policy ∷ []) "/jobs"
    ≡ dispatch (λ p. true) (passed none "/jobs")
last_filter =
    find_handler_last (λ p. true) (first_policy ∷ []) last_policy "/jobs" first_route last_match
