-- ===== src/Access/Middleware/Routing.antt =====
-- The order of the filter policies, and which of them decides.
use py_qgis_wps.Prelude.{
  ℕ, String, ◌≡◌, refl, ap, ◌∙◌, Bool, ◌&&◌, Option, none, some, List, [], ◌∷◌, ◌++◌, All, keep,
  arith, Option-cases, Bool-cases, inl, inr,
}
use py_qgis_wps.Prelude.Int.{ℤ, leb_ℤ, ◌≤ℤ◌}
use py_qgis_wps.Exceptions.{ok}
use py_qgis_wps.Access.{Rules}
use py_qgis_wps.Access.Middleware.{
  Applied, definitions, http_failure, failure, FilterPolicy, place, sort, first_match, Routed,
  rejected, passed, route, error_handler, dispatch, find_handler,
}

-- Priorities never rise along the list.
abbrev pub Descending : List FilterPolicy → Type 0
Descending [] = Unit
Descending (p ∷ ps) = All (λ q. q.pri ≤ℤ p.pri) ps × Descending ps

-- The policies of one priority.
abbrev pub of_priority : ℤ → List FilterPolicy → List FilterPolicy
of_priority z = keep (λ p. leb_ℤ p.pri z && leb_ℤ z p.pri)

place-All :
    (z : ℤ) (p : FilterPolicy) (ps : List FilterPolicy)
    → p.pri ≤ℤ z
    → All (λ q. q.pri ≤ℤ z) ps
    → All (λ q. q.pri ≤ℤ z) (place p ps)
unfolding place
place-All z p [] h a = (h, tt)
place-All z p (q ∷ qs) h (b, a) = elim (Bool-cases (leb_ℤ q.pri p.pri)) [
  | inl e ↦ rw (e, place) (h, (b, a))
  | inr e ↦ rw (e, place) (b, place-All z p qs h a)
]

All-weaken :
    (y z : ℤ) (ps : List FilterPolicy)
    → y ≤ℤ z
    → All (λ q. q.pri ≤ℤ y) ps
    → All (λ q. q.pri ≤ℤ z) ps
All-weaken y z [] h a = tt
All-weaken y z (q ∷ qs) h (b, a) = (omega (arith, h, b), All-weaken y z qs h a)

place-Descending :
    (p : FilterPolicy) (ps : List FilterPolicy) → Descending ps → Descending (place p ps)
unfolding place
place-Descending p [] d = (tt, tt)
place-Descending p (q ∷ qs) (a, d) = elim (Bool-cases (leb_ℤ q.pri p.pri)) [
  | inl e ↦
      let below : q.pri ≤ℤ p.pri = ground (arith, e) in
      rw (e, place) ((below, All-weaken q.pri p.pri qs below a), (a, d))
  | inr e ↦
      let above : p.pri ≤ℤ q.pri = ground (arith, e) in
      rw (e, place) (place-All q.pri p qs above a, place-Descending p qs d)
]

sort-Descending_all : (ps : List FilterPolicy) → Descending (sort ps)
unfolding sort
sort-Descending_all [] = tt
sort-Descending_all (p ∷ ps) = place-Descending p (sort ps) (sort-Descending_all ps)

-- Placing a policy puts it before those of its own priority and leaves the others in place.
of_priority-place :
    (z : ℤ) (p : FilterPolicy) (ps : List FilterPolicy)
    → of_priority z (place p ps) ≡ of_priority z (p ∷ ps)
unfolding place
of_priority-place z p [] = refl
of_priority-place z p (q ∷ qs) = ground (arith, of_priority-place z p qs)

of_priority-sort : (z : ℤ) (ps : List FilterPolicy) → of_priority z (sort ps) ≡ of_priority z ps
unfolding sort
of_priority-sort z [] = refl
of_priority-sort z (p ∷ ps) =
    of_priority-place z p (sort ps) ∙ ground (arith, of_priority-sort z ps)

-- The policies are tried by descending priority, and those of one priority in the order in which
-- they were registered.
pub sort-Descending :
    (ps : List FilterPolicy)
    → Descending (sort ps) × ((z : ℤ) → of_priority z (sort ps) ≡ of_priority z ps)
sort-Descending ps = (sort-Descending_all ps, λ z. of_priority-sort z ps)

-- Going on with more policies.
abbrev and_then : List FilterPolicy → Routed → Routed
and_then qs (rejected status path) = rejected status path
and_then qs (passed defs path) = route qs defs path

route-append_applied :
    (applied : Applied) (path : String) (ps qs : List FilterPolicy)
    → ((defs : Option (List Rules)) (path : String)
        → route (ps ++ qs) defs path ≡ and_then qs (route ps defs path))
    → elim applied [
      | definitions d ↦ route (ps ++ qs) d path
      | http_failure status ↦ rejected status path
      | failure ↦ rejected 500 path
    ]
      ≡ and_then qs (elim applied [
        | definitions d ↦ route ps d path
        | http_failure status ↦ rejected status path
        | failure ↦ rejected 500 path
      ])
route-append_applied (definitions d) path ps qs h = h d path
route-append_applied (http_failure status) path ps qs h = refl
route-append_applied failure path ps qs h = refl

-- The policies run one after another: a rejection ends the request whatever policies come later,
-- and otherwise the later ones go on from the definitions and the path of the earlier ones.
pub route-append :
    (ps qs : List FilterPolicy) (defs : Option (List Rules)) (path : String)
    → route (ps ++ qs) defs path ≡ and_then qs (route ps defs path)
unfolding route
route-append [] qs defs path = refl
route-append (p ∷ ps) qs defs path = elim (Option-cases (first_match p.filters path)) [
  | inl e ↦ rw (e, route) (route-append ps qs defs path)
  | inr ((applied, path'), e) ↦
      rw (e, route) (route-append_applied applied path' ps qs (route-append ps qs))
]

-- Where a filter answers with an HTTP status or fails, with status 500, the request is given to the
-- handler of errors with that status, whatever policies come later.
pub find_handler_rejected :
    (takes : String → Bool) (ps qs : List FilterPolicy) (path : String) {path' : String}
    {status : ℕ}
    → route ps none path ≡ rejected status path'
    → find_handler takes (ps ++ qs) path ≡ ok (error_handler status)
unfolding find_handler dispatch
find_handler_rejected takes ps qs path {path'} {status} e =
    let same : route (ps ++ qs) none path ≡ rejected status path' =
      route-append ps qs none path ∙ ap (and_then qs) e in
    rw (same, find_handler) refl

-- Where the earlier policies let a request pass and a filter of the last policy matches and
-- refuses nothing, the last policy decides: what the earlier ones gave is dropped, also where the
-- last one gives nothing.
pub find_handler_last :
    (takes : String → Bool) (ps : List FilterPolicy) (p : FilterPolicy) (path : String)
    {path' path'' : String} {earlier defs : Option (List Rules)}
    → route ps none path ≡ passed earlier path'
    → first_match p.filters path' ≡ some (definitions defs, path'')
    → find_handler takes (ps ++ p ∷ []) path ≡ dispatch takes (passed defs path'')
unfolding find_handler route
find_handler_last takes ps p path {path'} {path''} {earlier} {defs} e m =
    let last_one : route (p ∷ []) earlier path' ≡ passed defs path'' = rw (m, route) refl in
    let same : route (ps ++ p ∷ []) none path ≡ passed defs path'' =
      route-append ps (p ∷ []) none path ∙ ap (and_then (p ∷ [])) e ∙ last_one in
    rw (same, find_handler) refl
