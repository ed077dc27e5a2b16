-- ===== src/Executor/Processes/Found.antt =====
-- What `get_processes` finds, in a dictionary of processes by their identifiers.
use py_qgis_wps.Prelude.{
  ◌≡◌, refl, sym, ap, ◌∙◌, inl, inr, String, none, some, List, [], ◌∷◌, map, Dict, lookup, insert,
  lookup-insert, All, str_dec, Option-cases, arith,
}
use py_qgis_wps.Exceptions.{ok, Result-cases, ok-eq}
use py_qgis_wps.Executor.Processes.{
  Process, State, Factory, find_all, by_identifier, for_map, get_processes,
}

-- Every process that is found has the identifier under which it was looked for.
abbrev pub Named : Dict String Process → Type 0
Named d = (k : String) (p : Process) → lookup str_dec k d ≡ some p → p.identifier ≡ k

insert-Named :
    (p : Process) (d : Dict String Process) → Named d → Named (insert str_dec p.identifier p d)
insert-Named p d n k q h =
    let h' = sym (lookup-insert str_dec p.identifier k p d) ∙ h in ground (arith, n k q)

-- The dictionary of a reload is one.
pub by_identifier-Named :
    (ps : List Process) (d : Dict String Process) → Named d → Named (by_identifier ps d)
unfolding by_identifier
by_identifier-Named [] d n = n
by_identifier-Named (p ∷ ps) d n =
    by_identifier-Named ps (insert str_dec p.identifier p d) (insert-Named p d n)

-- Every process of the list is found under its identifier.
abbrev pub AllFound : Dict String Process → List Process → Type 0
AllFound d = All (λ p. lookup str_dec p.identifier d ≡ some p)

pub find_all-Named :
    (d : Dict String Process) (idents : List String) (ps : List Process)
    → Named d
    → find_all d idents ≡ ok ps
    → map (λ p. p.identifier) ps ≡ idents
unfolding find_all
find_all-Named d [] ps n h = ap (map (λ (p : Process). p.identifier)) (sym (ok-eq h))
find_all-Named d (ident ∷ idents) ps n h = elim (Option-cases (lookup str_dec ident d)) [
  | inl missing ↦ absurd (cc (rw (missing, find_all) at h))
  | inr (p, there) ↦ elim (Result-cases (find_all d idents)) [
    | inl (e, bad) ↦ absurd (cc (rw (there, bad, find_all) at h))
    | inr (qs, good) ↦
        ap (map (λ (q : Process). q.identifier)) (sym (ok-eq (rw (there, good, find_all) at h)))
        ∙ cons-eq (n ident p there) (find_all-Named d idents qs n good)
  ]
]
  where
    cons-eq :
        {x y : String} {xs ys : List String}
        → x ≡ y
        → xs ≡ ys
        → ◌≡◌ {A = List String} (x ∷ xs) (y ∷ ys)
    cons-eq h k = cc

pub find_all-AllFound :
    (d : Dict String Process) (ps : List Process)
    → AllFound d ps
    → find_all d (map (λ p. p.identifier) ps) ≡ ok ps
unfolding find_all
find_all-AllFound d [] h = refl
find_all-AllFound d (p ∷ ps) h = rw (h.0, find_all-AllFound d ps h.1, find_all) refl

pub get_processes-without_map :
    (factory : Factory) (idents : List String) (s : State) (ps : List Process)
    → find_all s.processes idents ≡ ok ps
    → get_processes factory idents none s ≡ (ok ps, s)
unfolding get_processes for_map
get_processes-without_map factory idents s ps h = rw (h, get_processes) refl
