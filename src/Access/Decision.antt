-- ===== src/Access/Decision.antt =====
-- Which processes may be seen, from the definitions that a request comes with.
use py_qgis_wps.Prelude.{
  String, ◌≡◌, refl, sym, ◌∙◌, Bool, true, false, not, ◌||◌, ◌&&◌, List, [], ◌∷◌, ◌++◌, any, all,
  any-append, arith,
}
use mathlib.Core.List.{Permᴰ, Perm}
use mathlib.Core.Bool.{Bool-set}
use mathlib.Core.Logic.{∥∥₁_elim}
use py_qgis_wps.Exceptions.{Exn, Result, ok, raise}
use py_qgis_wps.Exec.{continue}
use py_qgis_wps.Access.{Policy, no_rules, Rules, added, extend, add_policy, add_policies, allow}

-- What a list of texts adds, and whether it is accepted.
abbrev pub texts_of : Result (List String) → List String
texts_of (ok l) = l
texts_of (raise e) = []

abbrev succeeds {ℓ} : {A : Type ℓ} → Result A → Bool
succeeds (ok a) = true
succeeds (raise e) = false

abbrev pub is_valid : Rules → Bool
is_valid r = succeeds (added r.allow) && succeeds (added r.deny)

-- The outcome of adding, with the policy that results where it succeeds.
data Added (p : Policy) (rs : List Rules) : Result (Unit {0}) × Policy → Type 0 where
  all_valid :
      (q : Policy)
      → all is_valid rs ≡ true
      → ((f : String → Bool)
          → (any f q.allowed ≡ any f p.allowed || any (λ r. any f (texts_of (added r.allow))) rs)
            × (any f q.denied ≡ any f p.denied || any (λ r. any f (texts_of (added r.deny))) rs))
      → Added p rs (ok tt, q)
  some_invalid : (e : Exn) (q : Policy) → all is_valid rs ≡ false → Added p rs (raise e, q)

step-Added :
    (allowed denied : Result (List String)) (p : Policy) (r : Rules) (rs : List Rules)
    → added r.allow ≡ allowed
    → added r.deny ≡ denied
    → ((q : Policy) → Added q rs (add_policies rs q))
    → Added p
        (r ∷ rs)
        (continue (extend allowed denied p).0 (λ _. add_policies rs) (extend allowed denied p).1)
unfolding extend
step-Added (raise e) denied p r rs a d later = some_invalid e p (rw a refl)
step-Added (ok allowed) (raise e) p r rs a d later =
    some_invalid e (record p { allowed = p.allowed ++ allowed }) (rw (a, d) refl)
step-Added (ok allowed) (ok denied) p r rs a d later =
    after_valid allowed denied p r rs a d
      (later (record { allowed = p.allowed ++ allowed; denied = p.denied ++ denied }))
  where
    after_valid :
        (allowed denied : List String) (p : Policy) (r : Rules) (rs : List Rules)
        {x : Result (Unit {0}) × Policy}
        → added r.allow ≡ ok allowed
        → added r.deny ≡ ok denied
        → Added (record { allowed = p.allowed ++ allowed; denied = p.denied ++ denied }) rs x
        → Added p (r ∷ rs) x
    after_valid allowed denied p r rs a d (some_invalid e q v) = some_invalid e q (rw (a, d) v)
    after_valid allowed denied p r rs a d (all_valid q v h) = all_valid q (rw (a, d) v) (λ f.
        rw (a, d)
          (
            ground (arith, (h f).0, any-append f p.allowed allowed),
            ground (arith, (h f).1, any-append f p.denied denied),
          ))

add_policies-Added : (rs : List Rules) (p : Policy) → Added p rs (add_policies rs p)
unfolding add_policies add_policy
add_policies-Added [] p = all_valid p refl (λ f. (ground arith, ground arith))
add_policies-Added (r ∷ rs) p =
    step-Added (added r.allow) (added r.deny) p r rs refl refl (add_policies-Added rs)

module _ (matches : String → String → Bool) (identifier : String) (default : Policy) where
  -- Whether a definition allows, or denies, the process.
  abbrev pub grants : Rules → Bool
  grants r = any (matches identifier) (texts_of (added r.allow))

  abbrev pub refuses : Rules → Bool
  refuses r = any (matches identifier) (texts_of (added r.deny))

  abbrev pub allowed_by : List Rules → Bool
  allowed_by rs =
      (any (matches identifier) default.allowed || any grants rs)
      || not (any (matches identifier) default.denied || any refuses rs)

  allow-Added :
      (rs : List Rules) {x : Result (Unit {0}) × Policy}
      → all is_valid rs ≡ true
      → Added no_rules rs x
      → (x.0 ≡ ok tt) × (allow matches identifier default x.1 ≡ allowed_by rs)
  unfolding allow
  allow-Added rs v (some_invalid e q w) = absurd cc
  allow-Added rs v (all_valid q w h) = (
    refl,
    ground (
      arith,
      h (matches identifier),
      any-append (matches identifier) default.allowed q.allowed,
      any-append (matches identifier) default.denied q.denied,
    ),
  )

  -- Where every definition of a request is accepted, a process is seen exactly if the default
  -- policy or one of the definitions allows it, or else neither the default policy nor any
  -- definition denies it.
  pub allow-add_policies :
      (rs : List Rules)
      → all is_valid rs ≡ true
      → ((add_policies rs no_rules).0 ≡ ok tt)
        × (allow matches identifier default (add_policies rs no_rules).1 ≡ allowed_by rs)
  allow-add_policies rs v = allow-Added rs v (add_policies-Added rs no_rules)

any-Permᴰ : (f : Rules → Bool) {rs rs' : List Rules} → Permᴰ rs rs' → any f rs ≡ any f rs'
any-Permᴰ f Permᴰ.nil = refl
any-Permᴰ f (Permᴰ.cons e d) = rw (e, any-Permᴰ f d) refl
any-Permᴰ f (Permᴰ.swap {a} {b} {a'} {b'} e₁ e₂) = rw (e₁, e₂) (ground arith)
any-Permᴰ f (Permᴰ.trans d d') = any-Permᴰ f d ∙ any-Permᴰ f d'

any-Perm : (f : Rules → Bool) {rs rs' : List Rules} → Perm rs rs' → any f rs ≡ any f rs'
any-Perm f {rs} {rs'} p = ∥∥₁_elim p (Bool-set (any f rs) (any f rs')) (any-Permᴰ f)

all-any : (f : Rules → Bool) (rs : List Rules) → all f rs ≡ not (any (λ r. not (f r)) rs)
all-any f [] = refl
all-any f (r ∷ rs) = ground (arith, all-any f rs)

-- The order in which the definitions of a request come does not matter: in any order they are
-- accepted too, and give the same decision on every process.
pub add_policies-Perm :
    (matches : String → String → Bool) (identifier : String) (default : Policy)
    {rs rs' : List Rules}
    → Perm rs rs'
    → all is_valid rs ≡ true
    → ((add_policies rs' no_rules).0 ≡ ok tt)
      × (allow matches identifier default (add_policies rs' no_rules).1
          ≡ allow matches identifier default (add_policies rs no_rules).1)
add_policies-Perm matches identifier default {rs} {rs'} p v =
    let v' : all is_valid rs' ≡ true =
      ground
        (arith, all-any is_valid rs, all-any is_valid rs', any-Perm (λ r. not (is_valid r)) p) in
    let (_, before) = allow-add_policies matches identifier default rs v in
    let (succeeds, after) = allow-add_policies matches identifier default rs' v' in
    let g = any-Perm (grants matches identifier default) p in
    let d = any-Perm (refuses matches identifier default) p in
    (succeeds, after ∙ rw (← g, ← d) (sym before))
