-- ===== src/Prelude/Lists.antt =====
-- Lists measured by native numbers, and searched by Boolean tests.
use Prim.Native.Nat.{ℕ, zero, ◌-◌, suc, ◌+◌}
use mathlib.Core.Path.{◌≡◌, refl, ap, ◌∙◌}
use mathlib.Core.Bool.{Bool, true, false, ◌||◌, ◌&&◌}
use mathlib.Core.List.{List, [], ◌∷◌, ◌++◌}
use mathlib.Core.Logic.{ite}
use native.Mathlib.Omega.{arith}
use native.Mathlib.Decide.{dec_lt}
use py_qgis_wps.Prelude.Tests.{ltb, if◌then◌else◌, holds}

module _ {ℓ} {A : Type ℓ} where
  abbrev pub length : List A → ℕ
  length [] = 0
  length (x ∷ xs) = suc (length xs)

  pub length-append : (xs ys : List A) → length (xs ++ ys) ≡ length xs + length ys
  length-append [] ys = omega arith
  length-append (x ∷ xs) ys = omega (arith, length-append xs ys)

  abbrev pub drop : ℕ → List A → List A
  drop zero xs = xs
  drop (suc n) [] = []
  drop (suc n) (x ∷ xs) = drop n xs

  pub length-drop : (n : ℕ) (xs : List A) → length (drop n xs) ≡ length xs - n
  length-drop zero xs = omega arith
  length-drop (suc n) [] = omega arith
  length-drop (suc n) (x ∷ xs) = omega (arith, length-drop n xs)

  -- Every element satisfies the predicate.
  abbrev pub All {κ} : (A → Type κ) → List A → Type κ
  All P [] = Unit
  All P (x ∷ xs) = P x × All P xs

  -- `any(p(x) for x in l)` and `all(p(x) for x in l)`.
  abbrev pub any : (A → Bool) → List A → Bool
  any p [] = false
  any p (x ∷ xs) = p x || any p xs

  abbrev pub all : (A → Bool) → List A → Bool
  all p [] = true
  all p (x ∷ xs) = p x && all p xs

  -- `[x for x in l if p(x)]`.
  abbrev pub keep : (A → Bool) → List A → List A
  keep p [] = []
  keep p (x ∷ xs) = let rest = keep p xs in if p x then x ∷ rest else rest

  pub any-append : (p : A → Bool) (xs ys : List A) → any p (xs ++ ys) ≡ any p xs || any p ys
  any-append p [] ys = refl
  any-append p (x ∷ xs) ys = ground (arith, any-append p xs ys)

module _ {ℓ} {A : Type ℓ} (dec : Discrete A) where
  -- `a in l`.
  abbrev pub elem : A → List A → Bool
  elem a = any (λ x. holds (dec x a))

  -- `l.remove(a)` for an element that is there: the first occurrence goes.
  unfoldable pub remove_first : A → List A → List A
  remove_first a [] = []
  remove_first a (x ∷ xs) = let rest = remove_first a xs in ite (dec x a) xs (x ∷ rest)

  pub elem-append : (a : A) (xs ys : List A) → elem a (xs ++ ys) ≡ elem a xs || elem a ys
  elem-append a xs ys = any-append (λ x. holds (dec x a)) xs ys

-- How often an element occurs.
module _ {A : Type 0} (dec : Discrete A) where
  unfoldable pub count : A → List A → ℕ
  count a [] = 0
  count a (x ∷ xs) = ite (dec x a) (suc (count a xs)) (count a xs)

  pub count-append : (a : A) (xs ys : List A) → count a (xs ++ ys) ≡ count a xs + count a ys
  unfolding count
  count-append a [] ys = omega arith
  count-append a (x ∷ xs) ys = ground (arith, count-append a xs ys)

  pub elem-count : (a : A) (xs : List A) → elem dec a xs ≡ ltb 0 (count a xs)
  unfolding count
  elem-count a [] = refl
  elem-count a (x ∷ xs) = ground (arith, elem-count a xs)

  pub count-remove_first :
      (a b : A) (xs : List A)
      → count b (remove_first dec a xs) + ite (dec a b) (ite (dec_lt 0 (count a xs)) 1 0) 0
        ≡ count b xs
  unfolding count remove_first
  count-remove_first a b [] = ground arith
  count-remove_first a b (x ∷ xs) = ground (arith, count-remove_first a b xs)

pub any_or :
    {A : Type 0} (f g : A → Bool) (l : List A) → any (λ x. f x || g x) l ≡ any f l || any g l
any_or f g [] = refl
any_or f g (x ∷ xs) = ground (arith, any_or f g xs)

pub any_none : {A : Type 0} (l : List A) → any (λ x. false) l ≡ false
any_none [] = refl
any_none (x ∷ xs) = any_none xs

pub any_swap :
    {A B : Type 0} (R : A → B → Bool) (xs : List A) (ys : List B)
    → any (λ b. any (λ a. R a b) xs) ys ≡ any (λ a. any (R a) ys) xs
any_swap R [] ys = any_none ys
any_swap R (a ∷ xs) ys =
    any_or (R a) (λ b. any (λ x. R x b) xs) ys ∙ ap (λ c. any (R a) ys || c) (any_swap R xs ys)
