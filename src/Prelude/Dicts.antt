-- ===== src/Prelude/Dicts.antt =====
-- Python's `dict` and `OrderedDict`: association lists in insertion order, no key twice.
use Prim.Native.Nat.{ℕ, zero, suc, ◌+◌, ◌≤◌}
use mathlib.Core.Path.{◌≡◌, refl}
use mathlib.Core.Bool.{Bool}
use mathlib.Core.List.{List, [], ◌∷◌, ◌++◌}
use mathlib.Core.Logic.{ite, if_pos, if_neg, ◌⊎◌, inl}
use mathlib.Core.Option.{Option, none, some}
use native.Mathlib.Omega.{arith}
use py_qgis_wps.Prelude.Tests.{is_some}
use py_qgis_wps.Prelude.Lists.{length, drop}

abbrev pub Dict {ℓ} : Type ℓ → Type ℓ → Type ℓ
Dict K V = List (K × V)

module _ {ℓ} {K V : Type ℓ} (dec : Discrete K) where
  -- `d.get(k)`
  unfoldable pub lookup : K → Dict K V → Option V
  lookup k [] = none
  lookup k ((j, v) ∷ d) = ite (dec j k) (some v) (lookup k d)

  -- `d[k] = v`: a present key keeps its place, a new one goes to the end.
  unfoldable pub insert : K → V → Dict K V → Dict K V
  insert k v [] = (k, v) ∷ []
  insert k v ((j, w) ∷ d) = let rest = insert k v d in ite (dec j k) ((j, v) ∷ d) ((j, w) ∷ rest)

  -- `d.pop(k, None)`
  unfoldable pub remove : K → Dict K V → Dict K V
  remove k [] = []
  remove k ((j, v) ∷ d) = let rest = remove k d in ite (dec j k) rest ((j, v) ∷ rest)

  -- `k in d`
  abbrev pub has : K → Dict K V → Bool
  has k d = is_some (lookup k d)

  pub lookup-insert :
      (k j : K) (v : V) (d : Dict K V)
      → lookup j (insert k v d) ≡ ite (dec k j) (some v) (lookup j d)
  unfolding lookup insert
  lookup-insert k j v [] = ground arith
  lookup-insert k j v ((i, w) ∷ d) = ground (arith, lookup-insert k j v d)

  pub lookup-remove :
      (k j : K) (d : Dict K V) → lookup j (remove k d) ≡ ite (dec k j) none (lookup j d)
  unfolding lookup remove
  lookup-remove k j [] = ground arith
  lookup-remove k j ((i, w) ∷ d) = ground (arith, lookup-remove k j d)

  pub lookup-append :
      (j : K) (d e : Dict K V)
      → lookup j (d ++ e) ≡ elim (lookup j d) [ none ↦ lookup j e | some v ↦ some v ]
  unfolding lookup
  lookup-append j [] e = refl
  lookup-append j ((i, w) ∷ d) e = ground (arith, lookup-append j d e)

  pub remove_absent : (k : K) (d : Dict K V) → lookup k d ≡ none → remove k d ≡ d
  unfolding lookup remove
  remove_absent k [] h = refl
  remove_absent k ((i, w) ∷ d) h = ground (arith, remove_absent k d)

  pub length-remove-le : (k : K) (d : Dict K V) → length (remove k d) ≤ length d
  unfolding remove
  length-remove-le k [] = omega arith
  length-remove-le k ((i, w) ∷ d) = ground (arith, length-remove-le k d)

  -- A key that is there takes at least one place.
  pub length-remove-some :
      (k : K) (d : Dict K V) (v : V) → lookup k d ≡ some v → length (remove k d) + 1 ≤ length d
  unfolding lookup remove
  length-remove-some k [] v h = cc
  length-remove-some k ((i, w) ∷ d) v h =
      ground (arith, length-remove-some k d v, length-remove-le k d)

  -- No key stands twice.
  abbrev pub Unique : Dict K V → Type ℓ
  Unique [] = Unit
  Unique ((j, v) ∷ d) = (lookup j d ≡ none) × Unique d

  pub insert-Unique : (k : K) (v : V) (d : Dict K V) → Unique d → Unique (insert k v d)
  unfolding insert
  insert-Unique k v [] h = (unfold lookup in refl, tt)
  insert-Unique k v ((i, w) ∷ d) h = elim (dec i k) [
    | yes p ↦ rw (if_pos _ p) (h.0, h.1)
    | no p ↦ rw (if_neg _ p) (ground (arith, lookup-insert k i v d), insert-Unique k v d h.1)
  ]

  pub remove-Unique : (k : K) (d : Dict K V) → Unique d → Unique (remove k d)
  unfolding remove
  remove-Unique k [] h = tt
  remove-Unique k ((i, w) ∷ d) h = ground (arith, remove-Unique k d h.1, lookup-remove k i d)

  pub append-Unique :
      (k : K) (v : V) (d : Dict K V) → lookup k d ≡ none → Unique d → Unique (d ++ (k, v) ∷ [])
  unfolding lookup
  append-Unique k v [] a h = (refl, tt)
  append-Unique k v ((i, w) ∷ d) a h =
      (ground (arith, lookup-append i d ((k, v) ∷ [])), append-Unique k v d (ground arith) h.1)

  pub drop-Unique : (n : ℕ) (d : Dict K V) → Unique d → Unique (drop n d)
  drop-Unique zero d h = h
  drop-Unique (suc n) [] h = tt
  drop-Unique (suc n) ((i, w) ∷ d) h = drop-Unique n d h.1

  -- What is dropped from the front hides no key that it does not hold.
  pub lookup-drop :
      (k : K) (n : ℕ) (d : Dict K V)
      → Unique d
      → (lookup k (drop n d) ≡ lookup k d) ⊎ (lookup k (drop n d) ≡ none)
  unfolding lookup
  lookup-drop k zero d h = inl refl
  lookup-drop k (suc n) [] h = inl refl
  lookup-drop k (suc n) ((i, w) ∷ d) h = ground (arith, lookup-drop k n d h.1)
