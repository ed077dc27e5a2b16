-- ===== src/Lru.antt =====
-- utils/lru.py: `lrucache` over an `OrderedDict`, the least recently used entry first.
pub mod Bounds
pub mod Reads
mod Tests
use py_qgis_wps.Prelude.{
  ℕ, zero, Bool, true, false, Option, none, some, List, [], ◌∷◌, ◌++◌, map, leb, ltb, if◌then◌else◌,
  Dict, lookup, remove, has, length,
}
use py_qgis_wps.Exceptions.{Exn, key_error, precondition_error, Result, ok, raise}
use py_qgis_wps.Exec.{Exec, pure, throw}
use mathlib.Core.List.{reverse}

pub record Lru {ℓ} (K V : Type ℓ) : Type ℓ where
  pub table : Dict K V
  pub capacity : ℕ

-- `while len(table) >= n: table.popitem(last=False)`; `popitem` raises on an empty table.
unfoldable pub evict_to {ℓ} : {K V : Type ℓ} → ℕ → Dict K V → Result (Unit {0}) × Dict K V
evict_to n [] = if leb n 0 then (raise key_error, []) else (ok tt, [])
evict_to n (e ∷ d) =
    let rest = evict_to n d in if leb n (length (e ∷ d)) then rest else (ok tt, e ∷ d)

-- `while len(d) > n: d.popitem(last=False)`
unfoldable pub shrink_to {ℓ} : {K V : Type ℓ} → ℕ → Dict K V → Dict K V
shrink_to n [] = []
shrink_to n (e ∷ d) = let rest = shrink_to n d in if ltb n (length (e ∷ d)) then rest else e ∷ d

module _ {ℓ} {K V : Type ℓ} where
  -- `size(n)` with an argument
  unfoldable pub resize : ℕ → Exec (Lru K V) ℕ
  unfolding shrink_to
  resize n c =
      if ltb 0 n
      then (
        ok n,
        record { table = if ltb n c.capacity then shrink_to n c.table else c.table; capacity = n },
      )
      else (raise precondition_error, c)

  -- `size()`
  unfoldable pub size : Lru K V → ℕ
  size c = c.capacity

  -- `__init__`
  unfoldable pub init : ℕ → Result ℕ × Lru K V
  unfolding resize
  init n = resize n (record { table = []; capacity = n })

  unfoldable pub len : Lru K V → ℕ
  len c = length c.table

  unfoldable pub clear : Lru K V → Lru K V
  clear c = record c { table = [] }

  -- `items()`, `keys()`, `values()`: the most recently used first
  unfoldable pub items : Lru K V → List (K × V)
  items c = reverse c.table

  unfoldable pub keys : Lru K V → List K
  keys c = map (λ e. e.0) (reverse c.table)

  unfoldable pub values : Lru K V → List V
  values c = map (λ e. e.1) (reverse c.table)

module _ {ℓ} {K V : Type ℓ} (dec : Discrete K) where
  -- `__contains__`
  unfoldable pub contains : Lru K V → K → Bool
  unfolding lookup
  contains c k = has dec k c.table

  unfoldable pub peek : Lru K V → K → Option V
  unfolding lookup
  peek c k = lookup dec k c.table

  -- `__getitem__`: `move_to_end` raises on a missing key
  unfoldable pub get_item : K → Exec (Lru K V) V
  unfolding lookup remove
  get_item k c = elim (lookup dec k c.table) [
    | none ↦ (raise key_error, c)
    | some v ↦ (ok v, record c { table = remove dec k c.table ++ (k, v) ∷ [] })
  ]

  -- the last line of `__setitem__`, which a raise of the loop before it skips
  unfoldable pub store_after :
      K → V → ℕ → Result (Unit {0}) × Dict K V → Result (Unit {0}) × Lru K V
  store_after k v cap (ok u, d) = (ok tt, record { table = d ++ (k, v) ∷ []; capacity = cap })
  store_after k v cap (raise e, d) = (raise e, record { table = d; capacity = cap })

  -- `__setitem__`
  unfoldable pub set_item : K → V → Exec (Lru K V) (Unit {0})
  unfolding lookup evict_to remove store_after
  set_item k v c =
      let kept = if has dec k c.table then remove dec k c.table else c.table in
      store_after k v c.capacity (evict_to c.capacity kept)

  -- `__delitem__`
  unfoldable pub del_item : K → Exec (Lru K V) (Unit {0})
  unfolding lookup remove
  del_item k c = elim (lookup dec k c.table) [
    | none ↦ (raise key_error, c)
    | some _ ↦ (ok tt, record c { table = remove dec k c.table })
  ]
