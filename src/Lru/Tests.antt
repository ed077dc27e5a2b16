-- ===== src/Lru/Tests.antt =====
-- Runs of `lrucache`, and the theorems at concrete caches.
use py_qgis_wps.Prelude.{
  ℕ, ◌≡◌, ◌⊎◌, refl, none, some, List, [], ◌∷◌, ◌++◌, arith, ℕ_discrete, lookup, length,
}
use py_qgis_wps.Exceptions.{precondition_error, ok, raise}
use py_qgis_wps.Lru.{Lru, init, items, peek, get_item, set_item, resize}
use py_qgis_wps.Lru.Bounds.{
  Call, get, set, set_size, run, IsValid, kept, step, run-init-IsValid, set_item-kept,
}
use py_qgis_wps.Lru.Reads.{peek-set_item_self, peek-set_item_ne, set_item_full}

abbrev two : Lru ℕ ℕ
two = record { table = (1, 10) ∷ (2, 20) ∷ []; capacity = 2 }

abbrev calls : List (Call ℕ ℕ)
calls = set 1 10 ∷ set 2 20 ∷ get 1 ∷ set 3 30 ∷ get 2 ∷ set_size 1 ∷ []

after_calls : items (run ℕ_discrete calls (init 2).1) ≡ (3, 30) ∷ []
unfolding items run step set_item get_item resize init ℕ_discrete
after_calls = refl

init-zero : init {K = ℕ} {V = ℕ} 0 ≡ (raise precondition_error, record { table = []; capacity = 0 })
unfolding init
init-zero = refl

two-IsValid : IsValid ℕ_discrete two
unfolding lookup ℕ_discrete
two-IsValid = record { positive = omega arith; bounded = omega arith; unique = (refl, (refl, tt)) }

within_size : IsValid ℕ_discrete (run ℕ_discrete calls (init 2).1)
within_size = run-init-IsValid ℕ_discrete 2 calls (omega arith)

set_item-kept_example :
    set_item ℕ_discrete 3 30 two
    ≡ (ok tt, record two { table = kept ℕ_discrete 3 two ++ (3, 30) ∷ [] })
set_item-kept_example = set_item-kept ℕ_discrete 3 30 two two-IsValid

peek_written : peek ℕ_discrete (set_item ℕ_discrete 3 30 two).1 3 ≡ some 30
peek_written = peek-set_item_self ℕ_discrete 3 30 two two-IsValid

peek_other :
    (peek ℕ_discrete (set_item ℕ_discrete 3 30 two).1 1 ≡ peek ℕ_discrete two 1)
    ⊎ ((peek ℕ_discrete (set_item ℕ_discrete 3 30 two).1 1 ≡ none)
        × (length two.table ≡ two.capacity)
        × (peek ℕ_discrete two 3 ≡ none))
peek_other = peek-set_item_ne ℕ_discrete 3 1 30 two two-IsValid (omega arith)

full_cache :
    items (set_item ℕ_discrete 3 30 two).1
    ≡ (3, 30) ∷ items (record { table = (2, 20) ∷ []; capacity = 2 })
unfolding peek lookup ℕ_discrete
full_cache = set_item_full ℕ_discrete 3 30 (1, 10) ((2, 20) ∷ []) 2 two-IsValid refl refl
