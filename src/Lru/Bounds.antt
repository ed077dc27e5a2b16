-- ===== src/Lru/Bounds.antt =====
-- `lrucache`: what the eviction loops leave, and the invariant that every method keeps.
use py_qgis_wps.Prelude.{
  ℕ, suc, ◌+◌, ◌-◌, ◌≤◌, ◌<◌, ◌≡◌, refl, true, false, inl, inr, none, List, [], ◌∷◌, ◌++◌, arith,
  leb, ltb, leb→le, Dict, lookup, remove, Unique, length, drop, length-append, length-drop,
  length-remove-le, length-remove-some, Bool-cases, Option-cases, lookup-remove, remove-Unique,
  append-Unique, drop-Unique, remove_absent, lookup-drop,
}
use py_qgis_wps.Exceptions.{ok}
use py_qgis_wps.Lru.{Lru, evict_to, shrink_to, resize, init, clear, get_item, set_item, del_item}

-- The calls of a client that change the cache.
pub data Call {ℓ} (K V : Type ℓ) : Type ℓ where
  get : K → Call K V
  set : K → V → Call K V
  del : K → Call K V
  set_size : ℕ → Call K V
  wipe : Call K V

module _ {ℓ} {K V : Type ℓ} where
  -- The loops drop the oldest entries, exactly as many as the bound asks for.
  pub evict_to-drop :
      (n : ℕ) (d : Dict K V) → 0 < n → evict_to n d ≡ (ok tt, drop (length d + 1 - n) d)
  unfolding evict_to
  evict_to-drop n [] h = let z : 1 - n ≡ 0 = omega arith in rw z (ground arith)
  evict_to-drop n (e ∷ d) h = elim (Bool-cases (leb n (suc (length d)))) [
    | inl more ↦
        let le : n ≤ suc (length d) = leb→le n (suc (length d)) more in
        let z : suc (length d) + 1 - n ≡ suc (length d + 1 - n) = omega arith in
        rw (more, z) (evict_to-drop n d h)
    | inr done ↦ let z : suc (length d) + 1 - n ≡ 0 = ground arith in rw (done, z) refl
  ]

  pub shrink_to-drop : (n : ℕ) (d : Dict K V) → shrink_to n d ≡ drop (length d - n) d
  unfolding shrink_to
  shrink_to-drop n [] = let z : 0 - n ≡ 0 = omega arith in rw z refl
  shrink_to-drop n (e ∷ d) = elim (Bool-cases (ltb n (suc (length d)))) [
    | inl more ↦
        let z : suc (length d) - n ≡ suc (length d - n) = ground arith in
        rw (more, z) (shrink_to-drop n d)
    | inr done ↦ let z : suc (length d) - n ≡ 0 = ground arith in rw (done, z) refl
  ]

module _ {ℓ} {K V : Type ℓ} (dec : Discrete K) where
  -- A key stands once, and never more entries than the capacity.
  pub record IsValid (c : Lru K V) : Type ℓ where
    pub positive : 0 < c.capacity
    pub bounded : length c.table ≤ c.capacity
    pub unique : Unique dec c.table

  -- The entries that a `__setitem__` keeps: without the key, the newest that fit beside it.
  unfoldable pub kept : K → Lru K V → Dict K V
  kept k c = let d = remove dec k c.table in drop (length d + 1 - c.capacity) d

  -- `__setitem__` never raises on a valid cache: it keeps the newest entries that fit, in order,
  -- and the written key becomes the most recent.
  pub set_item-kept :
      (k : K) (v : V) (c : Lru K V)
      → IsValid c
      → set_item dec k v c ≡ (ok tt, record c { table = kept k c ++ (k, v) ∷ [] })
  unfolding set_item kept
  set_item-kept k v c h = elim (Option-cases (lookup dec k c.table)) [
    | inl new ↦ rw (new, evict_to-drop, h.positive, remove_absent dec k c.table new) refl
    | inr (w, old) ↦ rw (old, evict_to-drop, h.positive) refl
  ]

  pub lookup-kept : (k : K) (c : Lru K V) → IsValid c → lookup dec k (kept k c) ≡ none
  unfolding kept
  lookup-kept k c h = ground (
    arith,
    lookup-drop dec k (length (remove dec k c.table) + 1 - c.capacity) (remove dec k c.table)
        (remove-Unique dec k c.table h.unique),
    lookup-remove dec k k c.table,
  )

  kept-Unique : (k : K) (c : Lru K V) → IsValid c → Unique dec (kept k c)
  unfolding kept
  kept-Unique k c h = drop-Unique dec _ _ (remove-Unique dec k c.table h.unique)

  length-kept :
      (k : K) (v : V) (c : Lru K V) → IsValid c → length (kept k c ++ (k, v) ∷ []) ≤ c.capacity
  unfolding kept
  length-kept k v c h =
      let d = remove dec k c.table in
      let n = length d + 1 - c.capacity in
      let p = h.positive in omega (arith, length-append (drop n d) ((k, v) ∷ []), length-drop n d)

  pub set_item-IsValid : (k : K) (v : V) (c : Lru K V) → IsValid c → IsValid (set_item dec k v c).1
  set_item-IsValid k v c h =
      rw (set_item-kept, h)
        (record {
          positive = h.positive;
          bounded = length-kept k v c h;
          unique = append-Unique dec k v (kept k c) (lookup-kept k c h) (kept-Unique k c h);
        })

  pub get_item-IsValid : (k : K) (c : Lru K V) → IsValid c → IsValid (get_item dec k c).1
  unfolding get_item
  get_item-IsValid k c h = elim (Option-cases (lookup dec k c.table)) [
    | inl new ↦ rw (new, get_item) h
    | inr (v, old) ↦
        rw (old, get_item)
          (record {
            positive = h.positive;
            bounded = omega (
              arith,
              length-append (remove dec k c.table) ((k, v) ∷ []),
              length-remove-some dec k c.table v old,
              h.bounded,
            );
            unique =
                append-Unique dec k v (remove dec k c.table)
                  (ground (arith, lookup-remove dec k k c.table))
                  (remove-Unique dec k c.table h.unique);
          })
  ]

  pub del_item-IsValid : (k : K) (c : Lru K V) → IsValid c → IsValid (del_item dec k c).1
  unfolding del_item
  del_item-IsValid k c h = elim (Option-cases (lookup dec k c.table)) [
    | inl new ↦ rw (new, del_item) h
    | inr (v, old) ↦
        rw (old, del_item)
          (record {
            positive = h.positive;
            bounded = omega (arith, length-remove-le dec k c.table, h.bounded);
            unique = remove-Unique dec k c.table h.unique;
          })
  ]

  pub resize-IsValid : (n : ℕ) (c : Lru K V) → IsValid c → IsValid (resize n c).1
  unfolding resize
  resize-IsValid n c h = elim (Bool-cases (ltb 0 n)) [
    | inr bad ↦ rw (bad, resize) h
    | inl good ↦ elim (Bool-cases (ltb n c.capacity)) [
      | inl smaller ↦
          rw (good, smaller)
            (record {
              positive = ground arith;
              bounded = rw shrink_to-drop (omega (arith, length-drop (length c.table - n) c.table));
              unique = rw shrink_to-drop (drop-Unique dec _ _ h.unique);
            })
      | inr larger ↦
          rw (good, larger)
            (record {
              positive = ground arith;
              bounded = ground (arith, h.bounded);
              unique = h.unique;
            })
    ]
  ]

  unfoldable pub step : Call K V → Lru K V → Lru K V
  step (get k) c = (get_item dec k c).1
  step (set k v) c = (set_item dec k v c).1
  step (del k) c = (del_item dec k c).1
  step (set_size n) c = (resize n c).1
  step wipe c = clear c

  unfoldable pub run : List (Call K V) → Lru K V → Lru K V
  run [] c = c
  run (call ∷ calls) c = run calls (step call c)

  step-IsValid : (call : Call K V) (c : Lru K V) → IsValid c → IsValid (step call c)
  unfolding step clear
  step-IsValid (get k) c h = get_item-IsValid k c h
  step-IsValid (set k v) c h = set_item-IsValid k v c h
  step-IsValid (del k) c h = del_item-IsValid k c h
  step-IsValid (set_size n) c h = resize-IsValid n c h
  step-IsValid wipe c h = record { positive = h.positive; bounded = omega arith; unique = tt }

  run-IsValid : (calls : List (Call K V)) (c : Lru K V) → IsValid c → IsValid (run calls c)
  unfolding run
  run-IsValid [] c h = h
  run-IsValid (call ∷ calls) c h = run-IsValid calls (step call c) (step-IsValid call c h)

  pub init-IsValid : (n : ℕ) → 0 < n → IsValid (init {K = K} {V = V} n).1
  unfolding init
  init-IsValid n h =
      let t : ltb 0 n ≡ true = ground arith in
      let u : ltb n n ≡ false = ground arith in
      rw (t, u) (record { positive = h; bounded = omega arith; unique = tt })

  -- A cache of a positive size stays valid through every sequence of calls, whether they raise
  -- or not: a key stands once, and the entries never pass the current capacity.
  pub run-init-IsValid : (n : ℕ) (calls : List (Call K V)) → 0 < n → IsValid (run calls (init n).1)
  run-init-IsValid n calls h = run-IsValid calls (init n).1 (init-IsValid n h)
