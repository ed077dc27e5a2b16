-- ===== src/Lru/Reads.antt =====
-- `lrucache`: what can be read after a call, and which entry makes room for a new one.
use py_qgis_wps.Prelude.{
  ℕ, suc, ◌+◌, ◌-◌, ◌≡◌, ◌≢◌, refl, ap, ◌⊎◌, inl, inr, Option, none, some, [], ◌∷◌, ◌++◌, arith,
  Dict, lookup, remove, length, drop, dec_lt, Option-cases, lookup-append, lookup-remove,
  remove-Unique, lookup-drop, remove_absent, length-remove-some,
}
use mathlib.Core.List.{reverse-append}
use py_qgis_wps.Exceptions.{key_error, Result, ok, raise}
use py_qgis_wps.Lru.{Lru, peek, items, get_item, set_item}
use py_qgis_wps.Lru.Bounds.{IsValid, kept, set_item-kept, lookup-kept}

-- What `[]` makes of a key: the exception for one that is missing.
abbrev pub or_key_error {ℓ} : {V : Type ℓ} → Option V → Result V
or_key_error none = raise key_error
or_key_error (some v) = ok v

module _ {ℓ} {K V : Type ℓ} (dec : Discrete K) where
  -- A look-up raises exactly when `peek` finds nothing, and returns what `peek` finds.
  pub get_item-peek : (k : K) (c : Lru K V) → (get_item dec k c).0 ≡ or_key_error (peek dec c k)
  unfolding get_item peek
  get_item-peek k c = ground arith

  -- A look-up changes the order of the entries and nothing that can be read.
  pub peek-get_item : (k q : K) (c : Lru K V) → peek dec (get_item dec k c).1 q ≡ peek dec c q
  unfolding get_item peek
  peek-get_item k q c = elim (Option-cases (lookup dec k c.table)) [
    | inl absent ↦ rw (absent, get_item) refl
    | inr (v, present) ↦
        rw (present, get_item, lookup-append dec q (remove dec k c.table) ((k, v) ∷ []))
          (ground (arith, lookup-remove dec k q c.table))
  ]

  lookup-kept_self :
      (k : K) (v : V) (c : Lru K V)
      → IsValid dec c
      → lookup dec k (kept dec k c ++ (k, v) ∷ []) ≡ some v
  unfolding lookup
  lookup-kept_self k v c h =
      ground (arith, lookup-append dec k (kept dec k c) ((k, v) ∷ []), lookup-kept dec k c h)

  -- What was written is read back.
  pub peek-set_item_self :
      (k : K) (v : V) (c : Lru K V) → IsValid dec c → peek dec (set_item dec k v c).1 k ≡ some v
  unfolding peek
  peek-set_item_self k v c h = rw (set_item-kept dec k v c h) (lookup-kept_self k v c h)

  drop_zero : (n : ℕ) (d : Dict K V) → n ≡ 0 → drop n d ≡ d
  drop_zero n d h = rw h refl

  evicted :
      (q k : K) (v : V) (n : ℕ) (d t : Dict K V) {full : Type 0}
      → lookup dec q (drop n d ++ (k, v) ∷ [])
        ≡ elim (lookup dec q (drop n d)) [ none ↦ lookup dec q ((k, v) ∷ []) | some w ↦ some w ]
      → (lookup dec q (drop n d) ≡ lookup dec q d) ⊎ (lookup dec q (drop n d) ≡ none)
      → d ≡ t
      → q ≢ k
      → full
      → lookup dec k t ≡ none
      → (lookup dec q (drop n d ++ (k, v) ∷ []) ≡ lookup dec q t)
        ⊎ ((lookup dec q (drop n d ++ (k, v) ∷ []) ≡ none) × full × (lookup dec k t ≡ none))
  unfolding lookup
  evicted q k v n d t a (inl stays) same e f new = inl (ground arith)
  evicted q k v n d t a (inr goes) same e f new = inr (ground arith, f, new)

  lookup-kept_ne :
      (k q : K) (v : V) (c : Lru K V)
      → IsValid dec c
      → q ≢ k
      → (lookup dec q (kept dec k c ++ (k, v) ∷ []) ≡ lookup dec q c.table)
        ⊎ ((lookup dec q (kept dec k c ++ (k, v) ∷ []) ≡ none)
            × (length c.table ≡ c.capacity)
            × (lookup dec k c.table ≡ none))
  unfolding kept lookup
  lookup-kept_ne k q v c h e =
      let d = remove dec k c.table in
      let n = length d + 1 - c.capacity in
      let appended = lookup-append dec q (drop n d) ((k, v) ∷ []) in
      let unique = remove-Unique dec k c.table h.unique in
      elim (Option-cases (lookup dec k c.table)) [
        | inl new ↦
            let same = remove_absent dec k c.table new in
            elim (dec_lt (length c.table) c.capacity) [
              | yes room ↦
                  let z : n ≡ 0 = omega (arith, ap length same) in
                  inl
                    (rw (appended, drop_zero n d z) (ground (arith, lookup-remove dec k q c.table)))
              | no full ↦
                  evicted q k v n d c.table appended (lookup-drop dec q n d unique) same e
                    (omega (arith, h.bounded)) new
            ]
        | inr (w, old) ↦
            let z : n ≡ 0 = omega (arith, h.bounded, length-remove-some dec k c.table w old) in
            inl (rw (appended, drop_zero n d z) (ground (arith, lookup-remove dec k q c.table)))
      ]

  -- Another key keeps its value, or it is evicted: only a new key in a full cache evicts.
  pub peek-set_item_ne :
      (k q : K) (v : V) (c : Lru K V)
      → IsValid dec c
      → q ≢ k
      → (peek dec (set_item dec k v c).1 q ≡ peek dec c q)
        ⊎ ((peek dec (set_item dec k v c).1 q ≡ none)
            × (length c.table ≡ c.capacity)
            × (peek dec c k ≡ none))
  unfolding peek
  peek-set_item_ne k q v c h e = rw (set_item-kept dec k v c h) (lookup-kept_ne k q v c h e)

  -- In a valid cache that is full, a new key takes the place of the least recently used entry.
  pub set_item_full :
      (k : K) (v : V) (e : K × V) (d : Dict K V) (cap : ℕ)
      → IsValid dec (record { table = e ∷ d; capacity = cap })
      → suc (length d) ≡ cap
      → peek dec (record { table = e ∷ d; capacity = cap }) k ≡ none
      → items (set_item dec k v (record { table = e ∷ d; capacity = cap })).1
        ≡ (k, v) ∷ items (record { table = d; capacity = cap })
  unfolding items kept peek
  set_item_full k v e d cap h full new =
      let z : suc (length d) + 1 - cap ≡ 1 = omega arith in
      rw (set_item-kept dec k v _ h, remove_absent dec k _ new, z, reverse-append) refl
