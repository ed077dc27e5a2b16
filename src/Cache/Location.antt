-- ===== src/Cache/Location.antt =====
-- What a handler finds at two moments.
use py_qgis_wps.Prelude.{
  ℕ, ◌≤◌, ◌<◌, ◌≡◌, refl, sym, ◌∙◌, subst, ◌⊎◌, inl, inr, String, true, none, some, List, [], ◌∷◌,
  elem, str_dec, arith, Bool-cases, Option-cases,
}
use py_qgis_wps.Exceptions.{file_not_found_error, Result, ok, raise, ok-eq}
use py_qgis_wps.Cache.Manager.{PathLib, Disk, get_storage_metadata, existing, try_suffixes, locate}

-- Every file is at least as old as the moment.
pub record Moment {P : Type 0} (w : Disk P) : Type 0 where
  pub files : (p : String) → w.is_file p ≡ true → w.mtime p ≤ w.now
  pub storages : (u : String) (t : ℕ) → w.storage u ≡ some (some t) → t ≤ w.now

-- A later moment: no file went, and what is not as it was has a modification time after the earlier
-- moment.
pub record Later {P : Type 0} (w0 w : Disk P) : Type 0 where
  pub time : w0.now ≤ w.now
  pub kept : (p : String) → w0.is_file p ≡ true → w.is_file p ≡ true
  pub files :
      (p : String)
      → w.is_file p ≡ true
      → (w0.now < w.mtime p)
        ⊎ ((w0.is_file p ≡ true) × (w.mtime p ≡ w0.mtime p) × (w.contents p ≡ w0.contents p))
  pub storages :
      (u : String) (t : ℕ)
      → w.storage u ≡ some (some t)
      → (w0.now < t) ⊎ ((w0.storage u ≡ some (some t)) × (w.contents u ≡ w0.contents u))

-- What a location says at two moments: the later one is newer, or it is the same.
abbrev pub Settled : {P : Type 0} → Disk P → Disk P → String × ℕ → String × ℕ → Type 0
Settled w0 w (q0, t0) (q, t) = (t0 < t) ⊎ ((q ≡ q0) × (t ≡ t0) × (w.contents q ≡ w0.contents q))

metadata_some :
    {P : Type 0} (w : Disk P) (u : String) (l : String × ℕ)
    → get_storage_metadata w u ≡ ok l
    → (w.storage u ≡ some (some l.1)) × (u ≡ l.0)
unfolding get_storage_metadata
metadata_some w u l h = elim (Option-cases (w.storage u)) [
  | inl missing ↦ absurd (ground arith)
  | inr (none, unreadable) ↦ absurd (ground arith)
  | inr (some t, found) ↦
      subst (λ y. (w.storage u ≡ some (some y.1)) × (u ≡ y.0)) {x = (u, t)}
        (ok-eq (sym (rw (found, get_storage_metadata) refl) ∙ h)) (found, refl)
]

module _ {P : Type 0} (w0 w : Disk P) (moment : Moment w0) (later : Later w0 w) where
  Settled-eq :
      {x0 x l0 l : String × ℕ} → ok x0 ≡ ok l0 → ok x ≡ ok l → Settled w0 w x0 x → Settled w0 w l0 l
  Settled-eq {x0} {x} {l0} {l} h0 h s =
      subst (λ y. Settled w0 w y l) (ok-eq h0) (subst (λ y. Settled w0 w x0 y) (ok-eq h) s)

  file_settled :
      (path : String)
      → w0.is_file path ≡ true
      → Settled w0 w (path, w0.mtime path) (path, w.mtime path)
  file_settled path here = elim (later.files path (later.kept path here)) [
    | inl newer ↦ inl (omega (arith, newer, moment.files path here))
    | inr (_, time, same) ↦ inr (refl, time, same)
  ]

  pub storage_settled :
      (u : String) (l0 l : String × ℕ)
      → get_storage_metadata w0 u ≡ ok l0
      → get_storage_metadata w u ≡ ok l
      → Settled w0 w l0 l
  storage_settled u l0 l h0 h =
      let (found0, e0) = metadata_some w0 u l0 h0 in
      let (found, e) = metadata_some w u l h in
      elim (later.storages u l.1 found) [
        | inl newer ↦ inl (omega (arith, newer, moment.storages u l0.1 found0))
        | inr (stored, same) ↦
            inr (sym e ∙ e0, cc (found0, stored), subst (λ v. w.contents v ≡ w0.contents v) e same)
      ]

  module _ (paths : PathLib) where
    existing_settled :
        (path : String) (o0 o : Result (String × ℕ)) (l0 l : String × ℕ)
        → (o0 ≡ ok l0 → l0.1 ≤ w0.now)
        → (o0 ≡ ok l0 → o ≡ ok l → Settled w0 w l0 l)
        → existing paths w0 path o0 ≡ ok l0
        → existing paths w path o ≡ ok l
        → Settled w0 w l0 l
    unfolding existing
    existing_settled path o0 o l0 l past rest h0 h = elim (Bool-cases (w0.is_file path)) [
      | inl here ↦
          Settled-eq (sym (rw here refl) ∙ h0) (sym (rw (later.kept path here) refl) ∙ h)
            (file_settled path here)
      | inr missing ↦
          let l0_there : o0 ≡ ok l0 = sym (rw missing refl) ∙ h0 in
          elim (Bool-cases (w.is_file path)) [
            | inr still ↦ rest l0_there (sym (rw still refl) ∙ h)
            | inl new ↦ elim (later.files path new) [
              | inl newer ↦ inl (
                  subst (λ y. l0.1 < y.1) {x = (path, w.mtime path)} (ok-eq (sym (rw new refl) ∙ h))
                    (omega (arith, past l0_there, newer)))
              | inr (there, _, _) ↦ absurd (cc (missing, there))
            ]
          ]
    ]

    existing_past :
        (path : String) (o0 : Result (String × ℕ)) (l0 : String × ℕ)
        → (o0 ≡ ok l0 → l0.1 ≤ w0.now)
        → existing paths w0 path o0 ≡ ok l0
        → l0.1 ≤ w0.now
    unfolding existing
    existing_past path o0 l0 past h0 = elim (Bool-cases (w0.is_file path)) [
      | inl here ↦
          subst (λ y. y.1 ≤ w0.now) {x = (path, w0.mtime path)} (ok-eq (sym (rw here refl) ∙ h0))
            (moment.files path here)
      | inr missing ↦ past (sym (rw missing refl) ∙ h0)
    ]

    try_suffixes_past :
        (sfxs : List String) (path : String) (l0 : String × ℕ)
        → try_suffixes paths w0 sfxs path ≡ ok l0
        → l0.1 ≤ w0.now
    unfolding try_suffixes
    try_suffixes_past [] path l0 h0 = absurd (cc (h0))
    try_suffixes_past (sfx ∷ rest) path l0 h0 = elim (Option-cases (paths.with_suffix path sfx)) [
      | inl bad ↦ absurd (ground (arith, bad, h0))
      | inr (q, made) ↦
          existing_past q (try_suffixes paths w0 rest q) l0 (try_suffixes_past rest q l0)
            (sym (rw (made, try_suffixes) refl) ∙ h0)
    ]

    try_suffixes_settled :
        (sfxs : List String) (path : String) (l0 l : String × ℕ)
        → try_suffixes paths w0 sfxs path ≡ ok l0
        → try_suffixes paths w sfxs path ≡ ok l
        → Settled w0 w l0 l
    unfolding try_suffixes
    try_suffixes_settled [] path l0 l h0 h = absurd (cc (h0))
    try_suffixes_settled (sfx ∷ rest) path l0 l h0 h =
        elim (Option-cases (paths.with_suffix path sfx)) [
          | inl bad ↦ absurd (ground (arith, bad, h0))
          | inr (q, made) ↦
              existing_settled q (try_suffixes paths w0 rest q) (try_suffixes paths w rest q) l0 l
                (try_suffixes_past rest q l0) (try_suffixes_settled rest q l0 l)
                (sym (rw (made, try_suffixes) refl) ∙ h0) (sym (rw (made, try_suffixes) refl) ∙ h)
        ]

    pub locate_settled :
        (path : String) (l0 l : String × ℕ)
        → locate paths w0 path ≡ ok l0
        → locate paths w path ≡ ok l
        → Settled w0 w l0 l
    unfolding locate
    locate_settled path l0 l h0 h = elim (Bool-cases (paths.is_absolute path)) [
      | inr relative ↦ absurd (ground (arith, relative, h0))
      | inl absolute ↦ elim (Bool-cases (elem str_dec (paths.suffix path) (".qgs" ∷ ".qgz" ∷ []))) [
        | inl project ↦
            existing_settled path (raise file_not_found_error) (raise file_not_found_error) l0 l
              (λ e. absurd (cc (e))) (λ e _. absurd (cc (e)))
              (sym (rw (absolute, project) refl) ∙ h0) (sym (rw (absolute, project) refl) ∙ h)
        | inr other ↦
            try_suffixes_settled (".qgs" ∷ ".qgz" ∷ []) path l0 l
              (sym (rw (absolute, other) refl) ∙ h0) (sym (rw (absolute, other) refl) ∙ h)
      ]
    ]
