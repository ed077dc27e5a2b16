-- ===== src/Contrib/Watch.antt =====
-- watchfiles.py: which files a periodic callback reports as modified.
use py_qgis_wps.Prelude.{
  ℕ, ◌≡◌, ◌≢◌, refl, ap, ◌∙◌, inl, inr, String, Bool, true, false, ◌==◌, Option, none, some, List,
  [], ◌∷◌, Dict, lookup, insert, lookup-insert, str_dec, elem, arith, Option-cases, Bool-cases,
  if◌then◌else◌, holds, ◌||◌, ◌&&◌, not, ◌⊎◌, if_pos, if_neg, subst,
}

-- The times of the files, `none` where `os.stat` raises.
abbrev pub Stat : Type 0
Stat = String → Option ℕ

-- `_check_file`: whether the path is returned, and the times that are remembered.
unfoldable pub check_file : Stat → String → Dict String ℕ → Bool × Dict String ℕ
unfolding lookup insert
check_file stat path modify_times = elim (stat path) [
  | none ↦ (false, modify_times)
  | some modified ↦ elim (lookup str_dec path modify_times) [
    | none ↦ (false, insert str_dec path modified modify_times)
    | some seen ↦
        if seen == modified
        then (false, modify_times)
        else (true, insert str_dec path modified modify_times)
  ]
]

-- The comprehension of `_update_callback`: the files that are modified.
unfoldable pub modified_files : Stat → List String → Dict String ℕ → List String × Dict String ℕ
unfolding check_file
modified_files stat [] modify_times = ([], modify_times)
modified_files stat (path ∷ paths) modify_times =
    let (changed, times) = check_file stat path modify_times in
    let (rest, times') = modified_files stat paths times in
    (if changed then path ∷ rest else rest, times')

-- `_update_callback`: the files that the hook is run for; none is no run.
unfoldable pub update_callback :
    Stat → List String → Dict String ℕ → Option (List String) × Dict String ℕ
unfolding modified_files
update_callback stat watched_files modify_times =
    let (files, times) = modified_files stat watched_files modify_times in
    (elim files [ [] ↦ none | f ∷ fs ↦ some (f ∷ fs) ], times)

-- A file that is there and was seen before with another time.
abbrev time_differs : Option ℕ → Option ℕ → Bool
time_differs none seen = false
time_differs (some t) none = false
time_differs (some t) (some s) = not (s == t)

abbrev pub is_modified : Stat → Dict String ℕ → String → Bool
is_modified stat times path = time_differs (stat path) (lookup str_dec path times)

check_file_changed :
    (stat : Stat) (path : String) (times : Dict String ℕ)
    → (check_file stat path times).0 ≡ is_modified stat times path
unfolding check_file
check_file_changed stat path times = ground arith

-- The times stay as they are, or the time of the file is remembered.
check_file_cases :
    (stat : Stat) (path : String) (times : Dict String ℕ)
    → (((check_file stat path times).1 ≡ times) × (is_modified stat times path ≡ false))
      ⊎ ((t : ℕ) × (stat path ≡ some t)
          × ((check_file stat path times).1 ≡ insert str_dec path t times))
unfolding check_file
check_file_cases stat path times = elim (Option-cases (stat path)) [
  | inl missing ↦ inl (rw (missing, check_file) (refl, refl))
  | inr (t, there) ↦ elim (Option-cases (lookup str_dec path times)) [
    | inl new ↦ inr (t, there, rw (there, new, check_file) refl)
    | inr (s, seen) ↦ elim (Bool-cases (s == t)) [
      | inl same ↦ inl (rw (there, seen, same, check_file) refl, rw (there, seen, same) refl)
      | inr other ↦ inr (t, there, rw (there, seen, other, check_file) refl)
    ]
  ]
]

-- The time of another file is left alone.
check_file_ne :
    (stat : Stat) (path q : String) (times : Dict String ℕ)
    → path ≢ q
    → is_modified stat (check_file stat path times).1 q ≡ is_modified stat times q
check_file_ne stat path q times other = elim (check_file_cases stat path times) [
  | inl (same, _) ↦ ap (λ d. is_modified stat d q) same
  | inr (t, _, added) ↦
      ap (λ d. is_modified stat d q) added
      ∙ ap (time_differs (stat q))
          (lookup-insert str_dec path q t times ∙ if_neg (str_dec path q) other _ _)
]

time_differs_self : (t : ℕ) → time_differs (some t) (some t) ≡ false
time_differs_self t = ground arith

-- A file that was just checked is not modified.
check_file_self :
    (stat : Stat) (path : String) (times : Dict String ℕ)
    → is_modified stat (check_file stat path times).1 path ≡ false
check_file_self stat path times = elim (check_file_cases stat path times) [
  | inl (same, unchanged) ↦ ap (λ d. is_modified stat d path) same ∙ unchanged
  | inr (t, there, added) ↦
      ap (λ d. is_modified stat d path) added
      ∙ ap (time_differs (stat path))
          (lookup-insert str_dec path path t times ∙ if_pos (str_dec path path) refl _ _)
      ∙ ap (λ o. time_differs o (some t)) there
      ∙ time_differs_self t
]

elem-if :
    (p q : String) (b : Bool) (l : List String)
    → elem str_dec p (if b then q ∷ l else l) ≡ (b && holds (str_dec q p)) || elem str_dec p l
elem-if p q true l = refl
elem-if p q false l = refl

here_once :
    {m n m' : Bool} (e : Bool) → m ≡ n → m' ≡ false → (m && true) || (e && m') ≡ (true || e) && n
here_once e h k = ground (arith, h, k)

elsewhere : {m' n : Bool} (m e : Bool) → m' ≡ n → (m && false) || (e && m') ≡ (false || e) && n
elsewhere m e h = ground (arith, h)

-- The list holds the watched files that are there and were seen before with
-- another time, however often a file is watched.
pub elem-modified_files :
    (stat : Stat) (files : List String) (times : Dict String ℕ) (p : String)
    → elem str_dec p (modified_files stat files times).0
      ≡ elem str_dec p files && is_modified stat times p
unfolding modified_files
elem-modified_files stat [] times p = refl
elem-modified_files stat (q ∷ files) times p =
    let times' = (check_file stat q times).1 in
    elem-if p q (check_file stat q times).0 (modified_files stat files times').0
    ∙ ap (λ b. ((check_file stat q times).0 && holds (str_dec q p)) || b)
        (elem-modified_files stat files times' p)
    ∙ ap (λ b. (b && holds (str_dec q p)) || (elem str_dec p files && is_modified stat times' p))
        (check_file_changed stat q times)
    ∙ elim (str_dec q p)
        as (λ c.
          (is_modified stat times q && holds c)
            || (elem str_dec p files && is_modified stat times' p)
          ≡ (holds c || elem str_dec p files) && is_modified stat times p) [
            | yes same ↦
                here_once (elem str_dec p files) (ap (is_modified stat times) same) (
                  subst (λ r. is_modified stat times' r ≡ false) same
                    (check_file_self stat q times))
            | no other ↦
                elsewhere (is_modified stat times q) (elem str_dec p files)
                  (check_file_ne stat q p times other)
          ]

-- The files that the hook is given.
abbrev pub reported : Option (List String) → List String
reported none = []
reported (some files) = files

reported_same :
    (files : List String) → reported (elim files [ [] ↦ none | f ∷ fs ↦ some (f ∷ fs) ]) ≡ files
reported_same [] = refl
reported_same (f ∷ fs) = refl

-- The hook is given a file exactly if the file is watched, is there, and was seen before with
-- another modification time, in whatever order and however often it is watched.
pub elem-update_callback :
    (stat : Stat) (files : List String) (times : Dict String ℕ) (p : String)
    → elem str_dec p (reported (update_callback stat files times).0)
      ≡ elem str_dec p files && is_modified stat times p
unfolding update_callback
elem-update_callback stat files times p =
    ap (elem str_dec p) (reported_same (modified_files stat files times).0)
    ∙ elem-modified_files stat files times p
