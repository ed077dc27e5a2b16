-- ===== src/Handlers/Preferences/Applied.antt =====
-- Which preferences are granted, and which headers are refused.
use py_qgis_wps.Prelude.{
  ◌≡◌, refl, ◌+◌, ◌==◌, sym, ap, ◌∙◌, inl, inr, min, ℕ, String, Bool, true, false, ◌&&◌, ◌||◌, not,
  Option, none, some, List, [], ◌∷◌, ◌++◌, any, map, is_some, str_dec, holds, Bool-cases, arith,
  leb,
}
use py_qgis_wps.Prelude.Int.{ℤ, pos, negsuc, leb_ℤ, max_zero}
use py_qgis_wps.Prelude.Text.{join, starts_with, lower, strip, split}
use py_qgis_wps.Exceptions.{Result, Result-cases, ok, raise}
use py_qgis_wps.Exec.{>>=-eq-ok}
use py_qgis_wps.Request.{Request}
use py_qgis_wps.Api.Execute.{check_preferences, check_and_set_timeout, check_and_set_expiration}
use py_qgis_wps.Handlers.Preferences.{
  ExecutePrefs, no_prefs, value_of, add_preference, add_preferences, get_execute_prefs, same_number,
  named, preference_applied, with_timeout, with_expire,
}

abbrev pub is_raise {ℓ} : {A : Type ℓ} → Result A → Bool
is_raise (ok a) = false
is_raise (raise e) = true

-- Whether a preferred time is within what a request allows.
abbrev pub is_within : Option ℤ → ℕ → Bool
is_within none n = false
is_within (some z) n = leb_ℤ z (pos n)

same_min : (m n : ℕ) → (n == min m n) ≡ leb (n + 0) (m + 0)
same_min m n = ground arith

positive-min :
    (z : ℤ) (m : ℕ)
    → leb_ℤ z (pos 0) ≡ false
    → same_number (some z) (min m (max_zero z)) ≡ leb_ℤ z (pos m)
unfolding same_number
positive-min (pos n) m e = same_min m n
positive-min (negsuc n) m e = absurd (ground (arith, e))

positive-max_zero : (z : ℤ) → leb_ℤ z (pos 0) ≡ false → same_number (some z) (max_zero z) ≡ true
unfolding same_number
positive-max_zero (pos n) e = ground arith
positive-max_zero (negsuc n) e = absurd (ground (arith, e))

after_timeout :
    (timeout : Option ℤ) (r : Request)
    → (check_and_set_timeout timeout r).0 ≡ ok tt
    → same_number timeout (check_and_set_timeout timeout r).1.timeout ≡ is_within timeout r.timeout
unfolding check_and_set_timeout same_number
after_timeout none r h = refl
after_timeout (some z) r h = elim (Bool-cases (leb_ℤ z (pos 0))) [
  | inl e ↦ absurd (cc (rw (e, check_and_set_timeout) at h))
  | inr e ↦ rw (e, check_and_set_timeout) (positive-min z r.timeout e)
]

after_expiration :
    (expire : Option ℤ) (r : Request)
    → (check_and_set_expiration expire r).0 ≡ ok tt
    → (same_number expire (check_and_set_expiration expire r).1.expiration ≡ is_some expire)
      × ((check_and_set_expiration expire r).1.timeout ≡ r.timeout)
unfolding check_and_set_expiration same_number
after_expiration none r h = (refl, refl)
after_expiration (some z) r h = elim (Bool-cases (leb_ℤ z (pos 0))) [
  | inl e ↦ absurd (cc (rw (e, check_and_set_expiration) at h))
  | inr e ↦ rw (e, check_and_set_expiration) (positive-max_zero z e, refl)
]

-- After the checks of a request, the reply names the asynchronous execution where it was preferred,
-- the timeout exactly where it is within what the request allowed before, and the expiration
-- wherever one was preferred.
pub preference_applied-granted :
    (p : ExecutePrefs) (r r' : Request)
    → check_preferences p.timeout p.expire r ≡ (ok tt, r')
    → preference_applied p r'
      ≡ join "," (
          named p.execute_async "respond-async"
          ++ named (is_within p.timeout r.timeout) "wait"
          ++ named (is_some p.expire) "x-expire")
unfolding check_preferences preference_applied
preference_applied-granted p r r' h =
    let t = check_and_set_timeout p.timeout r in
    let (u, first, rest) =
      >>=-eq-ok (check_and_set_timeout p.timeout) (λ _. check_and_set_expiration p.expire) r h in
    let last : check_and_set_expiration p.expire t.1 ≡ (ok tt, r') = rest in
    let (same, kept) = after_expiration p.expire t.1 (ap (λ x. x.0) last) in
    let ends : (check_and_set_expiration p.expire t.1).1 ≡ r' = ap (λ x. x.1) last in
    let waited =
      ap (same_number p.timeout) (sym (ap (λ (q : Request). q.timeout) ends) ∙ kept)
      ∙ after_timeout p.timeout r first in
    let expired = ap (λ (q : Request). same_number p.expire q.expiration) (sym ends) ∙ same in
    rw (waited, expired, preference_applied) refl

-- A part of the header whose number cannot be read.
abbrev pub is_unreadable : (String → Result ℤ) → String → Bool
is_unreadable int_of pref =
    not (holds (str_dec pref "respond-async"))
    && (starts_with "wait=" pref || starts_with "x-expire=" pref)
    && is_raise (value_of int_of pref)

add_preference-is_unreadable :
    (int_of : String → Result ℤ) (pref : String) (p : ExecutePrefs)
    → is_raise (add_preference int_of pref p) ≡ is_unreadable int_of pref
unfolding add_preference with_timeout with_expire
add_preference-is_unreadable int_of pref p =
    elim (Bool-cases (holds (str_dec pref "respond-async"))) [
      | inl a ↦ rw (a, add_preference) refl
      | inr a ↦ elim (Bool-cases (starts_with "wait=" pref)) [
        | inl b ↦ rw (a, b, add_preference) (kept_timeout (value_of int_of pref))
        | inr b ↦ elim (Bool-cases (starts_with "x-expire=" pref)) [
          | inl c ↦ rw (a, b, c, add_preference) (kept_expire (value_of int_of pref))
          | inr c ↦ rw (a, b, c, add_preference) refl
        ]
      ]
    ]
  where
    kept_timeout : (x : Result ℤ) → is_raise (with_timeout p x) ≡ is_raise x
    kept_timeout (ok z) = refl
    kept_timeout (raise e) = refl

    kept_expire : (x : Result ℤ) → is_raise (with_expire p x) ≡ is_raise x
    kept_expire (ok z) = refl
    kept_expire (raise e) = refl

add_preferences-is_unreadable :
    (int_of : String → Result ℤ) (prefs : List String) (p : ExecutePrefs)
    → is_raise (add_preferences int_of prefs p) ≡ any (is_unreadable int_of) prefs
unfolding add_preferences
add_preferences-is_unreadable int_of [] p = refl
add_preferences-is_unreadable int_of (pref ∷ prefs) p =
    let first = add_preference-is_unreadable int_of pref p in
    elim (Result-cases (add_preference int_of pref p)) [
      | inl (e, bad) ↦ rw (← first, bad, add_preferences) refl
      | inr (q, good) ↦
          rw (← first, good, add_preferences) (add_preferences-is_unreadable int_of prefs q)
    ]

-- A header is refused exactly where some part of it prefers a
-- time whose number cannot be read.
pub get_execute_prefs-is_unreadable :
    (int_of : String → Result ℤ) (prefer : String)
    → is_raise (get_execute_prefs int_of (some prefer))
      ≡ any (is_unreadable int_of) (map (λ p. lower (strip " " p)) (split "," prefer))
unfolding get_execute_prefs
get_execute_prefs-is_unreadable int_of prefer = add_preferences-is_unreadable int_of _ no_prefs
