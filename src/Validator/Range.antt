-- ===== src/Validator/Range.antt =====
-- Which numbers a range takes.
use native.Mathlib.Nat.{div-add-mod, mul-mod_right}
use py_qgis_wps.Prelude.{
  ℕ, ◌*◌, ◌/◌, ◌%◌, ◌+◌, ◌≡◌, refl, ◌∙◌, ◌↔◌, true, ◌==◌, Option, none, some, arith, inl, inr,
  if◌then◌else◌, Bool-cases, ==_iff,
}
use py_qgis_wps.Prelude.Int.{ℤ, pos_part, neg_part, gap, abs, ◌≤ℤ◌, ◌<ℤ◌}
use py_qgis_wps.Validator.{
  RangeClosureType, open_range, closed_range, open_closed, closed_open, on_step, validate_range_min,
  validate_range_max, validate_range_minmax, validate_bounds,
}

-- Above the lower bound, which counts if the closure says so, and below the upper one.
abbrev pub Above : RangeClosureType → ℤ → ℤ → Type 0
Above closed_range lo x = lo ≤ℤ x
Above closed_open lo x = lo ≤ℤ x
Above open_range lo x = lo <ℤ x
Above open_closed lo x = lo <ℤ x

abbrev pub Below : RangeClosureType → ℤ → ℤ → Type 0
Below closed_range hi x = x ≤ℤ hi
Below open_closed hi x = x ≤ℤ hi
Below open_range hi x = x <ℤ hi
Below closed_open hi x = x <ℤ hi

-- A whole number of steps above the lower bound.
pub data OnStep (lo x : ℤ) : Option ℤ → Type 0 where
  any_value : OnStep lo x none
  zero_step : (s : ℤ) → abs s ≡ 0 → OnStep lo x (some s)
  steps :
      (s : ℤ) (k : ℕ)
      → pos_part x + neg_part lo ≡ (pos_part lo + neg_part x) + abs s * k
      → OnStep lo x (some s)

-- The numbers that a range with these bounds is meant to take.
abbrev pub InRange : Option ℤ → Option ℤ → Option ℤ → RangeClosureType → ℤ → Type 0
InRange (some lo) (some hi) spacing closure x =
    Above closure lo x × Below closure hi x × OnStep lo x spacing
InRange (some lo) none spacing closure x = Above closure lo x × OnStep lo x spacing
InRange none (some hi) spacing closure x = Below closure hi x
InRange none none spacing closure x = Unit

mod-mul : (g s k : ℕ) → g ≡ s * k → g % s ≡ 0
mod-mul g s k e = rw e (mul-mod_right s k)

on_step-some :
    (s lo x : ℤ) → on_step (some s) lo x ≡ (if abs s == 0 then true else (gap lo x % abs s) == 0)
unfolding on_step
on_step-some s lo x = refl

-- The two directions for a spacing, by whether it is zero.
on_step_sound : (s lo x : ℤ) → lo ≤ℤ x → on_step (some s) lo x ≡ true → OnStep lo x (some s)
on_step_sound s lo x h e = elim (Bool-cases (abs s == 0)) [
  | inl z ↦ zero_step s ((==_iff (abs s) 0).0 z)
  | inr nz ↦
      let divides : gap lo x % abs s ≡ 0 =
        (==_iff (gap lo x % abs s) 0).0 (ground (arith, on_step-some s lo x, e, nz)) in
      steps s (gap lo x / abs s) (omega (arith, h, div-add-mod (gap lo x) (abs s), divides))
]

on_step_complete : (s lo x : ℤ) → OnStep lo x (some s) → on_step (some s) lo x ≡ true
on_step_complete _ lo x (zero_step s z) = on_step-some s lo x ∙ rw ((==_iff (abs s) 0).1 z) refl
on_step_complete _ lo x (steps s k e) =
    let divides : (gap lo x % abs s == 0) ≡ true =
      (==_iff (gap lo x % abs s) 0).1 (mod-mul (gap lo x) (abs s) k (omega (arith, e))) in
    ground (arith, on_step-some s lo x, divides)

on_step-OnStep :
    (spacing : Option ℤ) (lo x : ℤ) → lo ≤ℤ x → (on_step spacing lo x ≡ true) ↔ OnStep lo x spacing
on_step-OnStep none lo x h = unfold on_step in (λ e. any_value, λ o. refl)
on_step-OnStep (some s) lo x h = (on_step_sound s lo x h, on_step_complete s lo x)

-- What the test of both bounds comes to, and of the lower one.
minmax-InRange :
    (lo hi : ℤ) (spacing : Option ℤ) (closure : RangeClosureType) (x : ℤ)
    → (validate_range_minmax lo hi spacing closure x ≡ true)
      ↔ InRange (some lo) (some hi) spacing closure x
unfolding validate_range_minmax
minmax-InRange lo hi spacing open_range x = ground (arith, on_step-OnStep spacing lo x)
minmax-InRange lo hi spacing closed_range x = ground (arith, on_step-OnStep spacing lo x)
minmax-InRange lo hi spacing open_closed x = ground (arith, on_step-OnStep spacing lo x)
minmax-InRange lo hi spacing closed_open x = ground (arith, on_step-OnStep spacing lo x)

min-InRange :
    (lo : ℤ) (spacing : Option ℤ) (closure : RangeClosureType) (x : ℤ)
    → (validate_range_min lo spacing closure x ≡ true) ↔ InRange (some lo) none spacing closure x
unfolding validate_range_min
min-InRange lo spacing open_range x = ground (arith, on_step-OnStep spacing lo x)
min-InRange lo spacing closed_range x = ground (arith, on_step-OnStep spacing lo x)
min-InRange lo spacing open_closed x = ground (arith, on_step-OnStep spacing lo x)
min-InRange lo spacing closed_open x = ground (arith, on_step-OnStep spacing lo x)

max-InRange :
    (hi : ℤ) (spacing : Option ℤ) (closure : RangeClosureType) (x : ℤ)
    → (validate_range_max hi closure x ≡ true) ↔ InRange none (some hi) spacing closure x
unfolding validate_range_max
max-InRange hi spacing open_range x = ground arith
max-InRange hi spacing closed_range x = ground arith
max-InRange hi spacing open_closed x = ground arith
max-InRange hi spacing closed_open x = ground arith

-- A range takes exactly the numbers between its bounds, a bound itself only if the closure counts
-- it, that are a whole number of spacings above the lower bound. A range without a lower bound
-- takes no notice of its spacing, and one without bounds takes every number.
pub validate_bounds-InRange :
    (lo hi spacing : Option ℤ) (closure : RangeClosureType) (x : ℤ)
    → (validate_bounds lo hi spacing closure x ≡ true) ↔ InRange lo hi spacing closure x
unfolding validate_bounds
validate_bounds-InRange (some lo) (some hi) spacing closure x =
    minmax-InRange lo hi spacing closure x
validate_bounds-InRange (some lo) none spacing closure x = min-InRange lo spacing closure x
validate_bounds-InRange none (some hi) spacing closure x = max-InRange hi spacing closure x
validate_bounds-InRange none none spacing closure x = (λ e. tt, λ u. refl)
