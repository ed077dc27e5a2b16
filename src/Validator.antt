-- ===== src/Validator.antt =====
-- validator/literalvalidator.py, allowed_value.py, mode.py and base.py, and `AllowedValues` of
-- inout/literaltypes.py: which literals an input takes. Numbers are integers.
pub mod Range
mod Tests
use py_qgis_wps.Prelude.{
  ℕ, ◌%◌, String, Bool, true, false, not, ◌&&◌, ◌==◌, Option, none, some, List, [], ◌∷◌, leb, elem,
  str_dec, ℕ_discrete, if◌then◌else◌,
}
use py_qgis_wps.Prelude.Int.{ℤ, pos, negsuc, leb_ℤ, ltb_ℤ, gap, abs}
use py_qgis_wps.Exceptions.{type_error, attribute_error, Result, ok, raise}

pub data Mode : Type 0 where
  mode_none simple strict verystrict : Mode

pub data AllowedValueType : Type 0 where
  value_type range_type layer_type : AllowedValueType

pub data RangeClosureType : Type 0 where
  open_range closed_range open_closed closed_open : RangeClosureType

-- A literal: a number or a text.
pub data Value : Type 0 where
  number : ℤ → Value
  text : String → Value

unfoldable pub ℤ_dec : Discrete ℤ
unfolding ℕ_discrete
ℤ_dec = hlevel ℕ_discrete

unfoldable pub value_dec : Discrete Value
unfolding ℤ_dec str_dec
value_dec = hlevel (ℤ_dec, str_dec)

pub record AllowedValues : Type 0 where
  pub allowed_type : AllowedValueType
  pub values : Option (List Value)
  pub minval : Option ℤ
  pub maxval : Option ℤ
  pub spacing : Option ℤ
  pub range_closure : RangeClosureType

-- `AllowedValues.positiveValue`, `nonNegativeValue` and `range`
abbrev pub positive_value : AllowedValues
positive_value = record {
  allowed_type = range_type;
  values = none;
  minval = some (pos 0);
  maxval = none;
  spacing = none;
  range_closure = open_range;
}

abbrev pub non_negative_value : AllowedValues
non_negative_value = record positive_value { range_closure = closed_range }

abbrev pub range : ℤ → ℤ → Option ℤ → RangeClosureType → AllowedValues
range minval maxval spacing closure = record {
  allowed_type = range_type;
  values = none;
  minval = some minval;
  maxval = some maxval;
  spacing = spacing;
  range_closure = closure;
}

-- `diff % spacing == 0`, where `minval <= data`; a spacing of zero counts as none.
unfoldable pub on_step : Option ℤ → ℤ → ℤ → Bool
on_step none minval data_ = true
on_step (some s) minval data_ = if abs s == 0 then true else (gap minval data_ % abs s) == 0

unfoldable pub validate_range_min : ℤ → Option ℤ → RangeClosureType → ℤ → Bool
unfolding on_step
validate_range_min minval spacing closure x =
    if leb_ℤ minval x
    then if on_step spacing minval x
      then elim closure [
        | closed_range ↦ leb_ℤ minval x
        | closed_open ↦ leb_ℤ minval x
        | open_range ↦ ltb_ℤ minval x
        | open_closed ↦ ltb_ℤ minval x
      ]
      else false
    else false

unfoldable pub validate_range_max : ℤ → RangeClosureType → ℤ → Bool
validate_range_max maxval closure x = elim closure [
  | closed_range ↦ leb_ℤ x maxval
  | open_closed ↦ leb_ℤ x maxval
  | open_range ↦ ltb_ℤ x maxval
  | closed_open ↦ ltb_ℤ x maxval
]

unfoldable pub validate_range_minmax : ℤ → ℤ → Option ℤ → RangeClosureType → ℤ → Bool
unfolding on_step
validate_range_minmax minval maxval spacing closure x =
    if leb_ℤ minval x && leb_ℤ x maxval
    then if on_step spacing minval x
      then elim closure [
        | closed_range ↦ leb_ℤ minval x && leb_ℤ x maxval
        | open_range ↦ ltb_ℤ minval x && ltb_ℤ x maxval
        | open_closed ↦ ltb_ℤ minval x && leb_ℤ x maxval
        | closed_open ↦ leb_ℤ minval x && ltb_ℤ x maxval
      ]
      else false
    else false

-- `_validate_range` on a number, over the bounds.
unfoldable pub validate_bounds : Option ℤ → Option ℤ → Option ℤ → RangeClosureType → ℤ → Bool
unfolding validate_range_min validate_range_max validate_range_minmax
validate_bounds (some lo) (some hi) spacing closure x =
    validate_range_minmax lo hi spacing closure x
validate_bounds (some lo) none spacing closure x = validate_range_min lo spacing closure x
validate_bounds none (some hi) spacing closure x = validate_range_max hi closure x
validate_bounds none none spacing closure x = true

-- A text is not compared with a number.
unfoldable pub validate_range : AllowedValues → Value → Result Bool
unfolding validate_bounds
validate_range a (number x) = ok (validate_bounds a.minval a.maxval a.spacing a.range_closure x)
validate_range a (text s) = elim a.minval [
  | some lo ↦ raise type_error
  | none ↦ elim a.maxval [ some hi ↦ raise type_error | none ↦ ok true ]
]

unfoldable pub validate_value : AllowedValues → Value → Result Bool
validate_value a x = elim a.values [ none ↦ raise type_error | some l ↦ ok (elem value_dec x l) ]

-- `layer_path` is the text, or the path of the URL if the text starts with `layer:`.
module _ (layer_path : String → String) where
  unfoldable pub validate_layer : AllowedValues → Value → Result Bool
  unfolding validate_value
  validate_layer a (number x) = raise attribute_error
  validate_layer a (text s) = validate_value a (text (layer_path s))

  unfoldable pub validate_allowed_values : AllowedValues → Value → Mode → Result Bool
  unfolding validate_range validate_value validate_layer
  validate_allowed_values a x mode_none = ok true
  validate_allowed_values a x mode = elim a.allowed_type [
    | value_type ↦ validate_value a x
    | layer_type ↦ validate_layer a x
    | range_type ↦ validate_range a x
  ]

-- The validator of formats without one of their own: `mode <= MODE.NONE`.
unfoldable pub emptyvalidator : Mode → Bool
emptyvalidator mode_none = true
emptyvalidator mode = false
