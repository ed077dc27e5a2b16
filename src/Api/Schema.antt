-- ===== src/Api/Schema.antt =====
-- ogc/api/inputs.py: the JSON schema that is published for the allowed values of a literal input.
pub mod Ranges
use py_qgis_wps.Prelude.{
  ℕ, Bool, true, false, not, ◌&&◌, ◌==◌, Option, none, some, List, is_some, if◌then◌else◌,
}
use py_qgis_wps.Prelude.Int.{ℤ, abs}
use py_qgis_wps.Exceptions.{type_error, Result, ok, raise}
use py_qgis_wps.Validator.{
  AllowedValues, Value, value_type, range_type, layer_type, RangeClosureType, open_range,
  closed_range, open_closed, closed_open,
}

-- The keywords that are written; a keyword that is not is `none` or `false`.
pub record Schema : Type 0 where
  pub minimum : Option ℤ
  pub exclusive_minimum : Bool
  pub maximum : Option ℤ
  pub exclusive_maximum : Bool
  pub multiple_of : Option ℤ
  pub enum : Option (List Value)

-- `range_closure in (OPEN, OPENCLOSED)` and `range_closure in (OPEN, CLOSEDOPEN)`
unfoldable pub opens_below : RangeClosureType → Bool
opens_below open_range = true
opens_below open_closed = true
opens_below closure = false

unfoldable pub opens_above : RangeClosureType → Bool
opens_above open_range = true
opens_above closed_open = true
opens_above closure = false

-- `if self.spacing`
unfoldable pub counted_spacing : Option ℤ → Option ℤ
counted_spacing none = none
counted_spacing (some s) = if abs s == 0 then none else some s

unfoldable pub range_schema : AllowedValues → Schema
unfolding opens_below opens_above counted_spacing
range_schema a = record {
  minimum = a.minval;
  exclusive_minimum = is_some a.minval && opens_below a.range_closure;
  maximum = a.maxval;
  exclusive_maximum = is_some a.maxval && opens_above a.range_closure;
  multiple_of = counted_spacing a.spacing;
  enum = none;
}

unfoldable pub enum_schema : Option (List Value) → Result Schema
enum_schema none = raise type_error
enum_schema (some values) = ok (record {
  minimum = none;
  exclusive_minimum = false;
  maximum = none;
  exclusive_maximum = false;
  multiple_of = none;
  enum = some values;
})

-- `AllowedValues.ogcapi_schema`
unfoldable pub ogcapi_schema : AllowedValues → Result Schema
unfolding range_schema enum_schema
ogcapi_schema a = elim a.allowed_type [
  | range_type ↦ ok (range_schema a)
  | value_type ↦ enum_schema a.values
  | layer_type ↦ enum_schema a.values
]
