-- ===== src/Service/Inputs.antt =====
-- inout/inputs.py and inout/formats.py: the inputs of a process, and what they hold.
use py_qgis_wps.Prelude.{ℕ, String, Option, List}
use py_qgis_wps.Exceptions.{Result}
use py_qgis_wps.Json.{Json}
use py_qgis_wps.Validator.{Mode, AllowedValues, Value}

-- `convert_string`, `convert_integer` and the others, which rest on `str`, `float` and `dateutil`:
-- what they make of the data of a type, a missing value included.
pub record Conversions : Type 0 where
  pub convert_string : Option Json → Result Value
  pub convert_integer : Option Json → Result Value
  pub convert_float : Option Json → Result Value
  pub convert_boolean : Option Json → Result Value
  pub convert_any_uri : Option Json → Result Value
  pub convert_time : Option Json → Result Value
  pub convert_date : Option Json → Result Value
  pub convert_datetime : Option Json → Result Value
  pub convert_angle : Option Json → Result Value
  pub layer_path : String → String

-- `LiteralInput`: `none` of the allowed values is any value.
pub record LiteralInput : Type 0 where
  pub data_type : String
  pub supported_uoms : List String
  pub allowed_values : Option AllowedValues
  pub mode : Mode

-- `Format`
pub record Format : Type 0 where
  pub mime_type : String
  pub encoding : String
  pub schema : String

pub record ComplexInput : Type 0 where
  pub supported_formats : List Format
  pub mode : Mode

pub record BoundingBoxInput : Type 0 where
  pub crs : String
  pub other_crss : List String
  pub dimensions : ℕ

-- What an input holds once a value is given for it.
pub data Given : Type 0 where
  literal : Option String → Value → Given
  value : Format → Option Json → Given
  reference : Format → (href : Json) → (method : Json) → (body : Option Json) → Given
  box : Json → (crs : String) → (dimensions : Option Json) → Given
