-- ===== src/Json.antt =====
-- JSON documents, as `json.loads` builds them.
use py_qgis_wps.Prelude.{String, Bool, Option, none, some, ite, str_dec}
use py_qgis_wps.Prelude.Int.{ℤ}

mutual
  pub data Json : Type 0 where
    null : Json
    bool : Bool → Json
    num : ℤ → Json
    str : String → Json
    arr : Items → Json
    obj : Fields → Json

  pub data Items : Type 0 where
    nil : Items
    cons : Json → Items → Items

  pub data Fields : Type 0 where
    end : Fields
    field : String → Json → Fields → Fields

-- `d.get(k)` on an object: a repeated key has the last value, as after `json.loads`.
unfoldable pub get_field : String → Fields → Option Json
get_field k end = none
get_field k (field j v rest) = elim (get_field k rest) [
  | some w ↦ some w
  | none ↦ ite (str_dec j k) (some v) none
]
