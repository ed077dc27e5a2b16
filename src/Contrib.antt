-- ===== src/Contrib.antt =====
-- pyqgisservercontrib/core: the component manager, which hands out objects by their contract id, and
-- the watch on files.
pub mod Services
pub mod Watch
mod Tests
use py_qgis_wps.Prelude.{
  String, Bool, Option, none, some, Dict, lookup, insert, str_dec, if◌then◌else◌,
}
use py_qgis_wps.Exceptions.{
  Exn, value_error, factory_not_found_error, no_registered_factory_error,
  entry_point_not_found_error, Result, ok, raise,
}
use py_qgis_wps.Exec.{Exec}

-- What creates an object: a factory that was registered, by its name, or the one of a service.
pub data Creator (F : Type 0) : Type 0 where
  registered : F → Creator F
  null_factory : Creator F

-- `FactoryEntry`; `none` is Python's `None`, as it is among the objects.
pub record FactoryEntry (F A : Type 0) : Type 0 where
  pub create_instance : Creator F
  pub service : Option A

-- `_contractIDs`, and what the factories act on besides.
pub record Components (F A W : Type 0) : Type 0 where
  pub contract_ids : Dict String (FactoryEntry F A)
  pub outside : W

module _ {F A W : Type 0} where
  -- What is not callable has no name among the factories.
  unfoldable pub register_factory : String → Option F → Exec (Components F A W) (Unit {0})
  unfolding insert
  register_factory contract_id none s = (raise value_error, s)
  register_factory contract_id (some factory) s = (
    ok tt,
    record s {
      contract_ids =
          insert str_dec contract_id
            (record { create_instance = registered factory; service = none }) s.contract_ids;
    },
  )

  unfoldable pub register_service : String → Option A → Exec (Components F A W) (Unit {0})
  unfolding insert
  register_service contract_id service s = (
    ok tt,
    record s {
      contract_ids =
          insert str_dec contract_id (record { create_instance = null_factory; service = service })
            s.contract_ids;
    },
  )

-- What a factory does when it is called: it may use the manager itself.
module _ {F A W : Type 0} (call : F → Exec (Components F A W) (Option A)) where
  unfoldable pub call_factory : Creator F → Exec (Components F A W) (Option A)
  call_factory (registered f) s = call f s
  call_factory null_factory s = (raise no_registered_factory_error, s)

  unfoldable pub create_instance : String → Exec (Components F A W) (Option A)
  unfolding lookup call_factory
  create_instance contract_id s = elim (lookup str_dec contract_id s.contract_ids) [
    | none ↦ (raise factory_not_found_error, s)
    | some fe ↦ call_factory fe.create_instance s
  ]

  -- The service that was made takes the place of the entry.
  unfoldable pub keep_service :
      String
      → FactoryEntry F A
      → Result (Option A) × Components F A W
      → Result (Option A) × Components F A W
  unfolding insert
  keep_service contract_id fe (raise e, s) = (raise e, s)
  keep_service contract_id fe (ok made, s) = (
    ok made,
    record s {
      contract_ids = insert str_dec contract_id (record fe { service = made }) s.contract_ids;
    },
  )

  unfoldable pub get_service : String → Exec (Components F A W) (Option A)
  unfolding lookup call_factory keep_service
  get_service contract_id s = elim (lookup str_dec contract_id s.contract_ids) [
    | none ↦ (raise factory_not_found_error, s)
    | some fe ↦ elim fe.service [
      | some object ↦ (ok (some object), s)
      | none ↦ keep_service contract_id fe (call_factory fe.create_instance s)
    ]
  ]
