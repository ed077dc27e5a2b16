-- ===== src/Exceptions.antt =====
-- pyqgiswps/exceptions.py, utils/conditions.py and the exceptions of Python and tornado that the
-- modelled code raises. Descriptions are left out: nothing in the program reads them back.
use py_qgis_wps.Prelude.{◌≡◌, refl, ap, ◌⊎◌, inl, inr, ℕ, Bool, String, Option, none, some}

pub data Exn : Type 0 where
  key_error value_error type_error attribute_error unbound_local_error : Exn
  index_error type_not_supported file_not_found_error os_error timeout_error no_section_error
        duplicate_section_error :
      Exn
  precondition_error : Exn
  process_exception unknown_process_error : Exn
  strict_checking_error path_not_allowed_error invalid_policy_error lizmap_policy_error : Exn
  factory_not_found_error no_registered_factory_error entry_point_not_found_error : Exn
  max_requests_exceeded request_gateway_error : Exn
  -- with whether the exception of the worker is a `ProcessException`
  request_backend_error : Bool → Exn
  -- tornado's `HTTPError`, with its status
  http_error : ℕ → Exn
  -- `NoApplicableCode` with the code and the locator that it was built with
  no_applicable_code : ℕ → String → Exn
  invalid_parameter_value : String → Exn
  missing_parameter_value : String → Exn
  version_negotiation_failed : String → Exn
  operation_not_supported : String → Exn

-- `exc.code`: `NoApplicableCode.__init__` stores the `code` it is given, 400 by default, over the
-- attribute of the class.
unfoldable pub code : Exn → Option ℕ
code (http_error n) = some n
code (no_applicable_code n locator) = some n
code (invalid_parameter_value locator) = some 400
code (missing_parameter_value locator) = some 400
code (version_negotiation_failed locator) = some 400
code (operation_not_supported locator) = some 400
code e = none

-- A function that may raise.
pub data Result {ℓ} (A : Type ℓ) : Type ℓ where
  ok : A → Result A
  raise : Exn → Result A

pub Result-cases {ℓ} :
    {A : Type ℓ} (r : Result A) → ((e : Exn) × (r ≡ raise e)) ⊎ ((a : A) × (r ≡ ok a))
Result-cases (raise e) = inl (e, refl)
Result-cases (ok a) = inr (a, refl)

abbrev value_or {ℓ} : {A : Type ℓ} → A → Result A → A
value_or a (ok b) = b
value_or a (raise e) = a

pub ok-eq {ℓ} : {A : Type ℓ} {a b : A} → ok a ≡ ok b → a ≡ b
ok-eq {A} {a} h = ap (value_or a) h
