-- ===== src/Ows/Get.antt =====
-- ogc/ows/request.py: `parse_get_request`, which reads a request from the arguments of its URL.
pub mod Refused
pub mod Parsed
use py_qgis_wps.Prelude.{
  ℕ, String, Bool, true, false, not, Option, none, some, List, [], Dict, holds, str_dec,
  if◌then◌else◌,
}
use py_qgis_wps.Prelude.Int.{ℤ}
use py_qgis_wps.Prelude.Text.{split, lower}
use py_qgis_wps.Exceptions.{
  Exn, http_error, invalid_parameter_value, operation_not_supported, Result, ok, raise,
}
use py_qgis_wps.Exec.{Exec, pure, throw, ◌>>=◌, ◌>>◌}
use py_qgis_wps.Request
use py_qgis_wps.Request.{Request, ServerConfig, ows_wps}
use py_qgis_wps.Ows.{
  check_and_set_version, check_accepted_versions, check_and_set_language, Parameter, absent,
  not_integer, integer, set_timeout, set_expiration,
}
use py_qgis_wps.Ows.Kvp.{Entry, get_data_from_kvp}

-- `OWSRequest`: what every request has, and what is added to it; its `inputs` and `outputs` are
-- those of a request as text.
pub record OwsRequest : Type 0 where
  pub base : Request
  pub lineage : Bool
  pub service_url : Option String
  pub results_uuid : Option String
  pub inputs : Dict String Entry
  pub outputs : Dict String Entry

-- `OWSRequest.__init__`
unfoldable pub ows_request : ServerConfig → OwsRequest
unfolding Request.init
ows_request cfg = record {
  base = Request.init ows_wps cfg;
  lineage = false;
  service_url = none;
  results_uuid = none;
  inputs = [];
  outputs = [];
}

-- What the request is asked for: `get_argument` of tornado, by name, and `int` of a text.
pub record Arguments : Type 0 where
  pub get_argument : String → Option String
  pub int : String → Option ℤ

module _ (args : Arguments) where
  open args use {get_argument, int}

  -- `get_argument(name)` without a default: `MissingArgumentError` is an `HTTPError` 400.
  unfoldable pub required : String → Exec OwsRequest String
  required name r = elim (get_argument name) [
    | none ↦ (raise (http_error 400), r)
    | some v ↦ (ok v, r)
  ]

  -- `get_argument(name, 'false').lower() == 'true'`
  unfoldable pub flag : String → Bool
  unfolding lower
  flag name = elim (get_argument name) [ none ↦ false | some v ↦ holds (str_dec (lower v) "true") ]

  unfoldable pub int_argument : Option String → Parameter
  int_argument none = absent
  int_argument (some v) = elim (int v) [ none ↦ not_integer | some z ↦ integer z ]

  -- `if acceptedversions: acceptedversions.split(',')`
  unfoldable pub accepted_versions : Option String → Option (List String)
  unfolding split
  accepted_versions none = none
  accepted_versions (some v) = if holds (str_dec v "") then none else some (split "," v)

-- A check of the base class.
unfoldable pub on_base : Exec Request (Unit {0}) → Exec OwsRequest (Unit {0})
on_base f r = ((f r.base).0, record r { base = (f r.base).1 })

unfoldable pub check_service : String → Exec OwsRequest (Unit {0})
unfolding lower
check_service service =
    if holds (str_dec (lower service) "wps")
    then pure tt
    else throw (invalid_parameter_value "SERVICE")

unfoldable pub set_operation : String → Exec OwsRequest (Unit {0})
set_operation operation r =
    (ok tt, record r { base = record r.base { operation = some operation } })

unfoldable pub set_identifier : String → Exec OwsRequest (Unit {0})
set_identifier identifier r =
    (ok tt, record r { base = record r.base { identifier = some identifier } })

module _ (args : Arguments) where
  open args use {get_argument}

  unfoldable pub parse_get_getresults : Exec OwsRequest (Unit {0})
  unfolding required
  parse_get_getresults = do
    uuid ← required args "UUID"
    λ r. (ok tt, record r { results_uuid = some uuid })

  unfoldable pub parse_get_getcapabilities : Exec OwsRequest (Unit {0})
  unfolding on_base check_accepted_versions accepted_versions
  parse_get_getcapabilities =
      on_base (check_accepted_versions (accepted_versions args (get_argument "ACCEPTVERSIONS")))

  unfoldable pub parse_get_describeprocess : Exec OwsRequest (Unit {0})
  unfolding on_base check_and_set_version check_and_set_language required split
  parse_get_describeprocess = do
    on_base (check_and_set_version (get_argument "VERSION"))
    on_base (check_and_set_language (get_argument "LANGUAGE"))
    identifiers ← required args "IDENTIFIER"
    λ r. (ok tt, record r { base = record r.base { identifiers = split "," identifiers } })

  -- The last four lines of `parse_get_execute`
  unfoldable pub set_execution : Exec OwsRequest (Unit {0})
  unfolding flag get_data_from_kvp
  set_execution r = (
    ok tt,
    record r {
      base = record r.base { execute_async = flag args "STOREEXECUTERESPONSE" };
      lineage = flag args "LINEAGE";
      inputs = get_data_from_kvp (get_argument "DATAINPUTS") true;
      outputs = get_data_from_kvp (get_argument "RESPONSEDOCUMENT") false;
    },
  )

  unfoldable pub parse_get_execute : Exec OwsRequest (Unit {0})
  unfolding on_base check_and_set_version check_and_set_language required set_identifier set_timeout
      int_argument set_expiration set_execution
  parse_get_execute = do
    on_base (check_and_set_version (get_argument "VERSION"))
    on_base (check_and_set_language (get_argument "LANGUAGE"))
    identifier ← required args "IDENTIFIER"
    set_identifier identifier
    on_base (set_timeout (int_argument args (get_argument "TIMEOUT")))
    on_base (set_expiration (int_argument args (get_argument "EXPIRE")))
    set_execution

  -- The `match` over the operation
  unfoldable pub parse_operation : String → Exec OwsRequest (Unit {0})
  unfolding parse_get_getresults parse_get_getcapabilities parse_get_describeprocess
      parse_get_execute
  parse_operation operation =
      if holds (str_dec operation "getresults")
      then parse_get_getresults
      else if holds (str_dec operation "getcapabilities")
      then parse_get_getcapabilities
      else if holds (str_dec operation "describeprocess")
      then parse_get_describeprocess
      else if holds (str_dec operation "execute")
      then parse_get_execute
      else throw (operation_not_supported operation)

  unfoldable pub parse_get_request : Exec OwsRequest (Unit {0})
  unfolding required check_service lower set_operation parse_operation
  parse_get_request = do
    service ← required args "SERVICE"
    check_service service
    operation ← required args "REQUEST"
    set_operation (lower operation)
    parse_operation (lower operation)
