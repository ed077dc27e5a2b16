-- ===== src/Ows/Get/Parsed.antt =====
-- A request to execute a process, as a client writes it.
use py_qgis_wps.Prelude.{◌≡◌, refl, String, true, none, some, List, ◌∷◌, lookup, str_dec}
use py_qgis_wps.Prelude.Text.{lower, join}
use py_qgis_wps.Exceptions.{ok}
use py_qgis_wps.Request.{Request, ServerConfig}
use py_qgis_wps.Ows.{
  check_and_set_version, check_version, check_and_set_language, set_timeout, set_expiration,
}
use py_qgis_wps.Ows.Kvp.RoundTrip.{
  Item, plain_items, print_items, entry, inputs_of, get_data_from_kvp-join,
}
use py_qgis_wps.Ows.Get.{
  OwsRequest, ows_request, Arguments, required, int_argument, on_base, check_service, set_operation,
  set_identifier, set_execution, parse_get_execute, parse_operation, parse_get_request,
}

-- The arguments of a request that executes a process with these inputs, in any case of letters.
pub record Sent (args : Arguments) (process : String) (i : Item) (is : List Item) : Type 0 where
  pub service : String
  pub service_given : args.get_argument "SERVICE" ≡ some service
  pub service_wps : lower service ≡ "wps"
  pub request : String
  pub request_given : args.get_argument "REQUEST" ≡ some request
  pub request_execute : lower request ≡ "execute"
  pub version : args.get_argument "VERSION" ≡ some "1.0.0"
  pub language : args.get_argument "LANGUAGE" ≡ none
  pub identifier : args.get_argument "IDENTIFIER" ≡ some process
  pub timeout : args.get_argument "TIMEOUT" ≡ none
  pub expire : args.get_argument "EXPIRE" ≡ none
  pub inputs : args.get_argument "DATAINPUTS" ≡ some (join ";" (print_items (i ∷ is)))

module _ (args : Arguments) where
  version_set :
      (r : Request)
      → check_and_set_version (some "1.0.0") r ≡ (ok tt, record r { version = some "1.0.0" })
  unfolding check_and_set_version check_version str_dec
  version_set r = refl

  pub operation_execute : parse_operation args "execute" ≡ parse_get_execute args
  unfolding parse_operation str_dec
  operation_execute = refl

  pub required_given :
      (name v : String)
      → args.get_argument name ≡ some v
      → (r : OwsRequest) → required args name r ≡ (ok v, r)
  unfolding required
  required_given name v h r = rw (h, required) refl

  pub wps_accepted :
      (s : String) → lower s ≡ "wps" → (r : OwsRequest) → check_service s r ≡ (ok tt, r)
  unfolding check_service str_dec
  wps_accepted s h r = rw h refl

  -- The request before its flags and data are read.
  abbrev checked : String → OwsRequest → OwsRequest
  checked process r = record r {
    base = record r.base { version = some "1.0.0"; identifier = some process };
  }

  execute_checked :
      (process : String) (i : Item) (is : List Item) (r : OwsRequest)
      → Sent args process i is
      → parse_get_execute args r ≡ set_execution args (checked process r)
  unfolding parse_get_execute on_base check_and_set_language required set_identifier set_timeout
      set_expiration int_argument
  execute_checked process i is r h =
      rw
        (
          h.version,
          version_set r.base,
          h.language,
          required_given "IDENTIFIER" process h.identifier,
          h.timeout,
          h.expire,
        )
        refl

  -- A request to execute a process, with the version 1.0.0, without language, timeout and
  -- expiration, and with inputs that hold none of the separators, is parsed: it names the process,
  -- and under each identifier stand the inputs that were written for it, in their order.
  pub parse_get_request-Sent :
      (cfg : ServerConfig) (process : String) (i : Item) (is : List Item)
      → Sent args process i is
      → plain_items (i ∷ is) ≡ true
      → (r : OwsRequest) × (parse_get_request args (ows_request cfg) ≡ (ok tt, r))
        × (r.base.identifier ≡ some process)
        × ((k : String) → lookup str_dec k r.inputs ≡ entry (inputs_of k (i ∷ is)))
  unfolding parse_get_request required set_operation set_execution
  parse_get_request-Sent cfg process i is h plain =
      let started = record (ows_request cfg) {
        base = record (ows_request cfg).base { operation = some "execute" };
      } in
      let done = (set_execution args (checked process started)).1 in
      (
        done,
        rw
            (
              required_given "SERVICE" h.service h.service_given,
              wps_accepted h.service h.service_wps,
              required_given "REQUEST" h.request h.request_given,
              h.request_execute,
              operation_execute,
            )
            (execute_checked process i is started h),
        refl,
        λ k. rw (h.inputs) (get_data_from_kvp-join i is k plain),
      )
