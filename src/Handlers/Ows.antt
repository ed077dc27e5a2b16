-- ===== src/Handlers/Ows.antt =====
-- handlers/owshandler.py with ogc/ows/request.py: which processes an OWS request is answered with.
pub mod Allowed
use py_qgis_wps.Prelude.{
  String, Bool, true, false, not, Option, none, some, List, [], ◌∷◌, map, Dict, any, keep, str_dec,
  holds, if◌then◌else◌,
}
use py_qgis_wps.Prelude.Text.{lower}
use py_qgis_wps.Exceptions.{
  Exn, unknown_process_error, http_error, index_error, no_applicable_code, invalid_parameter_value,
  missing_parameter_value, operation_not_supported, Result, ok, raise,
}
use py_qgis_wps.Exec.{Exec}
use py_qgis_wps.Access.{Policy, allow}
use py_qgis_wps.Executor.Processes.{Process, State, Factory, get_processes}

-- What is sent back: the processes that the document is about, the stored document of a job, or the
-- document of an execution, with the realm sent back in the header and the process that was handed to
-- the executor.
pub data Answer : Type 0 where
  capabilities : List Process → Answer
  descriptions : List Process → Answer
  document : String → Answer
  executed : (realm : String) → Process → String → Answer

-- A parsed request: `identifier` is that of an execution, `identifiers` those of a description.
pub record OwsCall : Type 0 where
  pub operation : String
  pub identifier : String
  pub identifiers : List String
  pub results_uuid : String
  pub map_uri : Option String
  pub job_realm : Option String

-- `get_job_realm`: the realm of the header, or the token that is made.
unfoldable pub get_job_realm : OwsCall → String → String
get_job_realm r token = elim r.job_realm [ none ↦ token | some realm ↦ realm ]

-- `service.processes`
unfoldable pub list_processes : State → List Process
list_processes s = map (λ e. e.1) s.processes

-- `get_processes_for_request`: the exceptions that it puts in place of others.
unfoldable pub for_request : Exn → Exn
for_request unknown_process_error = invalid_parameter_value "identifier"
for_request e = no_applicable_code 500 ""

unfoldable pub translated {ℓ} : {A : Type ℓ} → (Exn → Exn) → Result A → Result A
translated f (ok a) = ok a
translated f (raise e) = raise (f e)

unfoldable pub get_processes_for_request :
    Factory → List String → Option String → Exec State (List Process)
unfolding get_processes for_request translated
get_processes_for_request factory idents map_uri s = (
  translated for_request (get_processes factory idents map_uri s).0,
  (get_processes factory idents map_uri s).1,
)

-- The word `all` is every process of the service.
unfoldable pub described_identifiers : List String → State → List String
unfolding lower list_processes
described_identifiers idents s =
    if any (λ ident. holds (str_dec (lower ident) "all")) idents
    then map (λ p. p.identifier) (list_processes s)
    else idents

-- `OWSRequest.describe`
unfoldable pub describe : Factory → List String → Option String → Exec State (List Process)
unfolding get_processes_for_request described_identifiers
describe factory [] map_uri s = (raise (missing_parameter_value "identifier"), s)
describe factory (ident ∷ idents) map_uri s =
    get_processes_for_request factory (described_identifiers (ident ∷ idents) s) map_uri s

unfoldable pub first_process : Result (List Process) → Result Process
first_process (raise unknown_process_error) = raise (invalid_parameter_value "identifier")
first_process (raise e) = raise e
first_process (ok []) = raise index_error
first_process (ok (p ∷ ps)) = ok p

abbrev pub answered {ℓ κ} :
    {S : Type ℓ} {A : Type κ} → (A → Answer) → Result A × S → Result Answer × S
answered f (ok a, s) = (ok (f a), s)
answered f (raise e, s) = (raise e, s)

-- The process beside the document of its execution.
abbrev pub ran : Process → Result String × State → Result (Process × String) × State
ran p (ok text, s) = (ok (p, text), s)
ran p (raise e, s) = (raise e, s)

module _ (matches : String → String → Bool) (default child : Policy) (factory : Factory)
    (get_results : String → Result String)
    (execute_process : (job_id realm : String) → Process → Exec State String)
    (job_id token : String) where
  abbrev pub allowed : String → Bool
  allowed ident = allow matches ident default child

  -- `get_capabilities`
  unfoldable pub get_capabilities : State → List Process
  unfolding list_processes allow
  get_capabilities s = keep (λ p. allowed p.identifier) (list_processes s)

  -- `OWSRequest.execute`: the process is found and handed to `Service.execute_process`.
  unfoldable pub run_process : String → Result Process → Exec State (Process × String)
  run_process realm (raise e) s = (raise e, s)
  run_process realm (ok p) s = ran p (execute_process job_id realm p s)

  unfoldable pub execute : String → String → Option String → Exec State (Process × String)
  unfolding get_processes first_process run_process
  execute realm identifier map_uri s =
      run_process realm (first_process (get_processes factory (identifier ∷ []) map_uri s).0)
        (get_processes factory (identifier ∷ []) map_uri s).1

  unfoldable pub describe_process : OwsCall → Exec State Answer
  unfolding describe allow
  describe_process r s =
      if any (λ ident. not (allowed ident)) r.identifiers
      then (raise (http_error 403), s)
      else answered descriptions (describe factory r.identifiers r.map_uri s)

  unfoldable pub execute_request : OwsCall → Exec State Answer
  unfolding execute allow get_job_realm
  execute_request r s =
      if not (allowed r.identifier)
      then (raise (http_error 403), s)
      else answered (λ x. executed (get_job_realm r token) x.0 x.1)
          (execute (get_job_realm r token) r.identifier r.map_uri s)

  -- `handle_wps_request`, once the request is parsed
  unfoldable pub handle_wps_request : OwsCall → Exec State Answer
  unfolding get_capabilities describe_process execute_request
  handle_wps_request r s =
      if holds (str_dec r.operation "getresults")
      then answered document (get_results r.results_uuid, s)
      else if holds (str_dec r.operation "getcapabilities")
      then (ok (capabilities (get_capabilities s)), s)
      else if holds (str_dec r.operation "describeprocess")
      then describe_process r s
      else if holds (str_dec r.operation "execute")
      then execute_request r s
      else (raise (operation_not_supported ""), s)
