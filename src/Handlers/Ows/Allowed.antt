-- ===== src/Handlers/Ows/Allowed.antt =====
-- Which processes a client is shown.
use py_qgis_wps.Prelude.{
  ◌≡◌, refl, ap, ◌∙◌, subst, inl, inr, String, Bool, true, false, not, none, List, [], ◌∷◌, map,
  any, all, keep, str_dec, holds, Bool-cases, Option-cases, lookup, arith,
}
use py_qgis_wps.Prelude.Text.{lower}
use py_qgis_wps.Exceptions.{Result, ok, raise, Result-cases, ok-eq}
use py_qgis_wps.Exec.{Exec}
use py_qgis_wps.Access.{Policy, allow}
use py_qgis_wps.Executor.Processes.{Process, State, Factory, find_all, for_map, get_processes}
use py_qgis_wps.Executor.Processes.Found.{
  Named, find_all-Named, AllFound, find_all-AllFound, get_processes-without_map,
}
use py_qgis_wps.Handlers.Ows.{
  Answer, capabilities, descriptions, document, executed, OwsCall, list_processes, translated,
  get_processes_for_request, described_identifiers, describe, answered, get_capabilities,
  get_job_realm, run_process, first_process, execute, describe_process, execute_request,
  handle_wps_request,
}

module _ (matches : String → String → Bool) (default child : Policy) (factory : Factory)
    (get_results : String → Result String)
    (execute_process : (job_id realm : String) → Process → Exec State String)
    (job_id token : String) where
  abbrev pub may_show : String → Bool
  may_show ident = allow matches ident default child

  -- Whether the identifier is the word for every process.
  abbrev pub is_all : String → Bool
  is_all ident = holds (str_dec (lower ident) "all")

  -- The identifiers of the processes that an answer is about; the stored document of a job is about
  -- none.
  abbrev pub about : Answer → List String
  about (capabilities ps) = map (λ p. p.identifier) ps
  about (descriptions ps) = map (λ p. p.identifier) ps
  about (document text) = []
  about (executed realm p text) = p.identifier ∷ []

  keep-allowed :
      (ps : List Process)
      → all may_show (map (λ p. p.identifier) (keep (λ p. may_show p.identifier) ps)) ≡ true
  keep-allowed [] = refl
  keep-allowed (p ∷ ps) = elim (Bool-cases (may_show p.identifier)) [
    | inl yes_ ↦ ground (arith, keep-allowed ps)
    | inr no_ ↦ ground (arith, keep-allowed ps)
  ]

  none_refused :
      (idents : List String)
      → any (λ ident. not (may_show ident)) idents ≡ false
      → all may_show idents ≡ true
  none_refused [] h = refl
  none_refused (ident ∷ idents) h = ground (arith, none_refused idents)

  -- A request to describe the one word that stands for every process, without a map, is answered
  -- with every process of the service, where the policy does not deny the word itself and each
  -- process is found under its identifier: whatever the policy says of the processes.
  pub handle_wps_request-all :
      (r : OwsCall) (ident : String) (s : State)
      → r.operation ≡ "describeprocess"
      → r.identifiers ≡ ident ∷ []
      → r.map_uri ≡ none
      → is_all ident ≡ true
      → may_show ident ≡ true
      → AllFound s.processes (list_processes s)
      → handle_wps_request matches default child factory get_results execute_process job_id token r
          s
        ≡ (ok (descriptions (list_processes s)), s)
  unfolding handle_wps_request describe_process describe described_identifiers
      get_processes_for_request translated str_dec
  handle_wps_request-all r ident s op asked no_map word fine found =
      rw
        (
          op,
          handle_wps_request,
          asked,
          fine,
          no_map,
          describe_process,
          describe,
          word,
          described_identifiers,
          get_processes_for_request,
          get_processes-without_map factory (map (λ p. p.identifier) (list_processes s)) s
              (list_processes s) (find_all-AllFound s.processes (list_processes s) found),
        )
        refl

  -- An answer is that of the value which was returned.
  answered-returned :
      {A : Type 0} (f : A → Answer) (x : Result A × State) (a : Answer) (s' : State)
      → answered f x ≡ (ok a, s')
      → (v : A) × (x.0 ≡ ok v) × (f v ≡ a)
  answered-returned f (ok v, s) a s' h =
      (v, refl, ok-eq (ap (λ (y : Result Answer × State). y.0) h))
  answered-returned f (raise e, s) a s' h = absurd (cc (ap (λ (y : Result Answer × State). y.0) h))

  -- What is described without a map is what was asked for.
  get_processes_for_request-identifiers :
      (idents : List String) (s : State) (ps : List Process)
      → Named s.processes
      → (get_processes_for_request factory idents none s).0 ≡ ok ps
      → map (λ p. p.identifier) ps ≡ idents
  unfolding get_processes_for_request get_processes for_map translated
  get_processes_for_request-identifiers idents s ps n h =
      elim (Result-cases (find_all s.processes idents)) [
        | inl (e, bad) ↦ absurd (cc (rw (bad, get_processes_for_request, get_processes) at h))
        | inr (qs, good) ↦
            find_all-Named s.processes idents ps n
              (good ∙ rw (good, get_processes_for_request, get_processes) at h)
      ]

  describe-identifiers :
      (idents : List String) (s : State) (ps : List Process)
      → Named s.processes
      → any is_all idents ≡ false
      → (describe factory idents none s).0 ≡ ok ps
      → map (λ p. p.identifier) ps ≡ idents
  unfolding describe described_identifiers
  describe-identifiers [] s ps n w h = absurd (cc h)
  describe-identifiers (ident ∷ idents) s ps n w h =
      get_processes_for_request-identifiers (ident ∷ idents) s ps n (rw (w) at h)

  -- What is shown of an answer is allowed, whatever answer it equals.
  allowed-eq :
      {a b : Answer} → a ≡ b → all may_show (about a) ≡ true → all may_show (about b) ≡ true
  allowed-eq e h = subst (λ x. all may_show (about x) ≡ true) e h

  describe_process-allowed :
      (r : OwsCall) (s s' : State) (a : Answer)
      → r.map_uri ≡ none
      → any is_all r.identifiers ≡ false
      → Named s.processes
      → describe_process matches default child factory get_results execute_process job_id token r s
        ≡ (ok a, s')
      → all may_show (about a) ≡ true
  unfolding describe_process
  describe_process-allowed r s s' a no_map w n h =
      elim (Bool-cases (any (λ ident. not (may_show ident)) r.identifiers)) [
        | inl refused ↦ absurd (cc (rw (refused, describe_process) at h))
        | inr fine ↦
            let (ps, read, e) =
              answered-returned descriptions (describe factory r.identifiers none s) a s'
                (rw (fine, no_map, describe_process) at h) in
            allowed-eq e (
              rw (describe-identifiers r.identifiers s ps n w read)
                (none_refused r.identifiers fine))
      ]

  run_process-process :
      (realm : String) (x : Result Process) (s : State) (p : Process) (text : String)
      → (run_process matches default child factory get_results execute_process job_id token realm x
          s).0
        ≡ ok (p, text)
      → x ≡ ok p
  unfolding run_process
  run_process-process realm (raise e) s p text h = absurd (cc h)
  run_process-process realm (ok q) s p text h =
      elim (Result-cases (execute_process job_id realm q s).0) [
        | inl (e, bad) ↦ absurd (cc (rw (bad) at h))
        | inr (t, good) ↦ ap ok (ap (λ x. x.0) (ok-eq (rw (good) at h)))
      ]

  -- The process that runs is the one that was asked for.
  execute-identifier :
      (realm identifier : String) (s : State) (p : Process) (text : String)
      → Named s.processes
      → (execute matches default child factory get_results execute_process job_id token realm
          identifier none s).0
        ≡ ok (p, text)
      → p.identifier ≡ identifier
  unfolding execute get_processes for_map first_process find_all
  execute-identifier realm identifier s p text n h =
      let asked =
        run_process-process realm (first_process (get_processes factory (identifier ∷ []) none s).0)
          (get_processes factory (identifier ∷ []) none s).1 p text h in
      elim (Option-cases (lookup str_dec identifier s.processes)) [
        | inl missing ↦
            absurd (cc (rw (missing, find_all, get_processes, for_map, first_process) at asked))
        | inr (q, there) ↦
            let found : ok q ≡ ok p =
              rw (there, find_all, get_processes, for_map, first_process) at asked in
            subst (λ (x : Process). x.identifier ≡ identifier) (ok-eq found) (n identifier q there)
      ]

  execute_request-allowed :
      (r : OwsCall) (s s' : State) (a : Answer)
      → r.map_uri ≡ none
      → Named s.processes
      → execute_request matches default child factory get_results execute_process job_id token r s
        ≡ (ok a, s')
      → all may_show (about a) ≡ true
  unfolding execute_request
  execute_request-allowed r s s' a no_map n h = elim (Bool-cases (may_show r.identifier)) [
    | inr no_ ↦ absurd (cc (rw (no_, execute_request) at h))
    | inl yes_ ↦
        let realm = get_job_realm r token in
        let ((p, text), done, e) =
          answered-returned (λ (x : Process × String). executed realm x.0 x.1)
            (execute matches default child factory get_results execute_process job_id token realm
              r.identifier none s)
            a s' (rw (yes_, no_map, execute_request) at h) in
        allowed-eq e (rw (execute-identifier realm r.identifier s p text n done, yes_) refl)
  ]

  -- Without a map, where no identifier of the request is the word for every process and each process
  -- of the service is kept under its identifier, the capabilities and the descriptions are only about
  -- processes that the policy allows, and the process that is handed to the executor is one of them.
  -- The stored document of a job, for `getresults`, is not looked into.
  pub handle_wps_request-allowed :
      (r : OwsCall) (s s' : State) (a : Answer)
      → r.map_uri ≡ none
      → any is_all r.identifiers ≡ false
      → Named s.processes
      → handle_wps_request matches default child factory get_results execute_process job_id token r
          s
        ≡ (ok a, s')
      → all may_show (about a) ≡ true
  unfolding handle_wps_request get_capabilities
  handle_wps_request-allowed r s s' a no_map w n h =
      elim (Bool-cases (holds (str_dec r.operation "getresults"))) [
        | inl b ↦
            let (text, read, e) =
              answered-returned document (get_results r.results_uuid, s) a s'
                (rw (b, handle_wps_request) at h) in
            allowed-eq e refl
        | inr b ↦ elim (Bool-cases (holds (str_dec r.operation "getcapabilities"))) [
          | inl c ↦
              allowed-eq
                (ok-eq
                  (ap (λ (y : Result Answer × State). y.0) (rw (b, c, handle_wps_request) at h)))
                (keep-allowed (list_processes s))
          | inr c ↦ elim (Bool-cases (holds (str_dec r.operation "describeprocess"))) [
            | inl d ↦
                describe_process-allowed r s s' a no_map w n (rw (b, c, d, handle_wps_request) at h)
            | inr d ↦ elim (Bool-cases (holds (str_dec r.operation "execute"))) [
              | inl e ↦
                  execute_request-allowed r s s' a no_map n
                    (rw (b, c, d, e, handle_wps_request) at h)
              | inr e ↦ absurd (cc (rw (b, c, d, e, handle_wps_request) at h))
            ]
          ]
        ]
      ]
