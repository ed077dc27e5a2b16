-- ===== src/Ows/Get/Refused.antt =====
-- What the parsing of a request raises.
use py_qgis_wps.Prelude.{
  ◌⊎◌, ◌≡◌, refl, ap, subst, String, Bool, true, false, Option, none, some, List, holds, str_dec,
  Option-cases, Bool-cases, inl, inr, if◌then◌else◌,
}
use py_qgis_wps.Prelude.Text.{lower}
use py_qgis_wps.Exceptions.{
  Exn, code, unbound_local_error, operation_not_supported, Result, ok, raise,
}
use py_qgis_wps.Exec.{Exec, throw, ◌>>=◌, continue}
use py_qgis_wps.Request.{Request}
use py_qgis_wps.Ows.{
  Parameter, absent, not_integer, integer, last_known, check_and_set_version,
  check_and_set_language, set_timeout, set_expiration, check_accepted_versions,
}
use py_qgis_wps.Ows.Get.{
  OwsRequest, Arguments, required, int_argument, accepted_versions, on_base, set_operation,
  set_identifier, parse_get_getresults, parse_get_getcapabilities, parse_get_describeprocess,
  set_execution, parse_get_execute, check_service, parse_operation, parse_get_request,
}

-- The exceptions that a client is answered with 400, and the one of a number that cannot be read.
abbrev pub Refusal : Exn → Type 0
Refusal e = (code e ≡ some 400) ⊎ (e ≡ unbound_local_error)

abbrev exception_or : {A : Type 0} → Exn → Result A → Exn
exception_or x (raise e) = e
exception_or x (ok a) = x

raise-eq : {A : Type 0} {x e : Exn} → ◌≡◌ {A = Result A} (raise x) (raise e) → x ≡ e
raise-eq {A} {x} h = ap (exception_or x) h

-- A result that is no other exception, and a computation that raises no other.
data Refused {S A : Type 0} : Result A × S → Type 0 where
  done : {a : A} {s : S} → Refused (ok a, s)
  with_400 : {e : Exn} {s : S} → code e ≡ some 400 → Refused (raise e, s)
  unreadable : {s : S} → Refused (raise unbound_local_error, s)

abbrev Refuses : {S A : Type 0} → Exec S A → Type 0
Refuses {S} m = (s : S) → Refused (m s)

continue-Refuses :
    {S A B : Type 0} (x : Result A × S) (f : A → Exec S B)
    → Refused x
    → ((a : A) → Refuses (f a))
    → Refused (continue x.0 f x.1)
continue-Refuses _ f (done {a} {s}) k = k a s
continue-Refuses _ f (with_400 h) k = with_400 h
continue-Refuses _ f unreadable k = unreadable

>>=-Refuses :
    {S A B : Type 0} (m : Exec S A) (f : A → Exec S B)
    → Refuses m
    → ((a : A) → Refuses (f a))
    → Refuses (m >>= f)
>>=-Refuses m f h k s = continue-Refuses (m s) f (h s) k

if-Refused :
    {S A : Type 0} (b : Bool) (x y : Result A × S)
    → Refused x
    → Refused y
    → Refused (if b then x else y)
if-Refused true x y h k = h
if-Refused false x y h k = k

if-Refuses :
    {S A : Type 0} (b : Bool) (m n : Exec S A)
    → Refuses m
    → Refuses n
    → Refuses (if b then m else n)
if-Refuses true m n h k = h
if-Refuses false m n h k = k

Refused-Refusal :
    {S A : Type 0} (x : Result A × S) (e : Exn) → Refused x → x.0 ≡ raise e → Refusal e
Refused-Refusal _ e done h = absurd (cc (h))
Refused-Refusal _ e (with_400 c) h = subst Refusal (raise-eq h) (inl c)
Refused-Refusal _ e unreadable h = subst Refusal (raise-eq h) (inr refl)

version-Refuses : (v : Option String) → Refuses (check_and_set_version v)
unfolding check_and_set_version code
version-Refuses none s = with_400 refl
version-Refuses (some v) s =
    if-Refused _ _ _ (with_400 refl) (if-Refused _ _ _ done (with_400 refl))

versions-Refuses : (l : Option (List String)) → Refuses (check_accepted_versions l)
unfolding check_accepted_versions code
versions-Refuses none s = version-Refuses (some "1.0.0") s
versions-Refuses (some l) s = elim (Option-cases (last_known l none)) [
  | inl none_known ↦ rw (none_known, check_accepted_versions) (with_400 refl)
  | inr (version, known) ↦ rw (known, check_accepted_versions) (version-Refuses (some version) s)
]

language-Refuses : (v : Option String) → Refuses (check_and_set_language v)
unfolding check_and_set_language code
language-Refuses none s = done
language-Refuses (some v) s = elim (Bool-cases (holds (str_dec v ""))) [
  | inl blank ↦ rw (blank, check_and_set_language) done
  | inr set ↦ elim (Bool-cases (holds (str_dec v "en-US"))) [
    | inl english ↦ rw (set, english, check_and_set_language) done
    | inr other ↦ rw (set, other, check_and_set_language) (with_400 refl)
  ]
]

timeout-Refuses : (p : Parameter) → Refuses (set_timeout p)
unfolding set_timeout code
timeout-Refuses absent s = done
timeout-Refuses not_integer s = unreadable
timeout-Refuses (integer z) s = if-Refused _ _ _ (with_400 refl) done

expiration-Refuses : (p : Parameter) → Refuses (set_expiration p)
unfolding set_expiration code
expiration-Refuses absent s = done
expiration-Refuses not_integer s = unreadable
expiration-Refuses (integer z) s = if-Refused _ _ _ (with_400 refl) done

on_base_pair :
    (x : Result (Unit {0}) × Request) (r : OwsRequest)
    → Refused x
    → Refused (x.0, record r { base = x.1 })
on_base_pair _ r done = done
on_base_pair _ r (with_400 h) = with_400 h
on_base_pair _ r unreadable = unreadable

on_base-Refuses : (f : Exec Request (Unit {0})) → Refuses f → Refuses (on_base f)
unfolding on_base
on_base-Refuses f h r = on_base_pair (f r.base) r (h r.base)

set_identifier-Refuses : (identifier : String) → Refuses (set_identifier identifier)
unfolding set_identifier
set_identifier-Refuses identifier s = done

set_operation-Refuses : (operation : String) → Refuses (set_operation operation)
unfolding set_operation
set_operation-Refuses operation s = done

module _ (args : Arguments) where
  open args use {get_argument}

  required-Refuses : (name : String) → Refuses (required args name)
  unfolding required code
  required-Refuses name s = elim (Option-cases (get_argument name)) [
    | inl missing ↦ rw (missing, required) (with_400 refl)
    | inr (v, given) ↦ rw (given, required) done
  ]

  check_service-Refuses : (service : String) → Refuses (check_service service)
  unfolding check_service code
  check_service-Refuses service = if-Refuses _ _ _ (λ s. done) (λ s. with_400 refl)

  describeprocess-Refuses : Refuses (parse_get_describeprocess args)
  unfolding parse_get_describeprocess
  describeprocess-Refuses =
      >>=-Refuses _ _ (on_base-Refuses _ (version-Refuses (get_argument "VERSION"))) (λ _.
        >>=-Refuses _ _ (on_base-Refuses _ (language-Refuses (get_argument "LANGUAGE")))
          (λ _. >>=-Refuses _ _ (required-Refuses "IDENTIFIER") (λ _ s. done)))

  set_execution-Refuses : Refuses (set_execution args)
  unfolding set_execution
  set_execution-Refuses s = done

  execute-Refuses : Refuses (parse_get_execute args)
  unfolding parse_get_execute
  execute-Refuses =
      >>=-Refuses _ _ (on_base-Refuses _ (version-Refuses (get_argument "VERSION"))) (λ _.
        >>=-Refuses _ _ (on_base-Refuses _ (language-Refuses (get_argument "LANGUAGE"))) (λ _.
          >>=-Refuses _ _ (required-Refuses "IDENTIFIER") (λ identifier.
            >>=-Refuses _ _ (set_identifier-Refuses identifier) (λ _.
              >>=-Refuses _ _
                (on_base-Refuses _ (timeout-Refuses (int_argument args (get_argument "TIMEOUT"))))
                (λ _.
                  >>=-Refuses _ _
                    (on_base-Refuses _
                      (expiration-Refuses (int_argument args (get_argument "EXPIRE"))))
                    (λ _. set_execution-Refuses))))))

  getresults-Refuses : Refuses (parse_get_getresults args)
  unfolding parse_get_getresults
  getresults-Refuses = >>=-Refuses _ _ (required-Refuses "UUID") (λ _ s. done)

  getcapabilities-Refuses : Refuses (parse_get_getcapabilities args)
  unfolding parse_get_getcapabilities
  getcapabilities-Refuses =
      on_base-Refuses _ (versions-Refuses (accepted_versions args (get_argument "ACCEPTVERSIONS")))

  operation-Refuses : (operation : String) → Refuses (parse_operation args operation)
  unfolding parse_operation code
  operation-Refuses operation =
      if-Refuses (holds (str_dec operation "getresults")) _ _ getresults-Refuses (
        if-Refuses (holds (str_dec operation "getcapabilities")) _ _ getcapabilities-Refuses (
          if-Refuses (holds (str_dec operation "describeprocess")) _ _ describeprocess-Refuses (
            if-Refuses (holds (str_dec operation "execute")) _
              (throw (operation_not_supported operation)) execute-Refuses (λ s. with_400 refl))))

  request-Refuses : Refuses (parse_get_request args)
  unfolding parse_get_request
  request-Refuses = >>=-Refuses _ _ (required-Refuses "SERVICE") (λ service.
      >>=-Refuses _ _ (check_service-Refuses service) (λ _.
        >>=-Refuses _ _ (required-Refuses "REQUEST") (λ operation.
          >>=-Refuses _ _ (set_operation-Refuses (lower operation))
            (λ _. operation-Refuses (lower operation)))))

  -- Whatever the arguments are, parsing them raises only exceptions that the client is answered
  -- with 400, but for the `UnboundLocalError` of a timeout or an expiration that is no integer.
  pub parse_get_request-Refusal :
      (r : OwsRequest) (e : Exn) → (parse_get_request args r).0 ≡ raise e → Refusal e
  parse_get_request-Refusal r e raised =
      Refused-Refusal (parse_get_request args r) e (request-Refuses r) raised
