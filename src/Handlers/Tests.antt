-- ===== src/Handlers/Tests.antt =====
-- A service of two processes of which the policy denies one, a file, and a header of preferences.
use py_qgis_wps.Prelude.{
  ℕ, some, false, if◌then◌else◌, arith, String, ◌≡◌, refl, Bool, true, ◌||◌, none, List, [], ◌∷◌,
  all, lookup, str_dec, holds,
}
use py_qgis_wps.Prelude.Text.{lower, split, strip, starts_with, join}
use py_qgis_wps.Exceptions.{value_error, http_error, key_error, Result, ok, raise}
use py_qgis_wps.Exec.{Exec, pure}
use py_qgis_wps.Access.{Policy, no_rules, allow}
use py_qgis_wps.Executor.Processes.{Process, State, Factory, by_identifier}
use py_qgis_wps.Prelude.Int.{ℤ, pos}
use py_qgis_wps.Request
use py_qgis_wps.Request.{Request, ows_wps}
use py_qgis_wps.Api.Execute.{check_preferences}
use py_qgis_wps.Handlers.Download.{File, Reply, is_known, file_headers, download}
use py_qgis_wps.Handlers.Download.Whole.{Sends, download-Sends}
use py_qgis_wps.Handlers.Preferences.{ExecutePrefs, value_of, get_execute_prefs, preference_applied}
use py_qgis_wps.Handlers.Preferences.Applied.{
  is_raise, preference_applied-granted, get_execute_prefs-is_unreadable,
}
use py_qgis_wps.Executor.Processes.Found.{by_identifier-Named}
use py_qgis_wps.Handlers.Ows.{
  Answer, capabilities, descriptions, executed, OwsCall, list_processes, handle_wps_request,
}
use py_qgis_wps.Handlers.Ows.Allowed.{handle_wps_request-all, handle_wps_request-allowed}

-- A pattern matches its own text, and the star everything.
abbrev matches : String → String → Bool
matches i p = holds (str_dec p "*") || holds (str_dec p i)

abbrev deny_two : Policy
deny_two = record { allowed = []; denied = "two" ∷ [] }

abbrev process : String → Process
process ident = record { identifier = ident; map_uri = none }

abbrev factory : Factory
factory = record {
  qgis_enabled = true;
  create_contextualized_processes = λ idents uri. ok [];
  create_qgis_processes = ok [];
}

abbrev state : State
state = record {
  processes = by_identifier (process "one" ∷ process "two" ∷ []) [];
  context_processes = record { table = []; capacity = 10 };
}

abbrev asking : String → List String → OwsCall
asking operation identifiers = record {
  operation = operation;
  identifier = "one";
  identifiers = identifiers;
  results_uuid = "";
  map_uri = none;
  job_realm = none;
}

abbrev stored : String → Result String
stored uuid = raise key_error

abbrev execute_process : String → String → Process → Exec State String
execute_process job realm p = pure p.identifier

abbrev run : OwsCall → Exec State Answer
run = handle_wps_request matches no_rules deny_two factory stored execute_process "j1" "token"

capabilities_hide_two :
    run (asking "getcapabilities" []) state ≡ (ok (capabilities (process "one" ∷ [])), state)
unfolding handle_wps_request str_dec by_identifier
capabilities_hide_two = refl

two_is_refused :
    run (asking "describeprocess" ("one" ∷ "two" ∷ [])) state ≡ (raise (http_error 403), state)
unfolding handle_wps_request str_dec by_identifier
two_is_refused = refl

one_is_described :
    run (asking "describeprocess" ("one" ∷ [])) state
    ≡ (ok (descriptions (process "one" ∷ [])), state)
unfolding handle_wps_request str_dec by_identifier
one_is_described = refl

one_is_run : run (asking "execute" []) state ≡ (ok (executed "token" (process "one") "one"), state)
unfolding handle_wps_request str_dec by_identifier
one_is_run = refl

handle_wps_request-all_example :
    run (asking "describeprocess" ("ALL" ∷ [])) state
    ≡ (ok (descriptions (process "one" ∷ process "two" ∷ [])), state)
unfolding list_processes str_dec lower lookup allow by_identifier
handle_wps_request-all_example =
    handle_wps_request-all matches no_rules deny_two factory stored execute_process "j1" "token"
      (asking "describeprocess" ("ALL" ∷ [])) "ALL" state refl refl refl refl refl
      (refl, (refl, tt))

handle_wps_request-allowed_example :
    all (λ ident. allow matches ident no_rules deny_two) ("one" ∷ []) ≡ true
unfolding handle_wps_request str_dec by_identifier lower
handle_wps_request-allowed_example =
    handle_wps_request-allowed matches no_rules deny_two factory stored execute_process "j1" "token"
      (asking "describeprocess" ("one" ∷ [])) state state (descriptions (process "one" ∷ [])) refl
      refl (by_identifier-Named (process "one" ∷ process "two" ∷ []) [] (λ k p h. absurd (cc h)))
      refl

abbrev file : File ℕ
file = record { mtime = "12"; guessed_type = some "text/plain"; content = 1 ∷ 2 ∷ 3 ∷ [] }

abbrev reply : Reply ℕ
reply = record { status = 200; headers = []; flushed = [] }

two_chunks :
    download (some file) none 2 none none reply
    ≡ some (
      ok tt,
      record {
        status = 200;
        headers = ("Content-Type", "text/plain") ∷ ("Etag", "'12'") ∷ [];
        flushed = (1 ∷ 2 ∷ []) ∷ (3 ∷ []) ∷ [];
      },
    )
unfolding download str_dec
two_chunks = refl

not_modified :
    download (some file) none 2 none (some "'12'") reply
    ≡ some (ok tt, record { status = 304; headers = ("Etag", "'12'") ∷ []; flushed = [] })
unfolding download str_dec
not_modified = refl

download-Sends_example :
    (sent : Reply ℕ) × (download (some file) none 2 none none reply ≡ some (ok tt, sent))
    × Sends 2 file.content (file_headers file none none reply) sent
unfolding is_known
download-Sends_example = download-Sends file none 2 none none reply (omega arith) refl

-- Numbers of one digit.
abbrev digit : String → Result ℤ
digit s =
    if holds (str_dec s "5")
    then ok (pos 5)
    else if holds (str_dec s "9")
    then ok (pos 9)
    else raise value_error

abbrev prefs : ExecutePrefs
prefs = record { execute_async = true; timeout = some (pos 9); expire = some (pos 5) }

prefs_read : get_execute_prefs digit (some "Respond-Async, wait=9 ,x-expire=5") ≡ ok prefs
unfolding get_execute_prefs str_dec lower split
prefs_read = refl

abbrev asked : Request
asked = Request.init ows_wps (record {
  response_timeout = 7;
  response_expiration = 100;
  enable_job_realm = false;
  admin_realm = "";
  workdir = "/srv/wps";
})

-- The server allows 7 seconds only, so that the timeout is not said to be applied.
preference_applied-granted_example :
    preference_applied prefs (record asked { expiration = 5 }) ≡ "respond-async,x-expire"
unfolding check_preferences preference_applied Request.init join
preference_applied-granted_example =
    preference_applied-granted prefs asked (record asked { expiration = 5 }) refl

abc_refused : is_raise (get_execute_prefs digit (some "respond-async,wait=abc")) ≡ true
unfolding value_of str_dec lower split strip starts_with
abc_refused = get_execute_prefs-is_unreadable digit "respond-async,wait=abc"
