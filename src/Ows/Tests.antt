-- ===== src/Ows/Tests.antt =====
-- Checks of concrete parameters.
use py_qgis_wps.Prelude.{some, [], ◌∷◌}
use py_qgis_wps.Request
use py_qgis_wps.Request.{Request, ServerConfig, ows_wps}
use py_qgis_wps.Ows.{not_integer, check_accepted_versions, set_timeout}
use py_qgis_wps.Ows.Checks.{
  Negotiated, Settled, check_accepted_versions-Negotiated, set_timeout-Settled,
}
use py_qgis_wps.Prelude.{true, refl, ◌≡◌, lookup, str_dec, List}
use py_qgis_wps.Prelude.Text.{join}
use py_qgis_wps.Ows.Kvp.{get_data_from_kvp}
use py_qgis_wps.Prelude.{none, String}
use py_qgis_wps.Prelude.Text.{lower}
use py_qgis_wps.Exceptions.{ok, raise, unbound_local_error}
use py_qgis_wps.Ows.Kvp.{single}
use py_qgis_wps.Ows.Get.{OwsRequest, Arguments, ows_request, parse_get_request}
use py_qgis_wps.Ows.Get.Refused.{Refusal, parse_get_request-Refusal}
use py_qgis_wps.Ows.Get.Parsed.{Sent, parse_get_request-Sent}
use py_qgis_wps.Ows.Kvp.RoundTrip.{Item, print_items, inputs_of, entry, get_data_from_kvp-join}

abbrev config : ServerConfig
config = record {
  response_timeout = 1800;
  response_expiration = 86400;
  enable_job_realm = true;
  admin_realm = "root";
  workdir = "/srv/wps";
}

abbrev request : Request
request = Request.init ows_wps config

second_version :
    Negotiated request
      (some ("2.0.0" ∷ "1.0.0" ∷ []))
      (check_accepted_versions (some ("2.0.0" ∷ "1.0.0" ∷ [])) request)
second_version = check_accepted_versions-Negotiated (some ("2.0.0" ∷ "1.0.0" ∷ [])) request

unreadable_timeout : Settled request not_integer (set_timeout not_integer request)
unreadable_timeout = set_timeout-Settled not_integer request

-- `width=12@uom=m;width=20`
abbrev two_widths : List Item
two_widths =
    record { identifier = "width"; value = "12"; attributes = ("uom", "m") ∷ [] }
    ∷ record { identifier = "width"; value = "20"; attributes = [] }
    ∷ []

kvp_text : join ";" (print_items two_widths) ≡ "width=12@uom=m;width=20"
unfolding join
kvp_text = refl

get_data_from_kvp-join_example :
    lookup str_dec "width" (get_data_from_kvp (some (join ";" (print_items two_widths))) true)
    ≡ entry (inputs_of "width" two_widths)
get_data_from_kvp-join_example =
    get_data_from_kvp-join
      (record { identifier = "width"; value = "12"; attributes = ("uom", "m") ∷ [] })
      (record { identifier = "width"; value = "20"; attributes = [] } ∷ []) "width" refl

abbrev arguments : Arguments
arguments = record {
  get_argument = λ name. lookup str_dec name (
      ("SERVICE", "WPS")
      ∷ ("REQUEST", "Execute")
      ∷ ("VERSION", "1.0.0")
      ∷ ("IDENTIFIER", "buffer")
      ∷ ("DATAINPUTS", "width=12@uom=m;width=20")
      ∷ []);
  int = λ s. none;
}

abbrev width : Item
width = record { identifier = "width"; value = "12"; attributes = ("uom", "m") ∷ [] }

abbrev wide : Item
wide = record { identifier = "width"; value = "20"; attributes = [] }

arguments-Sent : Sent arguments "buffer" width (wide ∷ [])
unfolding lookup str_dec lower join
arguments-Sent = record {
  service = "WPS";
  service_given = refl;
  service_wps = refl;
  request = "Execute";
  request_given = refl;
  request_execute = refl;
  version = refl;
  language = refl;
  identifier = refl;
  timeout = refl;
  expire = refl;
  inputs = refl;
}

parse_get_request-Sent_example :
    (r : OwsRequest) × (parse_get_request arguments (ows_request config) ≡ (ok tt, r))
    × (r.base.identifier ≡ some "buffer")
    × ((k : String) → lookup str_dec k r.inputs ≡ entry (inputs_of k (width ∷ wide ∷ [])))
parse_get_request-Sent_example =
    parse_get_request-Sent arguments config "buffer" width (wide ∷ []) arguments-Sent refl

abbrev bad_timeout : Arguments
bad_timeout = record {
  get_argument = λ name. lookup str_dec name (
      ("SERVICE", "WPS")
      ∷ ("REQUEST", "Execute")
      ∷ ("VERSION", "1.0.0")
      ∷ ("IDENTIFIER", "buffer")
      ∷ ("TIMEOUT", "soon")
      ∷ []);
  int = λ s. none;
}

bad_timeout_raises :
    (parse_get_request bad_timeout (ows_request config)).0 ≡ raise unbound_local_error
unfolding parse_get_request lookup str_dec
bad_timeout_raises = refl

parse_get_request-Refusal_example : Refusal unbound_local_error
parse_get_request-Refusal_example =
    parse_get_request-Refusal bad_timeout (ows_request config) unbound_local_error
      bad_timeout_raises

malformed :
    get_data_from_kvp (some "width") true
    ≡ ("width", single (("identifier", "width") ∷ ("data", "") ∷ [])) ∷ []
unfolding get_data_from_kvp str_dec
malformed = refl
