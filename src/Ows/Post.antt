-- ===== src/Ows/Post.antt =====
-- ogc/ows/request.py: `parse_post_request`, which reads a request from an XML document.
pub mod Inputs
pub mod Form
pub mod Agree
pub mod Values
pub mod Literal
pub mod Given
mod Tests
use py_qgis_wps.Prelude.{
  String, Bool, true, false, Option, none, some, List, [], ◌∷◌, Dict, map, holds, str_dec,
  if◌then◌else◌,
}
use py_qgis_wps.Prelude.Int.{ℤ}
use py_qgis_wps.Prelude.Text.{split, lower, join}
use py_qgis_wps.Exceptions.{
  Exn, type_error, no_applicable_code, invalid_parameter_value, missing_parameter_value, Result, ok,
  raise,
}
use py_qgis_wps.Exec.{Exec, pure, throw, ◌>>=◌, ◌>>◌}
use py_qgis_wps.Json.{Json}
use py_qgis_wps.Request
use py_qgis_wps.Request.{Request, ServerConfig, ows_wps}
use py_qgis_wps.Ows.{
  check_and_set_version, check_accepted_versions, check_and_set_language, Parameter, absent,
  not_integer, integer, set_timeout, set_expiration,
}
use py_qgis_wps.Ows.Post.Inputs.{Xml, get_inputs_from_xml}

-- `OWSRequest` as it is filled here: the text of an element may be missing, also as a key. The
-- outputs are always empty.
pub record PostRequest : Type 0 where
  pub base : Request
  pub identifiers : List (Option String)
  pub lineage : Bool
  pub inputs : Dict (Option String) (List Json)

unfoldable pub post_request : ServerConfig → PostRequest
unfolding Request.init
post_request cfg = record {
  base = Request.init ows_wps cfg;
  identifiers = [];
  lineage = false;
  inputs = [];
}

-- A check of the base class.
unfoldable pub on_base : Exec Request (Unit {0}) → Exec PostRequest (Unit {0})
on_base f r = ((f r.base).0, record r { base = (f r.base).1 })

unfoldable pub set_operation : String → Exec PostRequest (Unit {0})
set_operation operation r =
    (ok tt, record r { base = record r.base { operation = some operation } })

-- The texts that `','.join` is given: a missing one is a `TypeError`.
unfoldable pub all_texts : List (Option String) → Result (List String)
all_texts [] = ok []
all_texts (none ∷ rest) = raise type_error
all_texts (some t ∷ rest) = elim (all_texts rest) [ raise e ↦ raise e | ok ts ↦ ok (t ∷ ts) ]

-- `if acceptedversions: acceptedversions.split(',')` on the joined texts
unfoldable pub joined_versions : List String → Option (List String)
unfolding join split
joined_versions texts =
    if holds (str_dec (join "," texts) "") then none else some (split "," (join "," texts))

-- `attrib.get(name, 'false').lower() == 'true'`
unfoldable pub is_true : Option String → Bool
unfolding lower
is_true none = false
is_true (some v) = holds (str_dec (lower v) "true")

-- `lxml`, and `int` of a text.
module _ (xml : Xml) (int : String → Option ℤ) where
  open xml use {Element, fromstring, tag, text, attrib, xpath}

  unfoldable pub int_attribute : Option String → Parameter
  int_attribute none = absent
  int_attribute (some v) = elim (int v) [ none ↦ not_integer | some z ↦ integer z ]

  unfoldable pub parse_post_getcapabilities : Element → Exec PostRequest (Unit {0})
  unfolding all_texts joined_versions on_base check_accepted_versions
  parse_post_getcapabilities doc r =
      elim (all_texts
        (map text (xpath doc "/wps:GetCapabilities/ows:AcceptVersions/ows:Version"))) [
          | raise e ↦ (raise e, r)
          | ok texts ↦ on_base (check_accepted_versions (joined_versions texts)) r
        ]

  unfoldable pub parse_post_describeprocess : Element → Exec PostRequest (Unit {0})
  unfolding on_base check_and_set_version check_and_set_language set_operation
  parse_post_describeprocess doc = do
    on_base (check_and_set_version (attrib doc "version"))
    on_base (check_and_set_language (attrib doc "language"))
    set_operation "describeprocess"
    λ r. (ok tt, record r { identifiers = map text (xpath doc "./ows:Identifier") })

  -- `identifier[0].text`, and the defaults
  unfoldable pub set_identifier : List Element → Exec PostRequest (Unit {0})
  set_identifier [] r = (raise (missing_parameter_value "Identifier"), r)
  set_identifier (e ∷ es) r = (
    ok tt,
    record r {
      base = record r.base { identifier = text e; execute_async = false };
      lineage = false;
    },
  )

  unfoldable pub set_inputs : Element → Exec PostRequest (Unit {0})
  unfolding get_inputs_from_xml
  set_inputs doc r = elim (get_inputs_from_xml xml doc) [
    | raise e ↦ (raise e, r)
    | ok inputs ↦ (ok tt, record r { inputs = inputs })
  ]

  unfoldable pub set_flags : Element → Exec PostRequest (Unit {0})
  unfolding is_true
  set_flags d r = (
    ok tt,
    record r {
      lineage = is_true (attrib d "lineage");
      base = record r.base { execute_async = is_true (attrib d "storeExecuteResponse") };
    },
  )

  -- What the first `wps:ResponseDocument` asks for.
  unfoldable pub set_response : List Element → Exec PostRequest (Unit {0})
  unfolding set_flags on_base set_timeout set_expiration int_attribute
  set_response [] = pure tt
  set_response (d ∷ ds) = do
    set_flags d
    on_base (set_timeout (int_attribute (attrib d "timeout")))
    on_base (set_expiration (int_attribute (attrib d "expire")))

  unfoldable pub parse_post_execute : Element → Exec PostRequest (Unit {0})
  unfolding on_base check_and_set_version check_and_set_language set_operation set_identifier
      set_inputs set_response
  parse_post_execute doc = do
    on_base (check_and_set_version (attrib doc "version"))
    on_base (check_and_set_language (attrib doc "language"))
    set_operation "execute"
    set_identifier (xpath doc "./ows:Identifier")
    set_inputs doc
    set_response (xpath doc "./wps:ResponseForm/wps:ResponseDocument")

  -- The tests of the name of the root.
  unfoldable pub parse_document : Element → Exec PostRequest (Unit {0})
  unfolding set_operation parse_post_getcapabilities parse_post_describeprocess parse_post_execute
  parse_document doc =
      if holds (str_dec (tag doc) "{http://www.opengis.net/wps/1.0.0}GetCapabilities")
      then (do set_operation "getcapabilities"; parse_post_getcapabilities doc)
      else if holds (str_dec (tag doc) "{http://www.opengis.net/wps/1.0.0}DescribeProcess")
      then (do set_operation "describeprocess"; parse_post_describeprocess doc)
      else if holds (str_dec (tag doc) "{http://www.opengis.net/wps/1.0.0}Execute")
      then (do set_operation "execute"; parse_post_execute doc)
      else throw (invalid_parameter_value "request")

  unfoldable pub parse_post_request : String → Exec PostRequest (Unit {0})
  unfolding parse_document
  parse_post_request body = elim (fromstring body) [
    | none ↦ throw (no_applicable_code 400 "")
    | some doc ↦ parse_document doc
  ]
