-- ===== src/Ows/Post/Form.antt =====
-- What the response document of an execution asks for, beside the arguments of a URL.
use py_qgis_wps.Prelude.{
  ◌≡◌, refl, ◌∙◌, inl, inr, String, Bool, false, Option, none, some, List, [], ◌∷◌, str_dec, arith,
  holds,
}
use py_qgis_wps.Prelude.Text.{lower}
use py_qgis_wps.Exceptions.{Result, ok, raise, Result-cases}
use py_qgis_wps.Exec.{◌>>◌}
use py_qgis_wps.Request.{Request}
use py_qgis_wps.Ows.{Parameter, absent, not_integer, integer, set_timeout, set_expiration}
use py_qgis_wps.Ows.Get
use py_qgis_wps.Ows.Get.{
  OwsRequest, ows_request, Arguments, required, flag, int_argument, check_service, parse_operation,
  parse_get_execute, parse_get_request, set_execution,
}
use py_qgis_wps.Ows.Post
use py_qgis_wps.Ows.Post.{
  PostRequest, post_request, is_true, int_attribute, set_flags, set_inputs, set_response,
  parse_post_execute, parse_document, parse_post_request,
}
use py_qgis_wps.Ows.Post.Inputs.{Xml, Inputs}

-- What either way of reading gives: the base of the request and whether the lineage is wanted.
abbrev pub post_outcome : Result (Unit {0}) × PostRequest → Result (Request × Bool)
post_outcome (ok t, p) = ok (p.base, p.lineage)
post_outcome (raise e, p) = raise e

abbrev pub get_outcome : Result (Unit {0}) × OwsRequest → Result (Request × Bool)
get_outcome (ok t, g) = ok (g.base, g.lineage)
get_outcome (raise e, g) = raise e

abbrev pub is_async : Bool → Request → Request
is_async a b = record b { execute_async = a }

set_timeout-is_async :
    (t : Parameter) (a : Bool) (b : Request)
    → set_timeout t (is_async a b) ≡ ((set_timeout t b).0, is_async a (set_timeout t b).1)
unfolding set_timeout
set_timeout-is_async absent a b = refl
set_timeout-is_async not_integer a b = refl
set_timeout-is_async (integer z) a b = ground arith

set_expiration-is_async :
    (t : Parameter) (a : Bool) (b : Request)
    → set_expiration t (is_async a b) ≡ ((set_expiration t b).0, is_async a (set_expiration t b).1)
unfolding set_expiration
set_expiration-is_async absent a b = refl
set_expiration-is_async not_integer a b = refl
set_expiration-is_async (integer z) a b = ground arith

module _ (xml : Xml) (args : Arguments) where
  open xml use {Element, fromstring, tag, text, attrib, xpath}
  open args use {get_argument, int}

  abbrev pub form_attrib : List Element → String → Option String
  form_attrib [] name = none
  form_attrib (d ∷ ds) name = attrib d name

  flag-is_true : (name : String) → flag args name ≡ is_true (get_argument name)
  unfolding flag is_true
  flag-is_true name = given (get_argument name)
    where
      given :
          (v : Option String)
          → (elim v [ none ↦ false | some w ↦ holds (str_dec (lower w) "true") ]) ≡ is_true v
      given none = refl
      given (some w) = refl

  int_attribute-int_argument : (v : Option String) → int_attribute xml int v ≡ int_argument args v
  unfolding int_attribute int_argument
  int_attribute-int_argument none = refl
  int_attribute-int_argument (some v) = refl

  -- A document sets the flags before the timeouts, a URL after them.
  flags_first :
      (t e : Parameter) (inputs : Inputs) (g : OwsRequest)
      → post_outcome (
          (Post.on_base (set_timeout t) >> Post.on_base (set_expiration e)) (record {
            base = is_async (flag args "STOREEXECUTERESPONSE") g.base;
            identifiers = [];
            lineage = flag args "LINEAGE";
            inputs = inputs;
          }))
        ≡ get_outcome (
            (Get.on_base (set_timeout t) >> (Get.on_base (set_expiration e) >> set_execution args))
              g)
  unfolding Get.on_base Post.on_base set_execution
  flags_first t e inputs g =
      let a = flag args "STOREEXECUTERESPONSE" in
      let b = (set_timeout t g.base).1 in
      elim (Result-cases (set_timeout t g.base).0) [
        | inl (x, bad) ↦ rw (set_timeout-is_async t a g.base, bad) refl
        | inr (u, good) ↦ elim (Result-cases (set_expiration e b).0) [
          | inl (x, bad) ↦
              rw (set_timeout-is_async t a g.base, good, set_expiration-is_async e a b, bad) refl
          | inr (w, fine) ↦
              rw (set_timeout-is_async t a g.base, good, set_expiration-is_async e a b, fine) refl
        ]
      ]

  pub post_form :
      (forms : List Element) (inputs : Inputs) (g : OwsRequest)
      → form_attrib forms "lineage" ≡ get_argument "LINEAGE"
      → form_attrib forms "storeExecuteResponse" ≡ get_argument "STOREEXECUTERESPONSE"
      → form_attrib forms "timeout" ≡ get_argument "TIMEOUT"
      → form_attrib forms "expire" ≡ get_argument "EXPIRE"
      → post_outcome (
          set_response xml int forms (record {
            base = is_async false g.base;
            identifiers = [];
            lineage = false;
            inputs = inputs;
          }))
        ≡ get_outcome (
            (Get.on_base (set_timeout (int_argument args (get_argument "TIMEOUT")))
                >> (Get.on_base (set_expiration (int_argument args (get_argument "EXPIRE")))
                    >> set_execution args))
              g)
  unfolding set_response set_flags
  post_form [] inputs g l s t e =
      unfold Get.on_base set_execution int_argument set_timeout set_expiration is_true in
      rw (← t, ← e, flag-is_true "LINEAGE", ← l, flag-is_true "STOREEXECUTERESPONSE", ← s) refl
  post_form (d ∷ ds) inputs g l s t e =
      rw
        (
          s ∙ refl,
          l,
          t,
          e,
          ← flag-is_true "LINEAGE",
          ← flag-is_true "STOREEXECUTERESPONSE",
          int_attribute-int_argument (get_argument "TIMEOUT"),
          int_attribute-int_argument (get_argument "EXPIRE"),
        )
        (flags_first (int_argument args (get_argument "TIMEOUT"))
          (int_argument args (get_argument "EXPIRE")) inputs g)
