-- ===== src/Ows/Post/Agree.antt =====
-- An execution that is sent as a document is read as one that is sent in the URL.
use py_qgis_wps.Prelude.{
  ◌≡◌, refl, sym, ap, ◌∙◌, inl, inr, String, false, Option, none, some, List, [], ◌∷◌, str_dec,
  arith,
}
use py_qgis_wps.Prelude.Text.{lower}
use py_qgis_wps.Exceptions.{ok, Result-cases}
use py_qgis_wps.Exec.{◌>>◌}
use py_qgis_wps.Request.{Request, ServerConfig}
use py_qgis_wps.Ows.{check_and_set_version, check_and_set_language, set_timeout, set_expiration}
use py_qgis_wps.Ows.Get
use py_qgis_wps.Ows.Get.{
  OwsRequest, ows_request, Arguments, required, flag, int_argument, check_service, parse_operation,
  parse_get_execute, parse_get_request, set_execution,
}
use py_qgis_wps.Ows.Get.Parsed.{required_given, wps_accepted, operation_execute}
use py_qgis_wps.Ows.Post
use py_qgis_wps.Ows.Post.{
  PostRequest, post_request, is_true, int_attribute, set_flags, set_inputs, set_response,
  parse_post_execute, parse_document, parse_post_request,
}
use py_qgis_wps.Ows.Post.Inputs.{Xml, Inputs, get_inputs_from_xml}
use py_qgis_wps.Ows.Post.Form.{post_outcome, get_outcome, form_attrib, post_form}

version-operation :
    (v : Option String) (b : Request) → (check_and_set_version v b).1.operation ≡ b.operation
unfolding check_and_set_version
version-operation none b = refl
version-operation (some v) b = ground arith

language-operation :
    (v : Option String) (b : Request) → (check_and_set_language v b).1.operation ≡ b.operation
unfolding check_and_set_language
language-operation none b = refl
language-operation (some v) b = ground arith

module _ (xml : Xml) (args : Arguments) where
  open xml use {Element, fromstring, tag, text, attrib, xpath}
  open args use {get_argument, int}

  -- The document, as lxml reads it, and the arguments ask for the same execution: the same version,
  -- language and process, and what the first response document says of the response.
  pub record SameExecution (body : String) : Type 0 where
    pub doc : Element
    pub read : fromstring body ≡ some doc
    pub root : tag doc ≡ "{http://www.opengis.net/wps/1.0.0}Execute"
    pub inputs : Inputs
    pub inputs_read : get_inputs_from_xml xml doc ≡ ok inputs
    pub process : String
    pub identifier : Element
    pub others : List Element
    pub identified : xpath doc "./ows:Identifier" ≡ identifier ∷ others
    pub named : text identifier ≡ some process
    pub forms : List Element
    pub formed : xpath doc "./wps:ResponseForm/wps:ResponseDocument" ≡ forms
    pub service : String
    pub service_given : get_argument "SERVICE" ≡ some service
    pub service_wps : lower service ≡ "wps"
    pub request : String
    pub request_given : get_argument "REQUEST" ≡ some request
    pub request_execute : lower request ≡ "execute"
    pub same_version : attrib doc "version" ≡ get_argument "VERSION"
    pub same_language : attrib doc "language" ≡ get_argument "LANGUAGE"
    pub same_process : get_argument "IDENTIFIER" ≡ some process
    pub same_lineage : form_attrib xml args forms "lineage" ≡ get_argument "LINEAGE"
    pub same_store :
        form_attrib xml args forms "storeExecuteResponse" ≡ get_argument "STOREEXECUTERESPONSE"
    pub same_timeout : form_attrib xml args forms "timeout" ≡ get_argument "TIMEOUT"
    pub same_expire : form_attrib xml args forms "expire" ≡ get_argument "EXPIRE"

  inputs_set :
      (body : String) (h : SameExecution body) (p : PostRequest)
      → set_inputs xml int h.doc p ≡ (ok tt, record p { inputs = h.inputs })
  unfolding set_inputs
  inputs_set body h p = rw (h.inputs_read, set_inputs) refl

  -- Once the version and the language are checked.
  execute_checked :
      (body : String) (h : SameExecution body) (b : Request) (g : OwsRequest)
      → b.operation ≡ some "execute"
      → post_outcome (
          (Post.set_operation "execute"
              >> (Post.set_identifier xml int (xpath h.doc "./ows:Identifier")
                  >> (set_inputs xml int h.doc
                      >> set_response xml int
                          (xpath h.doc "./wps:ResponseForm/wps:ResponseDocument"))))
            (record { base = b; identifiers = []; lineage = false; inputs = [] }))
        ≡ get_outcome (
            (Get.set_identifier h.process
                >> (Get.on_base (set_timeout (int_argument args (get_argument "TIMEOUT")))
                    >> (Get.on_base (set_expiration (int_argument args (get_argument "EXPIRE")))
                        >> set_execution args)))
              (record g { base = b }))
  unfolding Post.set_operation Post.set_identifier Get.set_identifier
  execute_checked body h b g op =
      rw (h.identified, h.named, inputs_set body h, h.formed)
        (ap
            (λ o. post_outcome (
              set_response xml int h.forms (record {
                base = record b {
                  operation = o;
                  identifier = some h.process;
                  execute_async = false;
                };
                identifiers = [];
                lineage = false;
                inputs = h.inputs;
              })))
            (sym op)
          ∙ post_form xml args h.forms h.inputs
              (record g { base = record b { identifier = some h.process } }) h.same_lineage
              h.same_store h.same_timeout h.same_expire)

  execute_same :
      (body : String) (h : SameExecution body) (g : OwsRequest)
      → g.base.operation ≡ some "execute"
      → post_outcome (
          parse_post_execute xml int h.doc
            (record { base = g.base; identifiers = []; lineage = false; inputs = [] }))
        ≡ get_outcome (parse_get_execute args g)
  unfolding parse_post_execute parse_get_execute Get.on_base Post.on_base
  execute_same body h g op =
      let v = get_argument "VERSION" in
      let l = get_argument "LANGUAGE" in
      let b = (check_and_set_version v g.base).1 in
      let c = (check_and_set_language l b).1 in
      elim (Result-cases (check_and_set_version v g.base).0) [
        | inl (x, bad) ↦ rw (h.same_version, bad) refl
        | inr (u, good) ↦ elim (Result-cases (check_and_set_language l b).0) [
          | inl (x, bad) ↦ rw (h.same_version, good, h.same_language, bad) refl
          | inr (w, fine) ↦
              rw
                (
                  h.same_version,
                  good,
                  h.same_language,
                  fine,
                  required_given args "IDENTIFIER" h.process h.same_process (record g { base = c }),
                )
                (execute_checked body h c g
                  (language-operation l b ∙ version-operation v g.base ∙ op))
        ]
      ]

  root_execute :
      (doc : Element)
      → tag doc ≡ "{http://www.opengis.net/wps/1.0.0}Execute"
      → parse_document xml int doc
        ≡ (Post.set_operation "execute" >> parse_post_execute xml int doc)
  unfolding parse_document str_dec
  root_execute doc h = rw h refl

  document_read :
      (body : String) (h : SameExecution body)
      → parse_post_request xml int body ≡ parse_document xml int h.doc
  unfolding parse_post_request
  document_read body h = rw (h.read, parse_post_request) refl

  -- A document whose inputs can be read, and the arguments of a URL that ask for the same execution,
  -- give the same request: both raise the same exception, for the version, the language, the timeout
  -- or the expiration, or both give the same version, language, process, timeouts and flags.
  pub parse_post_request-parse_get_request :
      (cfg : ServerConfig) (body : String)
      → SameExecution body
      → post_outcome (parse_post_request xml int body (post_request cfg))
        ≡ get_outcome (parse_get_request args (ows_request cfg))
  unfolding parse_get_request post_request ows_request Post.set_operation Get.set_operation
  parse_post_request-parse_get_request cfg body h =
      let started = record (ows_request cfg) {
        base = record (ows_request cfg).base { operation = some "execute" };
      } in
      rw
        (
          document_read body h,
          root_execute h.doc h.root,
          required_given args "SERVICE" h.service h.service_given,
          wps_accepted args h.service h.service_wps,
          required_given args "REQUEST" h.request h.request_given,
          h.request_execute,
          operation_execute args,
        )
        (execute_same body h started refl)
