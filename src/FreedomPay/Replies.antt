-- ===== src/FreedomPay/Replies.antt =====
-- internal/ports/api/pay: how an answer of Freedom Pay is made and sent (`signedXML`, `respondFailure` and
-- `respondError` of handler.go), and what a rule puts in its place (`applyScenarioBefore` of scenario.go).
-- The salt is an argument, and so is what the form and the XML reader make of the body.
use chaospay.Prelude.{ℕ, String, not, Option, none, some, ◌⊎◌, ◌==◌, str_eq, if◌then◌else◌}
use chaospay.Prelude.Words.{pos}
use chaospay.Prelude.Decimal.{parse_uint}
use chaospay.Prelude.Assoc.{Assoc, lookup, nat_eq}
use chaospay.Payment.Repo.{Clock}
use chaospay.PayService.{World}
use chaospay.PayService.Freedom as Service
use chaospay.Scenario.{Scenario}
use chaospay.Scenario.Params.{param}
use chaospay.RequestLog.{Entry, add}
use chaospay.Transport.{Wire, answered, Ending}
use chaospay.Http.{Call, finish, Shared}
use chaospay.FreedomPay.{OrdMap, text, end, set, signed_fields}
use chaospay.FreedomPay.Requests.{request_get, set_if}
use chaospay.FreedomPay.Handlers.{HandlerConfig}
use chaospay.FreedomPay.Rendering.{render_response, replace_tag_value, remove_tag}

-- `Config`, and the arguments of the model. `read` is what `ParseForm`, `PostFormValue` and the XML reader
-- make of a body: the text that the journal keeps, and the fields or the text of the refusal.
pub record PayConfig : Type 0 where
  pub handlers : HandlerConfig
  pub secret : String
  pub secrets : Assoc ℕ String
  pub md5 : String → String
  pub read : String → (String × OrdMap) ⊎ (String × String)

-- `secretFor`
unfoldable pub secret_for : PayConfig → String → String
unfolding lookup
secret_for cfg merchant_id =
    if str_eq merchant_id "" then cfg.secret else elim (parse_uint merchant_id) [
      | none ↦ cfg.secret
      | some id ↦ elim (lookup id cfg.secrets) [ none ↦ cfg.secret | some secret ↦ secret ]
    ]

-- What one request is served with: the endpoint's two names, the secret and the salt.
pub record Signing : Type 0 where
  pub script_name : String
  pub secret : String
  pub salt : String

-- `signedXML`
unfoldable pub signed_xml : PayConfig → Signing → OrdMap → String
unfolding signed_fields render_response
signed_xml cfg g fields =
    render_response "response" (signed_fields cfg.md5 g.salt g.script_name fields g.secret)

-- An answer at status 200: `writeXML` and the lines before it.
abbrev pub xml_ending : String → Ending String
xml_ending body = record { wire = answered (pos 200) body; status_code = pos 200; shown = body }

-- The fields of `respondFailure`.
unfoldable pub failure_fields : String → String → OrdMap
unfolding set set_if
failure_fields code description =
    let fields = set "pg_status" (text "error") end in
    let fields1 = set_if (not (str_eq code "")) "pg_error_code" (text code) fields in
    set_if (not (str_eq description "")) "pg_error_description" (text description) fields1

-- `respondFailure`
unfoldable pub respond_failure :
    PayConfig → Signing → Call String → Entry → String → String → Shared → Wire String × Shared
unfolding finish signed_xml failure_fields
respond_failure cfg g call entry code description s =
    finish call entry (xml_ending (signed_xml cfg g (failure_fields code description))) s

-- The error of a rule, with the key that its text stands under.
abbrev rule_error : Scenario → String → String → String → OrdMap
rule_error sc key code message = set key (text (param (some sc) "message" message)) (
    set "pg_error_code" (text (param (some sc) "error_code" code))
      (set "pg_status" (text "error") end))

-- The answer that `applyScenarioBefore` gives in place of the handler's, if any.
unfoldable pub answer_before : Scenario → Option OrdMap
unfolding param set
answer_before sc =
    if str_eq sc.action "ambiguous_error"
    then some (rule_error sc "pg_failure_description" "120" "Неверный статус платежа")
    else if str_eq sc.action "force_failure"
    then some (rule_error sc "pg_error_description" "100" "forced failure")
    else if str_eq sc.action "sync_error_async_webhook"
    then some (rule_error sc "pg_error_description" "120" "Неверный статус платежа")
    else none

-- The goroutine of `sync_error_async_webhook`, which holds the payment. It is taken to end before the next
-- request comes.
unfoldable pub silent_hold : PayConfig → Clock → Scenario → OrdMap → World → World
unfolding Service.hold request_get
silent_hold cfg clock sc req w =
    if str_eq sc.action "sync_error_async_webhook"
    then elim (parse_uint (request_get req "pg_payment_id" "")) [
      | none ↦ w
      | some id ↦ if id == 0 then w else (Service.hold cfg.handlers.service clock id w).1
    ]
    else w

-- What the rules for the text itself make of it.
unfoldable pub change_text : Scenario → String → String
unfolding param replace_tag_value remove_tag
change_text sc body =
    if str_eq sc.action "invalid_signature"
    then replace_tag_value body "pg_sig" "00000000000000000000000000000000"
    else if str_eq sc.action "missing_field"
    then (let field = param (some sc) "field" "" in
        if str_eq field "" then body else remove_tag body field)
    else body

-- `respondError`: the text of the refusal goes into the journal as it is.
unfoldable pub respond_error : Call String → Entry → String → Shared → Wire String × Shared
unfolding add
respond_error call entry refusal s = (
  answered (pos 400) refusal,
  record s {
    journal =
        add call.logged_at
          (record entry {
            status_code = pos 400;
            response_body = refusal;
            duration_ms = call.duration_ms;
          })
          s.journal;
  },
)
