-- ===== src/Epay/Effects.antt =====
-- internal/ports/api/epay/scenario.go: what a rule puts in the place of an answer, and what it changes in
-- one.
use chaospay.Prelude.{
  suc, ◌/◌, String, Bool, ◌&&◌, ◌||◌, Option, none, some, ◌==◌, str_eq, if◌then◌else◌,
}
use chaospay.Prelude.Words.{ℤ, pos, negsuc, neg, is_nonpos}
use chaospay.Prelude.Decimal.{parse_uint}
use chaospay.Payment.Repo.{ok, err, ok_err, get}
use chaospay.PayService.{World, spawn, epay_success}
use chaospay.Scenario.{Scenario}
use chaospay.Scenario.Params.{param, param_int}
use chaospay.Epay.Reasons.{default_message}
use chaospay.Epay.Bodies.{AuthorizeResponse, Body, authorize_body, error_body}
use chaospay.Epay.Handlers.{EpayConfig}

-- `handlesDecline`
unfoldable pub handles_decline : String → Bool
handles_decline endpoint =
    str_eq endpoint "epay_confirm"
    || str_eq endpoint "epay_cryptopay"
    || str_eq endpoint "epay_card_auth"

-- An answer of `applyScenarioBefore`.
abbrev reason_answer : Scenario → String → ℤ × Body
reason_answer sc text =
    let reason = param_int (some sc) "reason_code" (pos 477) in
    (
      pos 400,
      error_body (record {
        code = reason;
        message = param (some sc) "message" text;
        result_code = reason;
      }),
    )

abbrev message_answer : Scenario → ℤ → String → ℤ × Body
message_answer sc status text = (
  status,
  error_body
      (record { code = pos 0; message = param (some sc) "message" text; result_code = pos 0 }),
)

-- `applyScenarioBefore`: the answer that takes the handler's place, if there is one.
unfoldable pub apply_scenario_before : Scenario → Option (ℤ × Body)
unfolding param param_int default_message
apply_scenario_before sc =
    if str_eq sc.action "force_failure"
    then some (reason_answer sc (default_message (param_int (some sc) "reason_code" (pos 477))))
    else if str_eq sc.action "ambiguous_error" || str_eq sc.action "epay_ambiguous"
    then some (reason_answer sc "Operation already exists")
    else if str_eq sc.action "force_unauthorized"
    then some (message_answer sc (pos 401) "Unauthorized")
    else if str_eq sc.action "force_forbidden"
    then some (message_answer sc (pos 403) "Forbidden")
    else if str_eq sc.action "transient_failure"
    then (if sc.hit_count == 1
        then some (
            message_answer sc (param_int (some sc) "http_status" (pos 500))
              "Service temporarily unavailable")
        else none)
    else none

-- `sendBeforeAckPostlink`, at the number that the entry holds when the goroutine reads it.
unfoldable pub send_before_ack : String → World → World
unfolding get spawn
send_before_ack payment_id w = elim (parse_uint payment_id) [
  | none ↦ w
  | some id ↦ elim (get id w.repo) [
    | ok rec ↦ spawn (epay_success rec) none w
    | err e ↦ w
    | ok_err rec e ↦ w
  ]
]

-- The branch of `postlink_before_ack`.
unfoldable pub early_postlink : EpayConfig → Scenario → String → World → World
unfolding send_before_ack
early_postlink cfg sc payment_id w =
    if str_eq sc.action "postlink_before_ack" && cfg.webhook && cfg.auto_webhook
    then send_before_ack payment_id w
    else w

-- `n / 2`, which rounds towards zero.
abbrev pub halved : ℤ → ℤ
halved (pos n) = pos (n / 2)
halved (negsuc n) = neg (suc n / 2)

-- The cases of `applyScenarioAfter` on the answer of an authorization.
unfoldable pub change_authorize : Scenario → AuthorizeResponse → AuthorizeResponse
unfolding param param_int
change_authorize sc ar =
    if str_eq sc.action "wrong_payment_id"
    then record ar { id = param (some sc) "payment_id" "00000000-0000-0000-0000-000000000000" }
    else if str_eq sc.action "wrong_amount"
    then (let v = param_int (some sc) "amount" (pos 1) in
        if is_nonpos v then ar else record ar { amount = v })
    else if str_eq sc.action "missing_field"
    then (let field = param (some sc) "field" "" in
        if str_eq field "id"
        then record ar { id = "" }
        else if str_eq field "reference"
        then record ar { reference = "" }
        else if str_eq field "invoiceId"
        then record ar { invoice_id = "" }
        else if str_eq field "cardID"
        then record ar { card_id = "" }
        else ar)
    else if str_eq sc.action "partial_amount"
    then record ar { amount = param_int (some sc) "amount" (halved ar.amount) }
    else ar

-- `applyScenarioAfter`
unfoldable pub apply_scenario_after : Scenario → Body → Body
unfolding change_authorize
apply_scenario_after sc (authorize_body ar) = authorize_body (change_authorize sc ar)
apply_scenario_after sc body = body
