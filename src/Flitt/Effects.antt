-- ===== src/Flitt/Effects.antt =====
-- internal/ports/api/flitt/scenario.go: what a rule puts in the place of an answer, and what it changes in
-- one. Waiting is not modelled.
use chaospay.Prelude.{String, true, ◌&&◌, Option, none, some, ◌==◌, str_eq, if◌then◌else◌}
use chaospay.Prelude.Words.{ℤ, pos}
use chaospay.Prelude.Decimal.{parse_uint}
use chaospay.Prelude.Lenient.{lenient_atoi}
use chaospay.Payment.Repo.{ok, err, ok_err}
use chaospay.PayService.{World}
use chaospay.PayService.Flitt.{flitt_status}
use chaospay.PayService.Webhooks.{send_flitt_callback}
use chaospay.Scenario.{Scenario}
use chaospay.Scenario.Params.{param, param_int}
use chaospay.RequestLog.{Entry}
use chaospay.Flitt.Bodies.{
  DirectResponse, RecurringResponse, StatusResponse, Envelope, direct_envelope, recurring_envelope,
  status_envelope, new_failure,
}
use chaospay.Flitt.Handlers.{FlittConfig}

-- `respondFailure` with the code and the message of a rule.
abbrev coded_failure : Scenario → String → ℤ × Envelope
coded_failure sc text = (
  pos 200,
  new_failure (param_int (some sc) "error_code" (pos 1001)) (param (some sc) "message" text),
)

-- `applyScenarioBefore`: the answer that takes the handler's place, if there is one. The goroutine of
-- `sync_error_async_webhook` is in `early_callback`.
unfoldable pub apply_scenario_before : Scenario → Option (ℤ × Envelope)
unfolding param param_int
apply_scenario_before sc =
    if str_eq sc.action "force_failure"
    then (if str_eq (param (some sc) "outcome" "") ""
        then some (coded_failure sc "payment declined")
        else none)
    else if str_eq sc.action "ambiguous_error"
    then some (coded_failure sc "ambiguous error")
    else if str_eq sc.action "force_unauthorized"
    then some (pos 401, new_failure (pos 1006) "unauthorized")
    else if str_eq sc.action "force_forbidden"
    then some (pos 403, new_failure (pos 1007) "forbidden")
    else if str_eq sc.action "transient_failure"
    then (if sc.hit_count == 1
        then (let status = param_int (some sc) "http_status" (pos 500) in
            some (
              status,
              new_failure status (param (some sc) "message" "service temporarily unavailable"),
            ))
        else none)
    else if str_eq sc.action "sync_error_async_webhook"
    then some (coded_failure sc "payment declined")
    else none

-- The end of `sendAsyncCallback`: the payment is found by its order.
unfoldable pub callback_by_order : FlittConfig → String → World → World
unfolding flitt_status send_flitt_callback
callback_by_order cfg order_id w =
    if str_eq order_id "" then w else elim (flitt_status cfg.order order_id w).0 [
      | ok rec ↦ (send_flitt_callback cfg.service cfg.send rec.payment_id true w).1
      | err e ↦ w
      | ok_err rec e ↦ w
    ]

-- `sendAsyncCallback(entry, true)`
unfoldable pub send_async_callback : FlittConfig → Entry → World → World
unfolding send_flitt_callback callback_by_order
send_async_callback cfg entry w =
    if str_eq entry.payment_id ""
    then callback_by_order cfg entry.order_id w
    else elim (parse_uint entry.payment_id) [
      | some id ↦ (send_flitt_callback cfg.service cfg.send id true w).1
      | none ↦ callback_by_order cfg entry.order_id w
    ]

-- The goroutine of `sync_error_async_webhook`. It is taken to end before the next request comes.
unfoldable pub early_callback : FlittConfig → Scenario → Entry → World → World
unfolding send_async_callback
early_callback cfg sc entry w =
    if str_eq sc.action "sync_error_async_webhook" && cfg.webhook && cfg.auto_webhook
    then send_async_callback cfg entry w
    else w

-- The case `missing_field` on a status.
abbrev blank_status : String → StatusResponse → StatusResponse
blank_status field r =
    if str_eq field "approval_code"
    then record r { approval_code = "" }
    else if str_eq field "rrn"
    then record r { rrn = "" }
    else if str_eq field "signature"
    then record r { signature = "" }
    else if str_eq field "masked_card"
    then record r { masked_card = "" }
    else r

abbrev forced_status : String → StatusResponse → StatusResponse
forced_status status r = record r {
  order_status = status;
  response_status = if str_eq status "approved" then "success" else "failure";
}

-- The cases of `applyScenarioAfter` for each envelope that it knows.
unfoldable pub change_direct : Scenario → DirectResponse → DirectResponse
unfolding param lenient_atoi
change_direct sc r =
    if str_eq sc.action "wrong_payment_id"
    then record r { payment_id = some (lenient_atoi (param (some sc) "payment_id" "9999999999")) }
    else if str_eq sc.action "missing_field"
    then (if str_eq (param (some sc) "field" "") "approval_code"
        then record r { approval_code = "" }
        else r)
    else r

unfoldable pub change_recurring : Scenario → RecurringResponse → RecurringResponse
unfolding param lenient_atoi
change_recurring sc r =
    if str_eq sc.action "wrong_payment_id"
    then record r { payment_id = some (lenient_atoi (param (some sc) "payment_id" "9999999999")) }
    else if str_eq sc.action "wrong_amount"
    then record r { amount = param (some sc) "amount" "1" }
    else r

unfoldable pub change_status : Scenario → StatusResponse → StatusResponse
unfolding param lenient_atoi
change_status sc r =
    if str_eq sc.action "wrong_payment_id"
    then record r { payment_id = lenient_atoi (param (some sc) "payment_id" "9999999999") }
    else if str_eq sc.action "wrong_amount"
    then (let amount = param (some sc) "amount" "1" in
        record r { amount = amount; actual_amount = amount; settlement_amount = amount })
    else if str_eq sc.action "missing_field"
    then blank_status (param (some sc) "field" "") r
    else if str_eq sc.action "force_status"
    then forced_status (param (some sc) "order_status" "approved") r
    else r

-- `applyScenarioAfter`
unfoldable pub apply_scenario_after : Scenario → Envelope → Envelope
unfolding change_direct change_recurring change_status
apply_scenario_after sc (direct_envelope r) = direct_envelope (change_direct sc r)
apply_scenario_after sc (recurring_envelope r) = recurring_envelope (change_recurring sc r)
apply_scenario_after sc (status_envelope r) = status_envelope (change_status sc r)
apply_scenario_after sc body = body
