-- ===== src/FreedomPay/Handlers.antt =====
-- internal/ports/api/pay/handlers.go: the handlers of Freedom Pay's requests, between the parsed request
-- and the fields of the answer. `format` is `time.Time.Format` with RFC 3339; the order of ranging over
-- the store's map is an argument.
use chaospay.Prelude.{
  String, Bool, true, false, not, ◌||◌, Option, none, some, List, [], ◌∷◌, ◌==◌, str_eq, get_last?,
  if◌then◌else◌, ◌⊎◌, inl, inr,
}
use chaospay.Prelude.Words.{ℤ, pos}
use chaospay.Prelude.Decimal.{decimal, itoa}
use chaospay.Prelude.Assoc.{nat_eq}
use chaospay.Payment.{
  Time, Status, new, hold_pending, authorized, captured, cancelled, refunded, partial_refunded,
  failed, status_eq, RefundStatus, refund_success, refund_error, refund_process, refund_status_text,
  RefundOp, Record,
}
use chaospay.Payment.Repo.{
  PayError, already_authorized, payment_not_found, message, Reply, ok, err, ok_err, Clock,
}
use chaospay.PayService.{World, ServiceConfig}
use chaospay.PayService.Freedom
use chaospay.PayService.Freedom.{
  HoldInitInput, HostedInput, BindInput, hold_init, create_hosted, create_bind, revoke_with_outcome,
}
use chaospay.Scenario.{Scenario}
use chaospay.FreedomPay.{OrdMap, Maps, text, child, children, end, set, no_maps, more_maps}
use chaospay.FreedomPay.Requests.{request_get, uint_from_req, merchant_param_int, set_if}

-- `Config`, as far as the handlers read it.
pub record HandlerConfig : Type 0 where
  pub service : ServiceConfig
  pub default_terminal_id : ℤ
  pub hosted_form_url : String
  pub format : Time → String

-- The fields of the answer, or the error.
abbrev pub Answer : Type 0
Answer = OrdMap ⊎ PayError

abbrev pub Handler : Type 0
Handler = OrdMap → Option Scenario → World → Answer × World

-- `rec, err := …; if err != nil { return nil, err }`
abbrev pub answer_with : Reply × World → (Record → World → OrdMap × World) → Answer × World
answer_with (ok rec, w) f = let (fields, w') = f rec w in (inl fields, w')
answer_with (err e, w) f = (inr e, w)
answer_with (ok_err rec e, w) f = (inr e, w)

abbrev pub ok_fields : OrdMap
ok_fields = OrdMap.pair "pg_status" (text "ok") end

-- `handleHoldInit`
unfoldable pub handle_hold_init : HandlerConfig → Clock → Handler
unfolding uint_from_req merchant_param_int request_get set set_if
handle_hold_init cfg clock req sc w =
    answer_with
      (hold_init clock
        (record {
          order_id = uint_from_req req "pg_order_id" 0;
          merchant_id = uint_from_req req "pg_merchant_id" 0;
          terminal_id = merchant_param_int req "terminal_id" cfg.default_terminal_id;
          cabinet_id = merchant_param_int req "cabinet_id" (pos 0);
          user_id = uint_from_req req "pg_user_id" 0;
          amount = uint_from_req req "pg_amount" 0;
          currency = request_get req "pg_currency" "";
          card_token = request_get req "pg_card_token" "";
          description = request_get req "pg_description" "";
          idempotency_key = request_get req "pg_idempotency_key" "";
          user_phone = request_get req "pg_user_phone" "";
          user_email = request_get req "pg_user_email" "";
        })
        w)
      (λ rec w'.
        let out1 = set "pg_payment_id" (text (decimal rec.payment_id)) ok_fields in
        let out2 = set "pg_merchant_id" (text (decimal rec.merchant_id)) out1 in
        (set_if (not (rec.order_id == 0)) "pg_order_id" (text (decimal rec.order_id)) out2, w'))

-- The answer of EX-1001.
unfoldable pub wrong_status_fields : OrdMap
unfolding set
wrong_status_fields =
    set "pg_failure_description" (text "Неверный статус платежа")
      (set "pg_error_code" (text "120") (set "pg_status" (text "error") end))

-- The answer of a hold that has succeeded.
unfoldable pub hold_fields : (Time → String) → Record → OrdMap
unfolding set
hold_fields format rec =
    let out1 = set "pg_payment_id" (text (decimal rec.payment_id)) ok_fields in
    let out2 = set "pg_transaction_status" (text "Authorized") out1 in
    let out3 = set "pg_payment_method" (text "bankcard") out2 in
    let out4 = set "pg_create_date" (text (format rec.created_at)) out3 in
    let out5 = set "pg_can_reject" (text "1") out4 in
    let out6 = set "pg_captured" (text "0") out5 in
    let out7 = set "pg_card_pan" (text rec.card.pan) out6 in
    let out8 = set "pg_card_id" (text "1") out7 in
    let out9 = set "pg_card_token" (text rec.card.token) out8 in
    let out10 = set "pg_card_hash" (text rec.card.pan) out9 in
    let out11 = set "pg_amount" (text (decimal rec.amount)) out10 in
    set "pg_currency" (text rec.currency) out11

-- The branches of `handleHold` on the error of `Hold`.
unfoldable pub hold_reply : (Time → String) → Reply × World → Answer × World
unfolding wrong_status_fields hold_fields
hold_reply format (ok rec, w) = (inl (hold_fields format rec), w)
hold_reply format (ok_err rec already_authorized, w) = (inl wrong_status_fields, w)
hold_reply format (ok_err rec payment_not_found, w) = (inr (message "payment not found"), w)
hold_reply format (ok_err rec e, w) = (inr e, w)
hold_reply format (err already_authorized, w) = (inl wrong_status_fields, w)
hold_reply format (err payment_not_found, w) = (inr (message "payment not found"), w)
hold_reply format (err e, w) = (inr e, w)

-- `handleHold`
unfoldable pub handle_hold : HandlerConfig → Clock → Handler
unfolding uint_from_req hold_reply
handle_hold cfg clock req sc w =
    if uint_from_req req "pg_payment_id" 0 == 0
    then (inr (message "payment id is required"), w)
    else hold_reply cfg.format
        (Freedom.hold cfg.service clock (uint_from_req req "pg_payment_id" 0) w)

-- `payToFreedomStatus`
unfoldable pub pay_to_freedom_status : Status → String
pay_to_freedom_status new = "process"
pay_to_freedom_status hold_pending = "process"
pay_to_freedom_status authorized = "success"
pay_to_freedom_status captured = "success"
pay_to_freedom_status failed = "failed"
pay_to_freedom_status cancelled = "revoked"
pay_to_freedom_status refunded = "success"
pay_to_freedom_status partial_refunded = "success"
pay_to_freedom_status _ = "process"

abbrev has_action : String → Option Scenario → Bool
has_action action none = false
has_action action (some sc) = str_eq sc.action action

-- `hideRefunds`
unfoldable pub hide_refunds : Option Scenario → Bool
hide_refunds sc = has_action "refund_invisible" sc

-- `refundOutcome`
unfoldable pub refund_outcome : Option Scenario → RefundStatus
refund_outcome sc =
    if has_action "refund_declined" sc
    then refund_error
    else if has_action "refund_pending" sc
    then refund_process
    else refund_success

-- `withoutRefunds`
unfoldable pub without_refunds : Record → Record
unfolding status_eq
without_refunds rec = record rec {
  refunds = [];
  refunded_amount = 0;
  status =
      if status_eq rec.status refunded || status_eq rec.status partial_refunded
      then captured
      else rec.status;
}

-- `lastRefund`
unfoldable pub last_refund : Record → Option RefundOp
last_refund rec = get_last? rec.refunds

-- One element of `pg_refund_payments`.
unfoldable pub refund_child : (Time → String) → RefundOp → OrdMap
unfolding set
refund_child format refund =
    let out1 = set "pg_payment_id" (text (decimal refund.payment_id)) end in
    let out2 = set "pg_payment_status" (text (refund_status_text refund.status)) out1 in
    let out3 = set "pg_amount" (text (itoa refund.amount)) out2 in
    let out4 = set "pg_payment_date" (text (format refund.date)) out3 in
    set "pg_reference" (text (decimal refund.reference)) out4

unfoldable pub refund_children : (Time → String) → List RefundOp → Maps
unfolding refund_child
refund_children format [] = no_maps
refund_children format (r ∷ rs) = more_maps (refund_child format r) (refund_children format rs)

abbrev pub is_none_listed : List RefundOp → Bool
is_none_listed [] = true
is_none_listed (r ∷ rs) = false

-- `setRefundPayments`
unfoldable pub set_refund_payments : (Time → String) → Record → OrdMap → OrdMap
unfolding set_if refund_children set
set_refund_payments format rec out =
    set_if (not (is_none_listed rec.refunds)) "pg_refund_payments"
      (child (set "pg_refund_payment" (children (refund_children format rec.refunds)) end)) out

-- `refundStatusResponse`
unfoldable pub refund_status_response : (Time → String) → Record → RefundOp → OrdMap
unfolding set set_if itoa
refund_status_response format rec refund =
    let out1 = set "pg_payment_id" (text (decimal refund.payment_id)) ok_fields in
    let out2 = set "pg_can_reject" (text "1") out1 in
    let out3 = set "pg_payment_method" (text "bankcard") out2 in
    let out4 = set "pg_currency" (text rec.currency) out3 in
    let out5 = set "pg_payment_status" (text (refund_status_text refund.status)) out4 in
    let out6 = set "pg_amount" (text (itoa refund.amount)) out5 in
    let out7 = set "pg_clearing_amount" (text "0") out6 in
    let out8 = set "pg_create_date" (text (format refund.date)) out7 in
    let out9 = set "pg_reference" (text (decimal refund.reference)) out8 in
    let out10 = set_if (not (str_eq rec.card.pan "")) "pg_card_pan" (text rec.card.pan) out9 in
    set "pg_testing_mode" (text "1") out10
