-- ===== src/FreedomPay/Statuses.antt =====
-- The status request of internal/ports/api/pay/handlers.go: `handleStatus` and `findStatusRecord`.
use Prim.Native.String.{◌++◌ as str_append}
use chaospay.Prelude.{
  ℕ, String, not, ◌&&◌, Option, none, some, List, ◌==◌, ltb, str_eq, find_first, if◌then◌else◌, inl,
  inr,
}
use chaospay.Prelude.Decimal.{decimal}
use chaospay.Payment.{Time, is_zero_time, failed, status_eq, Record}
use chaospay.Payment.Repo.{PayError, message, ok, list_records}
use chaospay.Payment.Repo
use chaospay.PayService.{World}
use chaospay.Scenario.{Scenario}
use chaospay.FreedomPay.{OrdMap, text, set}
use chaospay.FreedomPay.Requests.{uint_from_req, set_if}
use chaospay.FreedomPay.Handlers.{
  HandlerConfig, Handler, ok_fields, hide_refunds, without_refunds, last_refund,
  set_refund_payments, refund_status_response, pay_to_freedom_status,
}

-- `findStatusRecord`, for the order of the range over the map.
unfoldable pub find_status_record : (List Record → List Record) → World → ℕ → ℕ → Option Record
find_status_record order w payment_id order_id =
    if not (payment_id == 0)
    then elim (Repo.get payment_id w.repo) [ ok rec ↦ some rec | _ ↦ none ]
    else find_first (λ rec. rec.order_id == order_id) (list_records order w.repo)

-- The fields up to `pg_captured`, which come from the payment as it is.
unfoldable pub payment_fields : (Time → String) → Record → OrdMap
unfolding set set_if pay_to_freedom_status
payment_fields format rec =
    let out1 = set "pg_payment_id" (text (decimal rec.payment_id)) ok_fields in
    let out2 = set "pg_can_reject" (text "1") out1 in
    let out3 = set "pg_payment_method" (text "bankcard") out2 in
    let out4 = set_if (not (rec.order_id == 0)) "pg_order_id" (text (decimal rec.order_id)) out3 in
    let out5 = set "pg_currency" (text rec.currency) out4 in
    let out6 = set "pg_payment_status" (text (pay_to_freedom_status rec.status)) out5 in
    let out7 = set "pg_amount" (text (decimal rec.amount)) out6 in
    let out8 = set "pg_clearing_amount" (text (decimal rec.captured_amount)) out7 in
    let out9 = set "pg_create_date" (text (format rec.created_at)) out8 in
    let out10 =
      set_if (not (is_zero_time rec.authorized_at)) "pg_payment_date"
        (text (format rec.authorized_at)) out9 in
    set_if (ltb 0 rec.captured_amount) "pg_captured" (text "1") out10

-- The fields after it, which come from the payment with its refunds hidden or not.
unfoldable pub detail_fields : (Time → String) → Record → OrdMap → OrdMap
unfolding set set_if set_refund_payments status_eq
detail_fields format rec out =
    let out1 =
      set_if (ltb 0 rec.refunded_amount) "pg_revoked_amount"
        (text (str_append "-" (decimal rec.refunded_amount))) out in
    let out2 = set_refund_payments format rec out1 in
    let has_reference = not (rec.reference == 0) in
    let out3 = set_if has_reference "pg_reference" (text (decimal rec.reference)) out2 in
    let out4 = set_if has_reference "pg_auth_code" (text (decimal rec.reference)) out3 in
    let out5 = set_if (not (str_eq rec.card.pan "")) "pg_card_pan" (text rec.card.pan) out4 in
    let out6 = set_if (not (str_eq rec.card.token "")) "pg_card_token" (text rec.card.token) out5 in
    let out7 = set_if (not (str_eq rec.user_email "")) "pg_user_email" (text rec.user_email) out6 in
    let out8 = set_if (not (str_eq rec.user_phone "")) "pg_user_phone" (text rec.user_phone) out7 in
    let out9 = set "pg_testing_mode" (text "1") out8 in
    let has_failed = status_eq rec.status failed && not (str_eq rec.last_error "") in
    let out10 = set_if has_failed "pg_failure_description" (text rec.last_error) out9 in
    set_if has_failed "pg_failure_code" (text "100") out10

-- The status of the payment itself.
unfoldable pub status_fields : (Time → String) → Option Scenario → Record → OrdMap
unfolding payment_fields detail_fields hide_refunds without_refunds
status_fields format sc rec =
    detail_fields format (if hide_refunds sc then without_refunds rec else rec)
      (payment_fields format rec)

-- A search by order answers the last refund, unless refunds are hidden.
unfoldable pub status_of_found : (Time → String) → Option Scenario → ℕ → Record → OrdMap
unfolding status_fields hide_refunds last_refund refund_status_response
status_of_found format sc payment_id rec =
    if payment_id == 0 && not (hide_refunds sc)
    then elim (last_refund rec) [
      | some refund ↦ refund_status_response format rec refund
      | none ↦ status_fields format sc rec
    ]
    else status_fields format sc rec

-- `handleStatus`
unfoldable pub handle_status : HandlerConfig → (List Record → List Record) → Handler
unfolding uint_from_req find_status_record status_of_found
handle_status cfg order req sc w =
    let payment_id = uint_from_req req "pg_payment_id" 0 in
    let order_id = uint_from_req req "pg_order_id" 0 in
    if payment_id == 0 && order_id == 0
    then (inr (message "payment id or order id is required"), w)
    else elim (find_status_record order w payment_id order_id) [
      | none ↦ (inr (message "payment not found"), w)
      | some rec ↦ (inl (status_of_found cfg.format sc payment_id rec), w)
    ]
