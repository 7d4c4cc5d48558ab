-- ===== src/Flitt/Answers.antt =====
-- internal/ports/api/flitt/handlers.go: the answers that are built from a record, and what a rule says of
-- the outcome of a charge. `format` stands for `Time.Format`, first its layout.
use chaospay.Prelude.{ℕ, String, ◌||◌, not, Option, none, some, str_eq, if◌then◌else◌}
use chaospay.Prelude.Words.{ℤ, is_neg, to_uint, to_int}
use chaospay.Prelude.Decimal.{decimal}
use chaospay.Payment.{
  Time, Status, authorized, captured, cancelled, refunded, partial_refunded, failed, status_eq,
  Record,
}
use chaospay.PayService.{default_str}
use chaospay.Scenario.{Scenario}
use chaospay.Scenario.Params.{param}
use chaospay.Flitt.{CardOutcome, outcome_of_text}
use chaospay.Flitt.Bodies.{DirectResponse, StatusResponse, no_direct_answer, no_status_answer}

-- `uintFromInt`
abbrev pub uint_from_int : ℤ → ℕ
uint_from_int v = if is_neg v then 0 else to_uint v

-- `buildDirectResponse`
unfoldable pub build_direct_response : Record → DirectResponse
unfolding default_str
build_direct_response rec =
    let resp = record no_direct_answer {
      response_status = "success";
      order_id = decimal rec.order_id;
      masked_card = rec.card.pan;
      approval_code = rec.flitt.approval_code;
      rrn = rec.flitt.rrn;
      response_code = "1000";
      payment_id = some rec.flitt.payment_id;
      rectoken = rec.flitt.rectoken;
      settlement_amount = decimal rec.amount;
      settlement_currency = default_str rec.currency "GEL";
    } in
    if not (str_eq rec.flitt.acs_url "")
    then record resp {
      acs_url = rec.flitt.acs_url;
      pareq = rec.flitt.pareq;
      md = rec.flitt.md;
      order_status = "processing";
    }
    else record resp { order_status = "approved" }

-- `verificationStatusFor`
unfoldable pub verification_status_for : Record → String
unfolding status_eq
verification_status_for rec =
    if not rec.flitt.is_verify
    then ""
    else if status_eq rec.status authorized || status_eq rec.status captured
    then "verified"
    else "pending"

-- `orderStatusFromPay`
unfoldable pub order_status_from_pay : Status → String
order_status_from_pay authorized = "approved"
order_status_from_pay captured = "approved"
order_status_from_pay cancelled = "reversed"
order_status_from_pay refunded = "reversed"
order_status_from_pay partial_refunded = "reversed"
order_status_from_pay failed = "declined"
order_status_from_pay _ = "created"

-- `buildStatusResponse`
unfoldable pub build_status_response : (String → Time → String) → Record → StatusResponse
unfolding default_str order_status_from_pay verification_status_for status_eq to_int
build_status_response format rec = record no_status_answer {
  order_id = decimal rec.order_id;
  order_status = order_status_from_pay rec.status;
  response_status = if status_eq rec.status failed then "failure" else "success";
  payment_id = rec.flitt.payment_id;
  amount = decimal rec.amount;
  actual_amount = decimal rec.amount;
  settlement_amount = decimal rec.amount;
  currency = default_str rec.currency "GEL";
  actual_currency = default_str rec.currency "GEL";
  settlement_currency = default_str rec.currency "GEL";
  approval_code = rec.flitt.approval_code;
  rrn = rec.flitt.rrn;
  masked_card = rec.card.pan;
  card_type = default_str rec.card.brand "VISA";
  order_time = format "02.01.2006 15:04:05" rec.created_at;
  settlement_date = format "2006-01-02" rec.created_at;
  sender_email = rec.user_email;
  merchant_id = to_int rec.merchant_id;
  merchant_data = rec.flitt.merchant_data;
  payment_system = "card";
  tran_type = "purchase";
  eci = "5";
  rectoken = rec.flitt.rectoken;
  fee = "0";
  fee_oplata = "0";
  reversal_amount = decimal rec.refunded_amount;
  verification_status = verification_status_for rec;
  response_code = "1000";
}

-- `flittOutcomeFromScenario`
unfoldable pub flitt_outcome_from_scenario : Option Scenario → CardOutcome
unfolding param outcome_of_text
flitt_outcome_from_scenario none = CardOutcome.approved
flitt_outcome_from_scenario (some sc) =
    if str_eq sc.action "force_failure"
    then outcome_of_text (param (some sc) "outcome" "declined")
    else if str_eq sc.action "force_3ds"
    then outcome_of_text (param (some sc) "outcome" "approved_3ds")
    else CardOutcome.approved

-- `flittErrorCode`
unfoldable pub flitt_error_code : Option Scenario → String
unfolding param
flitt_error_code sc = param sc "error_code" "1001"
