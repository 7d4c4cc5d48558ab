-- ===== src/Flitt/Bodies/Charges.antt =====
-- internal/infrastructure/flitt/types.go: the answers to the requests that charge, before they are printed as JSON. A value
-- of `interface{}` is `none` where it is nil. Beside each record stands Go's zero value, for the fields
-- that a literal leaves out.
use chaospay.Prelude.{String, Option, none}
use chaospay.Prelude.Words.{ℤ, pos}

-- `CheckoutResponse`
pub record CheckoutResponse : Type 0 where
  pub response_status : String
  pub checkout_url : String
  pub error_message : String
  pub error_code : Option ℤ

abbrev pub no_checkout_answer : CheckoutResponse
no_checkout_answer = record {
  response_status = "";
  checkout_url = "";
  error_message = "";
  error_code = none;
}

-- `DirectResponse`
pub record DirectResponse : Type 0 where
  pub response_status : String
  pub acs_url : String
  pub pareq : String
  pub md : String
  pub checkout_url : String
  pub order_id : String
  pub rectoken : String
  pub response_code : String
  pub rrn : String
  pub masked_card : String
  pub sender_cell : String
  pub sender_account : String
  pub fee : String
  pub reversed_amount : String
  pub settlement_date : String
  pub settlement_amount : String
  pub settlement_currency : String
  pub approval_code : String
  pub order_status : String
  pub payment_id : Option ℤ
  pub error_message : String
  pub error_code : ℤ

abbrev pub no_direct_answer : DirectResponse
no_direct_answer = record {
  response_status = "";
  acs_url = "";
  pareq = "";
  md = "";
  checkout_url = "";
  order_id = "";
  rectoken = "";
  response_code = "";
  rrn = "";
  masked_card = "";
  sender_cell = "";
  sender_account = "";
  fee = "";
  reversed_amount = "";
  settlement_date = "";
  settlement_amount = "";
  settlement_currency = "";
  approval_code = "";
  order_status = "";
  payment_id = none;
  error_message = "";
  error_code = pos 0;
}

-- `RecurringResponse`
pub record RecurringResponse : Type 0 where
  pub response_status : String
  pub order_status : String
  pub payment_id : Option ℤ
  pub masked_card : String
  pub order_id : String
  pub amount : String
  pub currency : String
  pub approval_code : String
  pub rrn : String
  pub card_type : String
  pub rectoken : String
  pub response_code : String
  pub error_message : String
  pub error_code : Option ℤ

abbrev pub no_recurring_answer : RecurringResponse
no_recurring_answer = record {
  response_status = "";
  order_status = "";
  payment_id = none;
  masked_card = "";
  order_id = "";
  amount = "";
  currency = "";
  approval_code = "";
  rrn = "";
  card_type = "";
  rectoken = "";
  response_code = "";
  error_message = "";
  error_code = none;
}
