-- ===== src/Flitt/Bodies/Orders.antt =====
-- internal/infrastructure/flitt/types.go: the answers to the requests for an order, before they are printed as JSON. A value
-- of `interface{}` is `none` where it is nil. Beside each record stands Go's zero value, for the fields
-- that a literal leaves out.
use chaospay.Prelude.{String, Option, none}
use chaospay.Prelude.Words.{ℤ, pos}

-- `CaptureResponse`
pub record CaptureResponse : Type 0 where
  pub capture_status : String
  pub order_id : String
  pub response_description : String
  pub response_code : String
  pub merchant_id : ℤ
  pub response_status : String
  pub error_code : ℤ
  pub error_message : String

abbrev pub no_capture_answer : CaptureResponse
no_capture_answer = record {
  capture_status = "";
  order_id = "";
  response_description = "";
  response_code = "";
  merchant_id = pos 0;
  response_status = "";
  error_code = pos 0;
  error_message = "";
}

-- `ReverseResponse`
pub record ReverseResponse : Type 0 where
  pub reverse_status : String
  pub order_id : String
  pub response_description : String
  pub response_code : String
  pub merchant_id : ℤ
  pub response_status : String
  pub signature : String
  pub reverse_id : String
  pub reversal_amount : String
  pub transaction_id : String
  pub comment : String
  pub error_code : ℤ
  pub error_message : String

abbrev pub no_reverse_answer : ReverseResponse
no_reverse_answer = record {
  reverse_status = "";
  order_id = "";
  response_description = "";
  response_code = "";
  merchant_id = pos 0;
  response_status = "";
  signature = "";
  reverse_id = "";
  reversal_amount = "";
  transaction_id = "";
  comment = "";
  error_code = pos 0;
  error_message = "";
}

-- `StatusResponse`
pub record StatusResponse : Type 0 where
  pub rrn : String
  pub masked_card : String
  pub sender_cell_phone : String
  pub sender_account : String
  pub currency : String
  pub fee : String
  pub reversal_amount : String
  pub settlement_amount : String
  pub actual_amount : String
  pub response_description : String
  pub sender_email : String
  pub order_status : String
  pub response_status : String
  pub order_time : String
  pub actual_currency : String
  pub order_id : String
  pub tran_type : String
  pub eci : String
  pub settlement_date : String
  pub payment_system : String
  pub approval_code : String
  pub merchant_id : ℤ
  pub settlement_currency : String
  pub payment_id : ℤ
  pub card_bin : ℤ
  pub response_code : String
  pub card_type : String
  pub amount : String
  pub signature : String
  pub product_id : String
  pub merchant_data : String
  pub rectoken : String
  pub rectoken_lifetime : String
  pub verification_status : String
  pub parent_order_id : String
  pub fee_oplata : String
  pub additional_info : String
  pub error_code : ℤ
  pub error_message : String

abbrev pub no_status_answer : StatusResponse
no_status_answer = record {
  rrn = "";
  masked_card = "";
  sender_cell_phone = "";
  sender_account = "";
  currency = "";
  fee = "";
  reversal_amount = "";
  settlement_amount = "";
  actual_amount = "";
  response_description = "";
  sender_email = "";
  order_status = "";
  response_status = "";
  order_time = "";
  actual_currency = "";
  order_id = "";
  tran_type = "";
  eci = "";
  settlement_date = "";
  payment_system = "";
  approval_code = "";
  merchant_id = pos 0;
  settlement_currency = "";
  payment_id = pos 0;
  card_bin = pos 0;
  response_code = "";
  card_type = "";
  amount = "";
  signature = "";
  product_id = "";
  merchant_data = "";
  rectoken = "";
  rectoken_lifetime = "";
  verification_status = "";
  parent_order_id = "";
  fee_oplata = "";
  additional_info = "";
  error_code = pos 0;
  error_message = "";
}

-- `Step2Response`
pub record Step2Response : Type 0 where
  pub response_status : String
  pub order_id : String
  pub order_status : String
  pub response_code : String
  pub rrn : String
  pub approval_code : String
  pub masked_card : String
  pub settlement_date : String
  pub settlement_amount : String
  pub settlement_currency : String
  pub payment_id : Option ℤ
  pub error_message : String
  pub error_code : ℤ
  pub request_id : String
  pub rectoken : String

abbrev pub no_step2_answer : Step2Response
no_step2_answer = record {
  response_status = "";
  order_id = "";
  order_status = "";
  response_code = "";
  rrn = "";
  approval_code = "";
  masked_card = "";
  settlement_date = "";
  settlement_amount = "";
  settlement_currency = "";
  payment_id = none;
  error_message = "";
  error_code = pos 0;
  request_id = "";
  rectoken = "";
}
