-- ===== src/Flitt/Callback.antt =====
-- internal/infrastructure/pgclient/flitt.go: what the callbacks of Flitt carry, and their signature.
-- `format` stands for `Time.Format`, first its layout, `next_year` for `AddDate(1, 0, 0)`. An empty
-- `response_code` is left out by `json.Marshal`.
use chaospay.Prelude.{String, Bool, ◌∷◌, [], str_eq, if◌then◌else◌}
use chaospay.Prelude.Words.{ℤ, pos, to_int}
use chaospay.Prelude.Decimal.{decimal}
use chaospay.Prelude.Assoc.{Assoc}
use chaospay.Payment.{Time, Record}
use chaospay.PayService.{default_str}
use chaospay.Flitt.Signature.{Param, text_param, int_param, flitt_sign}

-- `CallbackPayload`
pub record CallbackPayload : Type 0 where
  pub rrn : String
  pub masked_card : String
  pub sender_cell_phone : String
  pub sender_account : String
  pub currency : String
  pub fee : String
  pub reversal_amount : String
  pub settlement_amount : String
  pub actual_amount : String
  pub response_description : String
  pub sender_email : String
  pub order_status : String
  pub response_status : String
  pub order_time : String
  pub actual_currency : String
  pub order_id : String
  pub tran_type : String
  pub eci : String
  pub settlement_date : String
  pub payment_system : String
  pub approval_code : String
  pub merchant_id : ℤ
  pub settlement_currency : String
  pub payment_id : ℤ
  pub card_bin : ℤ
  pub response_code : String
  pub card_type : String
  pub amount : String
  pub signature : String
  pub product_id : String
  pub merchant_data : String
  pub rectoken : String
  pub rectoken_lifetime : String
  pub verification_status : String
  pub parent_order_id : String
  pub fee_oplata : String
  pub additional_info : String

-- `buildFlittCallback`
unfoldable pub build_flitt_callback :
    (String → Time → String) → (Time → Time) → Record → Bool → CallbackPayload
unfolding default_str to_int
build_flitt_callback format next_year rec success = record {
  rrn = rec.flitt.rrn;
  masked_card = rec.card.pan;
  sender_cell_phone = rec.user_phone;
  sender_account = "";
  currency = default_str rec.currency "GEL";
  fee = "0";
  reversal_amount = "0";
  settlement_amount = decimal rec.amount;
  actual_amount = decimal rec.amount;
  response_description = "";
  sender_email = rec.user_email;
  order_status = if success then "approved" else "declined";
  response_status = if success then "success" else "failure";
  order_time = format "02.01.2006 15:04:05" rec.created_at;
  actual_currency = default_str rec.currency "GEL";
  order_id = decimal rec.order_id;
  tran_type = "purchase";
  eci = "5";
  settlement_date = format "2006-01-02" rec.created_at;
  payment_system = "card";
  approval_code = rec.flitt.approval_code;
  merchant_id = to_int rec.merchant_id;
  settlement_currency = default_str rec.currency "GEL";
  payment_id = rec.flitt.payment_id;
  card_bin = pos 0;
  response_code = "";
  card_type = default_str rec.card.brand "VISA";
  amount = decimal rec.amount;
  signature = "";
  product_id = "";
  merchant_data = rec.flitt.merchant_data;
  rectoken = rec.flitt.rectoken;
  rectoken_lifetime = format "02.01.2006 15:04:05" (next_year rec.created_at);
  verification_status = "";
  parent_order_id = "";
  fee_oplata = "0";
  additional_info = "";
}

-- The parameters of `signFlittCallback`.
abbrev signed_params : CallbackPayload → Assoc String Param
signed_params p =
    ("order_id", text_param p.order_id)
    ∷ ("payment_id", int_param p.payment_id)
    ∷ ("merchant_id", int_param p.merchant_id)
    ∷ ("amount", text_param p.amount)
    ∷ ("actual_amount", text_param p.actual_amount)
    ∷ ("currency", text_param p.currency)
    ∷ ("actual_currency", text_param p.actual_currency)
    ∷ ("order_status", text_param p.order_status)
    ∷ ("response_status", text_param p.response_status)
    ∷ ("approval_code", text_param p.approval_code)
    ∷ ("rrn", text_param p.rrn)
    ∷ ("masked_card", text_param p.masked_card)
    ∷ ("card_type", text_param p.card_type)
    ∷ ("sender_email", text_param p.sender_email)
    ∷ ("rectoken", text_param p.rectoken)
    ∷ ("verification_status", text_param p.verification_status)
    ∷ ("merchant_data", text_param p.merchant_data)
    ∷ []

-- `signFlittCallback`
unfoldable pub sign_flitt_callback : (String → String) → String → CallbackPayload → CallbackPayload
unfolding flitt_sign
sign_flitt_callback sha1 secret p =
    if str_eq secret ""
    then p
    else record p { signature = flitt_sign sha1 secret (signed_params p) }

-- The payload of `SendBindCallback`.
unfoldable pub bind_callback :
    (String → Time → String) → (Time → Time) → Record → Bool → CallbackPayload
unfolding build_flitt_callback
bind_callback format next_year rec success =
    record (build_flitt_callback format next_year rec success) {
      verification_status = if success then "verified" else "declined";
    }
