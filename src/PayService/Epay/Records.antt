-- ===== src/PayService/Epay/Records.antt =====
-- internal/application/pay/epay.go: the input of an authorization, and the literal of `buildEpayRecord`.
use Prim.Native.String.{◌++◌ as str_append}
use chaospay.Prelude.{ℕ, String, Bool, true, false, not, ◌&&◌, ◌||◌, str_eq, if◌then◌else◌}
use chaospay.Prelude.Words.{ℤ, add64, to_uint, is_neg, is_nonpos}
use chaospay.Prelude.Decimal.{decimal}
use chaospay.Bank.{Bank}
use chaospay.Payment.{
  new, Kind, epay_card, epay_pay, epay_apple_pay, epay_google_pay, epay_bind, Record, zero_record,
  no_card, no_epay,
}
use chaospay.PayService.{reference_base, default_str}

-- `EpayAuthorizeInput`
pub record EpayAuthorizeInput : Type 0 where
  pub order_id : ℕ
  pub amount : ℤ
  pub currency : String
  pub invoice_id : String
  pub terminal_id : String
  pub account_id : String
  pub card_id : String
  pub payment_type : String
  pub description : String
  pub email : String
  pub phone : String
  pub postlink : String
  pub failure_postlink : String
  pub card_save : Bool
  pub client_id : String
  pub has_cryptogram : Bool
  pub requires_3ds : Bool

-- `bindOnly`
unfoldable pub is_bind_only : EpayAuthorizeInput → Bool
is_bind_only in_ = in_.card_save || str_eq in_.payment_type "cardVerification"

-- `in.Amount < 0 || (in.Amount == 0 && !bindOnly)`
unfoldable pub is_bad_amount : EpayAuthorizeInput → Bool
unfolding is_bind_only
is_bad_amount in_ = is_neg in_.amount || (is_nonpos in_.amount && not (is_bind_only in_))

unfoldable pub epay_kind : EpayAuthorizeInput → Kind
unfolding is_bind_only
epay_kind in_ =
    if not in_.has_cryptogram
    then epay_pay
    else if str_eq in_.payment_type "applePay"
    then epay_apple_pay
    else if str_eq in_.payment_type "googlePay"
    then epay_google_pay
    else if is_bind_only in_
    then epay_bind
    else epay_card

abbrev pub is_epay_bind : Kind → Bool
is_epay_bind epay_bind = true
is_epay_bind _ = false

unfoldable pub epay_card_id : EpayAuthorizeInput → ℕ → String
unfolding epay_kind
epay_card_id in_ id =
    if is_epay_bind (epay_kind in_) && str_eq in_.card_id ""
    then str_append "mock-card-" (decimal id)
    else in_.card_id

-- The literal of `buildEpayRecord`.
unfoldable pub epay_record : EpayAuthorizeInput → ℕ → Record
unfolding epay_kind epay_card_id default_str
epay_record in_ id = record zero_record {
  bank = Bank.epay;
  payment_id = id;
  reference = add64 reference_base id;
  order_id = in_.order_id;
  kind = epay_kind in_;
  amount = to_uint in_.amount;
  currency = default_str in_.currency "KZT";
  description = in_.description;
  user_email = in_.email;
  user_phone = in_.phone;
  epay = record no_epay {
    id = str_append "mock-epay-" (decimal id);
    invoice_id = in_.invoice_id;
    card_id = epay_card_id in_ id;
    account_id = in_.account_id;
    client_id = in_.client_id;
    terminal_id = in_.terminal_id;
    callback_url = in_.postlink;
    failure_callback_url = in_.failure_postlink;
    payment_type = in_.payment_type;
  };
  card = record no_card {
    pan = default_str "" "440043...2221";
    brand = "VISA";
    owner = "STANDARD CARDHOLDER";
  };
  status = new;
}
