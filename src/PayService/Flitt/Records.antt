-- ===== src/PayService/Flitt/Records.antt =====
-- internal/application/pay/flitt.go: the inputs of the methods that create payments of Flitt, and the
-- literals of the records.
use Prim.Native.String.{◌++◌ as str_append}
use chaospay.Prelude.{ℕ, ◌%◌, String, Bool, if◌then◌else◌}
use chaospay.Prelude.Words.{ℤ, add64, to_int}
use chaospay.Prelude.Decimal.{decimal, decimal_padded}
use chaospay.Bank.{Bank}
use chaospay.Flitt.{CardOutcome}
use chaospay.Payment.{
  new, flitt_checkout, flitt_apple_pay, flitt_google_pay, flitt_recurring, flitt_bind, Record,
  zero_record, no_card, no_flitt,
}
use chaospay.PayService.{reference_base, default_str}

abbrev pub flitt_default_masked_card : String
flitt_default_masked_card = "444455XXXXXX1111"

-- `flittApprovalCode`
unfoldable pub flitt_approval_code : ℕ → String
flitt_approval_code id = decimal_padded 6 (id % 1000000)

-- `generateFlittRectoken`
unfoldable pub generate_flitt_rectoken : ℕ → String
generate_flitt_rectoken id = str_append "flitt-mock-rectoken-" (decimal id)

-- `FlittCheckoutInput`
pub record FlittCheckoutInput : Type 0 where
  pub order_id : ℕ
  pub merchant_id : ℕ
  pub terminal_id : ℤ
  pub amount : ℕ
  pub currency : String
  pub description : String
  pub email : String
  pub callback_url : String
  pub response_url : String
  pub merchant_data : String
  pub is_verify : Bool
  pub need_rectoken : Bool
  pub hosted_form_url : String

-- `FlittDirectInput`
pub record FlittDirectInput : Type 0 where
  pub order_id : ℕ
  pub merchant_id : ℕ
  pub terminal_id : ℤ
  pub amount : ℕ
  pub currency : String
  pub description : String
  pub container : String
  pub is_apple_pay : Bool
  pub is_google_pay : Bool
  pub callback_url : String
  pub outcome : CardOutcome

-- `FlittRecurringInput`
pub record FlittRecurringInput : Type 0 where
  pub order_id : ℕ
  pub merchant_id : ℕ
  pub terminal_id : ℤ
  pub amount : ℕ
  pub currency : String
  pub description : String
  pub rectoken : String
  pub callback_url : String
  pub outcome : CardOutcome

-- What the three literals share.
pub flitt_base : ℕ → String → Record
unfolding flitt_approval_code
flitt_base id rectoken = record zero_record {
  bank = Bank.flitt;
  payment_id = id;
  reference = add64 reference_base id;
  card = record no_card {
    token = rectoken;
    pan = flitt_default_masked_card;
    brand = "VISA";
    owner = "TEST USER";
  };
  flitt = record no_flitt {
    payment_id = to_int (add64 reference_base id);
    rectoken = rectoken;
    approval_code = flitt_approval_code id;
    rrn = decimal_padded 12 id;
  };
  status = new;
}

-- The literal of `FlittCheckout`, with the fields that are set after it.
unfoldable pub flitt_checkout_record : FlittCheckoutInput → ℕ → Record
unfolding flitt_base default_str generate_flitt_rectoken
flitt_checkout_record in_ id =
    let base = flitt_base id (generate_flitt_rectoken id) in
    record base {
      order_id = in_.order_id;
      merchant_id = in_.merchant_id;
      terminal_id = in_.terminal_id;
      kind = if in_.is_verify then flitt_bind else flitt_checkout;
      amount = in_.amount;
      currency = default_str in_.currency "GEL";
      description = in_.description;
      user_email = in_.email;
      flitt = record base.flitt {
        callback_url = in_.callback_url;
        response_url = in_.response_url;
        merchant_data = in_.merchant_data;
        is_verify = in_.is_verify;
        checkout_url =
            default_str in_.hosted_form_url (
              str_append "http://localhost:48532/panel?bank=flitt&tab=cards#payment-" (decimal id));
      };
      hosted_redirect_url = in_.hosted_form_url;
    }

-- The literal of `FlittDirect`.
unfoldable pub flitt_direct_record : FlittDirectInput → ℕ → Record
unfolding flitt_base default_str generate_flitt_rectoken
flitt_direct_record in_ id =
    let base = flitt_base id (generate_flitt_rectoken id) in
    record base {
      order_id = in_.order_id;
      merchant_id = in_.merchant_id;
      terminal_id = in_.terminal_id;
      kind = if in_.is_google_pay then flitt_google_pay else flitt_apple_pay;
      amount = in_.amount;
      currency = default_str in_.currency "GEL";
      description = in_.description;
      flitt = record base.flitt { callback_url = in_.callback_url };
    }

-- The literal of `FlittRecurring`.
unfoldable pub flitt_recurring_record : FlittRecurringInput → ℕ → Record
unfolding flitt_base default_str
flitt_recurring_record in_ id =
    let base = flitt_base id in_.rectoken in
    record base {
      order_id = in_.order_id;
      merchant_id = in_.merchant_id;
      terminal_id = in_.terminal_id;
      kind = flitt_recurring;
      amount = in_.amount;
      currency = default_str in_.currency "GEL";
      description = in_.description;
      flitt = record base.flitt { callback_url = in_.callback_url };
    }
