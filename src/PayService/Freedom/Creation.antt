-- ===== src/PayService/Freedom/Creation.antt =====
-- internal/application/pay/service.go and types.go: how the payments of Freedom Pay are created.
use Prim.Native.String.{◌++◌ as str_append}
use chaospay.Prelude.{ℕ, ◌%◌, String, ◌||◌, ◌==◌, str_eq, if◌then◌else◌}
use chaospay.Prelude.Words.{ℤ, add64}
use chaospay.Prelude.Decimal.{decimal, decimal_padded, hex_padded}
use chaospay.Payment.{new, card, hosted, bind, Record, zero_record, no_card}
use chaospay.Payment.Repo.{message, ok, err, Clock, next_payment_id, create}
use chaospay.PayService.{Exec, answer, reference_base, default_str}

-- `HoldInitInput`
pub record HoldInitInput : Type 0 where
  pub order_id : ℕ
  pub merchant_id : ℕ
  pub terminal_id : ℤ
  pub cabinet_id : ℤ
  pub user_id : ℕ
  pub amount : ℕ
  pub currency : String
  pub card_token : String
  pub description : String
  pub idempotency_key : String
  pub user_phone : String
  pub user_email : String

-- `HostedInput`
pub record HostedInput : Type 0 where
  pub order_id : ℕ
  pub merchant_id : ℕ
  pub terminal_id : ℤ
  pub cabinet_id : ℤ
  pub user_id : ℕ
  pub amount : ℕ
  pub currency : String
  pub description : String
  pub user_phone : String
  pub user_email : String
  pub redirect_url : String

-- `BindInput`
pub record BindInput : Type 0 where
  pub order_id : ℕ
  pub merchant_id : ℕ
  pub terminal_id : ℤ
  pub cabinet_id : ℤ
  pub user_id : ℕ
  pub post_link : String
  pub redirect_url : String

-- `defaultCardPAN`
abbrev pub default_card_pan : String
default_card_pan = "5483-18XX-XXXX-0293"

-- `hostedCardPAN`
unfoldable pub hosted_card_pan : ℕ → String
hosted_card_pan id = str_append "5483-18XX-XXXX-" (decimal_padded 4 (id % 10000))

-- `hostedCardToken`
unfoldable pub hosted_card_token : ℕ → String
hosted_card_token id = str_append "f0000000-0000-4000-8000-" (hex_padded 12 id)

-- `generateBindToken`
unfoldable pub generate_bind_token : ℕ → String
generate_bind_token id = str_append "mock-token-" (decimal id)

-- A new record under a fresh number: `NextPaymentID`, the literal, `Create`.
unfoldable pub create_fresh : Clock → (ℕ → Record) → Exec
create_fresh clock literal w =
    let (id, repo) = next_payment_id w.repo in
    let (stored, repo') = create (clock 0) (literal id) repo in
    (ok stored, record w { repo = repo' })

-- The literal of `HoldInit`.
unfoldable pub hold_init_record : HoldInitInput → ℕ → Record
unfolding default_str
hold_init_record in_ id = record zero_record {
  payment_id = id;
  reference = add64 reference_base id;
  order_id = in_.order_id;
  merchant_id = in_.merchant_id;
  terminal_id = in_.terminal_id;
  cabinet_id = in_.cabinet_id;
  user_id = in_.user_id;
  kind = card;
  amount = in_.amount;
  currency = default_str in_.currency "KZT";
  description = in_.description;
  idempotency_key = in_.idempotency_key;
  card = record {
    token = in_.card_token;
    pan = default_card_pan;
    owner = "TEST USER";
    brand = "VISA";
    exp = "12/26";
    month = "12";
    year = "26";
  };
  user_phone = in_.user_phone;
  user_email = in_.user_email;
  status = new;
}

-- `HoldInit`
unfoldable pub hold_init : Clock → HoldInitInput → Exec
unfolding create_fresh hold_init_record
hold_init clock in_ =
    if str_eq in_.card_token ""
    then answer (err (message "card token is required"))
    else if in_.amount == 0
    then answer (err (message "amount cannot be zero"))
    else if in_.user_id == 0
    then answer (err (message "user id is required"))
    else create_fresh clock (hold_init_record in_)

-- The literal of `CreateHosted`.
unfoldable pub hosted_record : HostedInput → ℕ → Record
unfolding default_str hosted_card_token hosted_card_pan
hosted_record in_ id = record zero_record {
  payment_id = id;
  reference = add64 reference_base id;
  order_id = in_.order_id;
  merchant_id = in_.merchant_id;
  terminal_id = in_.terminal_id;
  cabinet_id = in_.cabinet_id;
  user_id = in_.user_id;
  kind = hosted;
  amount = in_.amount;
  currency = default_str in_.currency "KZT";
  description = in_.description;
  hosted_redirect_url = in_.redirect_url;
  status = new;
  user_phone = in_.user_phone;
  user_email = in_.user_email;
  card = record {
    token = hosted_card_token id;
    pan = hosted_card_pan id;
    owner = "TEST USER";
    brand = "VISA";
    exp = "12/26";
    month = "12";
    year = "26";
  };
}

-- `CreateHosted`
unfoldable pub create_hosted : Clock → HostedInput → Exec
unfolding create_fresh hosted_record
create_hosted clock in_ =
    if in_.order_id == 0 || in_.amount == 0
    then answer (err (message "order_id and amount required"))
    else create_fresh clock (hosted_record in_)

-- The literal of `CreateBind`, with the token that is set after it.
unfoldable pub bind_record : BindInput → ℕ → Record
unfolding generate_bind_token
bind_record in_ id = record zero_record {
  payment_id = id;
  reference = add64 reference_base id;
  order_id = in_.order_id;
  merchant_id = in_.merchant_id;
  terminal_id = in_.terminal_id;
  cabinet_id = in_.cabinet_id;
  user_id = in_.user_id;
  kind = bind;
  status = new;
  bind_redirect_url = in_.redirect_url;
  card = record no_card {
    token = generate_bind_token id;
    pan = default_card_pan;
    month = "12";
    year = "26";
    owner = "TEST USER";
    brand = "VISA";
  };
  description = in_.post_link;
}

-- `CreateBind`
unfoldable pub create_bind : Clock → BindInput → Exec
unfolding create_fresh bind_record
create_bind clock in_ =
    if in_.user_id == 0
    then answer (err (message "user id is required"))
    else create_fresh clock (bind_record in_)
