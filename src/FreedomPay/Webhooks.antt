-- ===== src/FreedomPay/Webhooks.antt =====
-- internal/infrastructure/pgclient/pay.go and card.go: the fields of Freedom Pay's webhooks. `float_text`
-- stands for `strconv.FormatFloat(float64(n), 'f', -1, 64)`, `now` for the printed instant; the salt is an
-- argument. A form is an ordered map: the signature sorts its keys.
use Prim.Native.String.{◌++◌ as str_append}
use chaospay.Prelude.{ℕ, String, Bool, not, ◌==◌, str_eq, if◌then◌else◌}
use chaospay.Prelude.Words.{ℤ, pos}
use chaospay.Prelude.Decimal.{decimal, itoa}
use chaospay.Payment.{Record}
use chaospay.PayService.{default_str}
use chaospay.FreedomPay.{OrdMap, text, end, set, signed_fields}
use chaospay.FreedomPay.Requests.{set_if}

abbrev bit_text : Bool → String
bit_text b = if b then "1" else "0"

abbrev pub is_unset_int : ℤ → Bool
is_unset_int n = elim n [ pos k ↦ k == 0 | ℤ.negsuc k ↦ Bool.false ]

-- The first half of `buildPayForm`, up to `pg_can_reject`.
unfoldable pub order_form : (ℕ → String) → String → Record → Bool → OrdMap
unfolding set default_str
order_form float_text now rec success =
    let f1 = set "pg_order_id" (text (decimal rec.order_id)) end in
    let f2 = set "pg_payment_id" (text (decimal rec.payment_id)) f1 in
    let f3 = set "pg_amount" (text (float_text rec.amount)) f2 in
    let f4 = set "pg_currency" (text (default_str rec.currency "KZT")) f3 in
    let f5 = set "pg_net_amount" (text (float_text rec.amount)) f4 in
    let f6 = set "pg_ps_amount" (text (float_text rec.amount)) f5 in
    let f7 = set "pg_ps_full_amount" (text (float_text rec.amount)) f6 in
    let f8 = set "pg_ps_currency" (text (default_str rec.currency "KZT")) f7 in
    let f9 =
      set "pg_description"
        (text (default_str rec.description (str_append "оплата заказа № " (decimal rec.order_id))))
        f8 in
    let f10 = set "pg_result" (text (bit_text success)) f9 in
    let f11 = set "pg_payment_date" (text now) f10 in set "pg_can_reject" (text "1") f11

-- The second half, upon the first.
unfoldable pub pay_form_over : Record → Bool → OrdMap → OrdMap
unfolding set set_if default_str itoa
pay_form_over rec captured base =
    let f12 = set_if (not (str_eq rec.user_phone "")) "pg_user_phone" (text rec.user_phone) base in
    let f13 =
      set_if (not (str_eq rec.user_email "")) "pg_user_contact_email" (text rec.user_email) f12 in
    let f14 = set "pg_testing_mode" (text "1") f13 in
    let f15 = set "pg_captured" (text (bit_text captured)) f14 in
    let f16 = set_if (not (rec.reference == 0)) "pg_reference" (text (decimal rec.reference)) f15 in
    let f17 = set "pg_card_pan" (text (default_str rec.card.pan "5483-18XX-XXXX-0293")) f16 in
    let f18 = set_if (not (str_eq rec.card.token "")) "pg_card_token" (text rec.card.token) f17 in
    let f19 = set "pg_card_exp" (text (default_str rec.card.exp "12/26")) f18 in
    let f20 = set "pg_card_owner" (text (default_str rec.card.owner "TEST USER")) f19 in
    let f21 = set "pg_card_brand" (text (default_str rec.card.brand "VISA")) f20 in
    let f22 = set "pg_payment_method" (text "bankcard") f21 in
    let f23 = set "terminal_id" (text (itoa rec.terminal_id)) f22 in
    set_if (not (is_unset_int rec.cabinet_id)) "cabinet_id" (text (itoa rec.cabinet_id)) f23

-- `buildPayForm`
unfoldable pub build_pay_form : (ℕ → String) → String → Record → Bool → Bool → OrdMap
unfolding order_form pay_form_over
build_pay_form float_text now rec success captured =
    pay_form_over rec captured (order_form float_text now rec success)

-- `signPayForm`
unfoldable pub sign_pay_form : (String → String) → String → OrdMap → String → OrdMap
unfolding signed_fields
sign_pay_form md5 salt form secret = signed_fields md5 salt "freedompay" form secret

-- The fields of the card client's `Send`, before the salt.
unfoldable pub card_fields : Record → OrdMap
unfolding set set_if default_str
card_fields rec =
    let f1 = set "pg_payment_id" (text (decimal rec.payment_id)) end in
    let f2 = set_if (not (rec.order_id == 0)) "pg_order_id" (text (decimal rec.order_id)) f1 in
    let f3 = set "pg_card_hash" (text rec.card.pan) f2 in
    let f4 = set "pg_card_id" (text "1") f3 in
    let f5 = set "pg_card_token" (text rec.card.token) f4 in
    let f6 = set "pg_user_id" (text (decimal rec.user_id)) f5 in
    let f7 = set "pg_status" (text "ok") f6 in
    let f8 = set "pg_card_month" (text (default_str rec.card.month "12")) f7 in
    let f9 = set "pg_card_year" (text (default_str rec.card.year "26")) f8 in
    let f10 = set "pg_bank" (text "FreedomBank") f9 in set "pg_country" (text "KZ") f10

-- What the card client sends.
unfoldable pub card_webhook_fields : (String → String) → (ℕ → String) → String → Record → OrdMap
unfolding card_fields signed_fields
card_webhook_fields md5 secrets salt rec =
    signed_fields md5 salt "card" (card_fields rec) (secrets rec.merchant_id)
