-- ===== src/FreedomPay/Accepted.antt =====
-- The webhooks of internal/infrastructure/pgclient and the check of internal/infrastructure/freedompay.
use chaospay.Prelude.{not, ◌==◌, arith, ℕ, String, ◌≡◌, refl, Bool, true, false, none, some, str_eq}
use chaospay.Payment.{Record}
use chaospay.FreedomPay.{Value, OrdMap, text, set, get, verify}
use chaospay.FreedomPay.Requests.{set_if}
use chaospay.FreedomPay.Signature.{get-set, verify-signed}
use chaospay.FreedomPay.Webhooks.{
  is_unset_int, order_form, pay_form_over, build_pay_form, sign_pay_form, card_fields,
  card_webhook_fields,
}

abbrev Unsigned : OrdMap → Type 0
Unsigned m = get "pg_sig" m ≡ none

card_fields-Unsigned : (rec : Record) → Unsigned (card_fields rec)
unfolding card_fields get set set_if
card_fields-Unsigned rec = ground arith

order_form-Unsigned :
    (float_text : ℕ → String) (now : String) (rec : Record) (success : Bool)
    → Unsigned (order_form float_text now rec success)
unfolding order_form get
order_form-Unsigned float_text now rec success = refl

set-Unsigned :
    (key : String) (v : Value) (m : OrdMap)
    → str_eq key "pg_sig" ≡ false
    → Unsigned m
    → Unsigned (set key v m)
set-Unsigned key v m other h = rw (get-set key "pg_sig" v m, other) h

set_if-Unsigned :
    (test : Bool) (key : String) (v : Value) (m : OrdMap)
    → str_eq key "pg_sig" ≡ false
    → Unsigned m
    → Unsigned (set_if test key v m)
unfolding set_if
set_if-Unsigned true key v m other h = set-Unsigned key v m other h
set_if-Unsigned false key v m other h = h

pay_form-Unsigned :
    (rec : Record) (captured : Bool) (m : OrdMap)
    → Unsigned m
    → Unsigned (pay_form_over rec captured m)
unfolding pay_form_over set_if
pay_form-Unsigned rec captured m h =
    set_if-Unsigned (not (is_unset_int rec.cabinet_id)) "cabinet_id" _ _ refl (
      set-Unsigned "terminal_id" _ _ refl (
        set-Unsigned "pg_payment_method" _ _ refl (
          set-Unsigned "pg_card_brand" _ _ refl (
            set-Unsigned "pg_card_owner" _ _ refl (
              set-Unsigned "pg_card_exp" _ _ refl (
                set_if-Unsigned (not (str_eq rec.card.token "")) "pg_card_token" _ _ refl (
                  set-Unsigned "pg_card_pan" _ _ refl (
                    set_if-Unsigned (not (rec.reference == 0)) "pg_reference" _ _ refl (
                      set-Unsigned "pg_captured" _ _ refl (
                        set-Unsigned "pg_testing_mode" _ _ refl (
                          set_if-Unsigned (not (str_eq rec.user_email "")) "pg_user_contact_email" _
                            _ refl
                            (set_if-Unsigned (not (str_eq rec.user_phone "")) "pg_user_phone" _ _
                              refl (h)))))))))))))

-- The fields carry a signature that the check of `freedompay` accepts under that secret.
abbrev pub IsAccepted : (String → String) → String → String → OrdMap → Type 0
IsAccepted md5 script secret fields =
    (signature : String) × (get "pg_sig" fields ≡ some (text signature))
    × (verify md5 script fields secret signature ≡ (signature, true))

-- Every webhook of Freedom Pay, for a payment and for a card, carries a signature that the check accepts
-- under the secret of the payment's cabinet, whatever the payment and the salt are.
pub webhooks-IsAccepted :
    (md5 : String → String) (secrets : ℕ → String) (salt : String) (float_text : ℕ → String)
    (now : String) (rec : Record) (success captured : Bool)
    → IsAccepted md5 "freedompay" (secrets rec.merchant_id) (
        sign_pay_form md5 salt
          (build_pay_form float_text now rec success captured)
          (secrets rec.merchant_id))
      × IsAccepted md5 "card" (secrets rec.merchant_id) (card_webhook_fields md5 secrets salt rec)
unfolding sign_pay_form build_pay_form card_webhook_fields
webhooks-IsAccepted md5 secrets salt float_text now rec success captured = (
  verify-signed md5 salt "freedompay" (secrets rec.merchant_id)
      (build_pay_form float_text now rec success captured)
      (pay_form-Unsigned rec captured (order_form float_text now rec success)
        (order_form-Unsigned float_text now rec success)),
  verify-signed md5 salt "card" (secrets rec.merchant_id) (card_fields rec)
      (card_fields-Unsigned rec),
)
