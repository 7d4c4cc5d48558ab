-- ===== src/FreedomPay/Answers.antt =====
-- What the answers of internal/ports/api/pay/handlers.go say.
use Prim.Native.String.{◌++◌ as str_append}
use chaospay.Prelude.{
  ℕ, String, ◌≡◌, refl, ◌∙◌, ap, Bool, true, false, not, ◌&&◌, Option, none, some, ◌==◌, ltb,
  str_eq, inl, inr, Bool-cases, if◌then◌else◌,
}
use chaospay.Prelude.Decimal.{decimal}
use chaospay.Payment.{Time, Record}
use chaospay.Scenario.{Scenario}
use chaospay.FreedomPay.{Value, OrdMap, text, get}
use chaospay.FreedomPay.Signature.{get-set}
use chaospay.FreedomPay.Requests.{set_if}
use chaospay.FreedomPay.Handlers.{
  hide_refunds, without_refunds, set_refund_payments, pay_to_freedom_status, ok_fields,
  is_none_listed,
}
use chaospay.FreedomPay.Shown.{after_rule, keeps_fields, sent_fields, shown_amount, shown_status}
use chaospay.FreedomPay.Statuses.{payment_fields, detail_fields, status_fields, status_of_found}

get-set_if :
    (other : String) (b : Bool) (key : String) (v : Value) (m : OrdMap)
    → get other (set_if b key v m) ≡ (if str_eq key other && b then some v else get other m)
unfolding set_if
get-set_if other true key v m = get-set key other v m ∙ same (str_eq key other)
  where
    same :
        (t : Bool)
        → (if t then some v else get other m) ≡ (if t && true then some v else get other m)
    same true = refl
    same false = refl
get-set_if other false key v m = same (str_eq key other)
  where
    same : (t : Bool) → get other m ≡ (if t && false then some v else get other m)
    same true = refl
    same false = refl

get-ok_fields :
    (other : String)
    → get other ok_fields ≡ (if str_eq "pg_status" other then some (text "ok") else none)
unfolding get
get-ok_fields other = refl

-- What a status answer says of a payment whose refunds are shown or hidden.
module _ (format : Time → String) (rec : Record) (m : OrdMap) where
  detail_keeps :
      (get "pg_payment_status" (detail_fields format rec m) ≡ get "pg_payment_status" m)
      × (get "pg_amount" (detail_fields format rec m) ≡ get "pg_amount" m)
      × (get "pg_clearing_amount" (detail_fields format rec m) ≡ get "pg_clearing_amount" m)
  unfolding detail_fields set_refund_payments
  detail_keeps =
      (simp (get-set, get-set_if), simp (get-set, get-set_if), simp (get-set, get-set_if))

  detail_revoked : get "pg_revoked_amount" (detail_fields format rec m) ≡ (
      if ltb 0 rec.refunded_amount
      then some (text (str_append "-" (decimal rec.refunded_amount)))
      else get "pg_revoked_amount" m)
  unfolding detail_fields set_refund_payments
  detail_revoked = simp (get-set, get-set_if)

  detail_listed :
      is_none_listed rec.refunds ≡ true
      → get "pg_refund_payments" (detail_fields format rec m) ≡ get "pg_refund_payments" m
  unfolding detail_fields set_refund_payments
  detail_listed e = simp (get-set, get-set_if, e)

module _ (format : Time → String) (rec : Record) where
  payment_says :
      (get "pg_payment_status" (payment_fields format rec)
        ≡ some (text (pay_to_freedom_status rec.status)))
      × (get "pg_amount" (payment_fields format rec) ≡ some (text (decimal rec.amount)))
      × (get "pg_clearing_amount" (payment_fields format rec)
          ≡ some (text (decimal rec.captured_amount)))
  unfolding payment_fields
  payment_says =
      (simp (get-set, get-set_if), simp (get-set, get-set_if), simp (get-set, get-set_if))

  payment_lacks :
      (get "pg_revoked_amount" (payment_fields format rec) ≡ none)
      × (get "pg_refund_payments" (payment_fields format rec) ≡ none)
  unfolding payment_fields
  payment_lacks =
      (simp (get-set, get-set_if, get-ok_fields), simp (get-set, get-set_if, get-ok_fields))

-- What the handler says of the status and the sums, before the rule changes its fields.
handler_reports :
    (format : Time → String) (sc : Option Scenario) (payment_id : ℕ) (rec : Record)
    → (payment_id == 0) ≡ false
    → (get "pg_payment_status" (status_of_found format sc payment_id rec)
        ≡ some (text (pay_to_freedom_status rec.status)))
      × (get "pg_amount" (status_of_found format sc payment_id rec)
          ≡ some (text (decimal rec.amount)))
      × (get "pg_clearing_amount" (status_of_found format sc payment_id rec)
          ≡ some (text (decimal rec.captured_amount)))
      × (get "pg_revoked_amount" (status_of_found format sc payment_id rec) ≡ (
          if not (hide_refunds sc) && ltb 0 rec.refunded_amount
          then some (text (str_append "-" (decimal rec.refunded_amount)))
          else none))
unfolding status_of_found status_fields without_refunds
handler_reports format sc payment_id rec nonzero = elim (Bool-cases (hide_refunds sc)) [
  | inl hidden ↦
      let bare = without_refunds rec in
      let k = detail_keeps format bare (payment_fields format rec) in
      let s = payment_says format rec in
      rw (nonzero, hidden)
        (
          k.0 ∙ s.0,
          k.1 ∙ s.1,
          k.2 ∙ s.2,
          detail_revoked format bare (payment_fields format rec) ∙ (payment_lacks format rec).0,
        )
  | inr shown ↦
      let k = detail_keeps format rec (payment_fields format rec) in
      let s = payment_says format rec in
      rw (nonzero, shown)
        (
          k.0 ∙ s.0,
          k.1 ∙ s.1,
          k.2 ∙ s.2,
          detail_revoked format rec (payment_fields format rec)
              ∙ ap
                  (λ o.
                    if ltb 0 rec.refunded_amount
                    then some (text (str_append "-" (decimal rec.refunded_amount)))
                    else o)
                  (payment_lacks format rec).0,
        )
]

-- The fields of the handler's answer to a status request by number, as they are sent to be signed:
-- without a rule, or as a rule changes them that neither takes a field out (`missing_field`) nor adds any
-- (`extra_garbage`). The status is the
-- one that the rule forces, if it forces one, and the payment's in Freedom's words otherwise; the amount
-- and the captured sum are the text that the rule puts in the place of both (`wrong_amount`,
-- `partial_amount`), if it does, and the payment's otherwise. The refunded sum is named, with a minus,
-- just if there is one and the rule does not hide refunds.
pub status_reports :
    (format : Time → String) (sc : Option Scenario) (payment_id : ℕ) (rec : Record)
    → (payment_id == 0) ≡ false
    → keeps_fields sc ≡ true
    → let sent = after_rule sc (status_of_found format sc payment_id rec) in
      (get "pg_payment_status" sent
        ≡ some (text (shown_status sc (pay_to_freedom_status rec.status))))
      × (get "pg_amount" sent ≡ some (text (shown_amount sc (decimal rec.amount))))
      × (get "pg_clearing_amount" sent
          ≡ some (text (shown_amount sc (decimal rec.captured_amount))))
      × (get "pg_revoked_amount" sent ≡ (
          if not (hide_refunds sc) && ltb 0 rec.refunded_amount
          then some (text (str_append "-" (decimal rec.refunded_amount)))
          else none))
status_reports format sc payment_id rec nonzero keeps =
    let said = handler_reports format sc payment_id rec nonzero in
    let sent =
      sent_fields sc (pay_to_freedom_status rec.status) (decimal rec.amount)
        (decimal rec.captured_amount) (status_of_found format sc payment_id rec) keeps said.0 said.1
        said.2 in
    (sent.0, sent.1, sent.2, sent.3 ∙ said.3)

-- With the scenario of invisible refunds a status answer, asked for by number or by order, names no
-- refund: neither the refunded sum nor the list of refunds, while the payment counts as before.
pub hidden_refunds :
    (format : Time → String) (sc : Option Scenario) (payment_id : ℕ) (rec : Record)
    → hide_refunds sc ≡ true
    → (get "pg_revoked_amount" (status_of_found format sc payment_id rec) ≡ none)
      × (get "pg_refund_payments" (status_of_found format sc payment_id rec) ≡ none)
      × (get "pg_clearing_amount" (status_of_found format sc payment_id rec)
          ≡ some (text (decimal rec.captured_amount)))
unfolding status_of_found status_fields without_refunds
hidden_refunds format sc payment_id rec hidden =
    let bare = without_refunds rec in
    let lacks = payment_lacks format rec in
    let m = payment_fields format rec in
    rw (hidden, no_last (payment_id == 0))
      (
        detail_revoked format bare m ∙ lacks.0,
        detail_listed format bare m refl ∙ lacks.1,
        (detail_keeps format bare m).2 ∙ (payment_says format rec).2,
      )
  where
    no_last : (b : Bool) → (b && not true) ≡ false
    no_last true = refl
    no_last false = refl
