-- ===== src/FreedomPay/Incidents.antt =====
-- Incidents that the handlers of internal/ports/api/pay/handlers.go play: the hold that is answered with an
-- error (EX-1001), and the refund that is answered with success and does not happen.
use chaospay.Prelude.{
  ℕ, ◌≡◌, ◌∙◌, ap, true, false, Option, some, [], ◌∷◌, ◌++◌, ◌==◌, inl, inr, ◌⊎◌,
}
use mathlib.Core.Path.{subst}
use chaospay.Prelude.Decimal.{decimal}
use chaospay.Payment.{authorized, captured, Record}
use chaospay.Payment.Repo.{Reply, ok, ok_err, Clock, already_authorized, next_payment_id}
use chaospay.PayService.{World}
use chaospay.PayService.Freedom
use chaospay.PayService.Freedom.{
  is_refundable, is_refund_success, refund_delta, revoke_with_outcome,
}
use chaospay.PayService.Evolution.{find}
use chaospay.PayService.Answers.Outcomes.{HoldOutcome, hold_branches}
use chaospay.PayService.Answers.Sums.{refund_op}
use chaospay.PayService.Answers.Ledger.{revoke_unsuccessful}
use chaospay.Scenario.{Scenario}
use chaospay.FreedomPay.{OrdMap, text, set}
use chaospay.FreedomPay.Requests.{uint_from_req}
use chaospay.FreedomPay.Handlers.{
  HandlerConfig, answer_with, handle_hold, hold_reply, wrong_status_fields, ok_fields,
  refund_outcome,
}
use chaospay.FreedomPay.Operations.{handle_revoke}

already :
    (cfg : HandlerConfig) (clock : Clock) (id : ℕ) (w : World) (rec : Record)
    → find id w ≡ some rec
    → (rec.status ≡ authorized) ⊎ (rec.status ≡ captured)
    → Freedom.hold cfg.service clock id w ≡ (ok_err rec already_authorized, w)
already cfg clock id w rec h (inl e) =
    subst (λ s. HoldOutcome id s rec w (Freedom.hold cfg.service clock id w)) e
      (hold_branches cfg.service clock id w rec h)
already cfg clock id w rec h (inr e) =
    subst (λ s. HoldOutcome id s rec w (Freedom.hold cfg.service clock id w)) e
      (hold_branches cfg.service clock id w rec h)

-- EX-1001: a hold of a payment that is held or captured already is answered with error 120, and neither
-- the store nor the webhooks change.
pub held_already :
    (cfg : HandlerConfig) (clock : Clock) (req : OrdMap) (sc : Option Scenario) (w : World)
    (rec : Record)
    → (uint_from_req req "pg_payment_id" 0 == 0) ≡ false
    → find (uint_from_req req "pg_payment_id" 0) w ≡ some rec
    → (rec.status ≡ authorized) ⊎ (rec.status ≡ captured)
    → handle_hold cfg clock req sc w ≡ (inl wrong_status_fields, w)
unfolding handle_hold hold_reply
held_already cfg clock req sc w rec nonzero h held = rw nonzero (
    ap (hold_reply cfg.format)
      (already cfg clock (uint_from_req req "pg_payment_id" 0) w rec h held))

answered :
    (x : Reply × World) (f : Record → World → OrdMap × World) {rec : Record}
    → x.0 ≡ ok rec
    → answer_with x f ≡ (inl (f rec x.1).0, (f rec x.1).1)
answered x f e = ap (λ r. answer_with (r, x.1) f) e

-- A refund of a captured payment under a scenario that declines refunds, or keeps them in process, is
-- answered with success and the payment's number, but the payment keeps its status and its sums: only
-- its list of refunds gets an operation with that outcome.
pub declined_refund :
    (cfg : HandlerConfig) (clock : Clock) (req : OrdMap) (sc : Option Scenario) (w : World)
    (rec : Record)
    → (uint_from_req req "pg_payment_id" 0 == 0) ≡ false
    → find (uint_from_req req "pg_payment_id" 0) w ≡ some rec
    → is_refundable rec.status ≡ true
    → is_refund_success (refund_outcome sc) ≡ false
    → ((handle_revoke cfg clock req sc w).0
        ≡ inl (set "pg_revoke_payment_id" (text (decimal rec.payment_id)) ok_fields))
      × (find (uint_from_req req "pg_payment_id" 0) (handle_revoke cfg clock req sc w).1
          ≡ some (record rec {
            refunds =
                rec.refunds
                ++ refund_op clock
                    (next_payment_id w.repo).0
                    (refund_delta (uint_from_req req "pg_refund_amount" 0) rec)
                    (refund_outcome sc)
                  ∷ [];
          }))
unfolding handle_revoke
declined_refund cfg clock req sc w rec nonzero h ready bad =
    let id = uint_from_req req "pg_payment_id" 0 in
    let amount = uint_from_req req "pg_refund_amount" 0 in
    let a = revoke_unsuccessful cfg.service clock id amount (refund_outcome sc) w rec h ready bad in
    let e =
      answered (revoke_with_outcome cfg.service clock id amount (refund_outcome sc) w)
        (λ updated w'.
          (set "pg_revoke_payment_id" (text (decimal updated.payment_id)) ok_fields, w'))
        a.reply in
    rw nonzero (ap (λ x. x.0) e, ap (λ x. find id x.1) e ∙ a.stored)
