-- ===== src/PayService/Answers/Refunds.antt =====
-- Capture and RevokeWithOutcome of internal/application/pay/service.go: what an accepted call answers and
-- stores.
use chaospay.Prelude.{
  ℕ, String, ◌≡◌, refl, sym, ◌∙◌, ap, Bool, true, false, some, ◌==◌, if◌then◌else◌,
}
use mathlib.Core.Path.{subst}
use chaospay.Prelude.Assoc.{lookup, nat_eq}
use chaospay.Payment.{Status, captured, RefundStatus, Record}
use chaospay.Payment.Repo.{PayRepo, Reply, ok, Clock, move, update, plain, next_payment_id, entered}
use chaospay.PayService.{World, ServiceConfig, continue, in_repo, after, maybe_webhook}
use chaospay.PayService.Freedom.{
  capture_commit, set_captured, revoke_fn, refund_delta, is_refundable, revoke_with_outcome,
}
use chaospay.PayService.Evolution.{find}
use chaospay.PayService.Evolution.Freedom.{repo-maybe_webhook}
use chaospay.PayService.Answers.{bind_found, accepted}

-- The call answers this record, and the store holds it.
pub record Answers (id : ℕ) (rec : Record) (x : Reply × World) : Type 0 where
  pub reply : x.0 ≡ ok rec
  pub stored : find id x.1 ≡ some rec

-- An accepted update, followed by a webhook.
update_then_webhook :
    (cfg : ServiceConfig) (success taken : Bool) (id : ℕ) (rec : Record) (x : Reply × World)
    → x.0 ≡ ok rec
    → find id x.1 ≡ some rec
    → Answers id rec (continue x (λ r. after r (maybe_webhook cfg r success taken)))
update_then_webhook cfg success taken id rec x e f =
    subst
      (λ y. Answers id rec (continue (y, x.1) (λ r. after r (maybe_webhook cfg r success taken))))
      (sym e)
      (record {
        reply = refl;
        stored =
            ap (λ (r : PayRepo). lookup id r.by_id) (repo-maybe_webhook cfg rec success taken x.1)
            ∙ f;
      })

module _ (cfg : ServiceConfig) (clock : Clock) (id : ℕ) (w : World) {rec : Record}
    (h : find id w ≡ some rec) where
  pub commit_found :
      (clearing : ℕ) (seen : Record)
      → Answers id
          (entered
            (clock 0)
            rec.status
            captured
            "capture"
            (record rec { captured_amount = if clearing == 0 then seen.amount else clearing }))
          (capture_commit cfg clock id clearing seen w)
  unfolding capture_commit
  commit_found clearing seen =
      let fn = plain (set_captured (if clearing == 0 then seen.amount else clearing) "capture") in
      let a = accepted clock 0 id fn w h refl in
      update_then_webhook cfg true true id
        (entered (clock 0) rec.status captured "capture"
          (record rec { captured_amount = if clearing == 0 then seen.amount else clearing }))
        (in_repo (update (clock 0) id fn) w) a.0 a.1

  pub revoke_step :
      (amount : ℕ) (outcome : RefundStatus) {rec1 : Record} {to : Status} {reason : String}
      → is_refundable rec.status ≡ true
      → revoke_fn clock (next_payment_id w.repo).0 (refund_delta amount rec) outcome rec
        ≡ (rec1, move to reason)
      → Answers id
          (entered (clock 1) rec.status to reason rec1)
          (revoke_with_outcome cfg clock id amount outcome w)
  unfolding revoke_with_outcome next_payment_id
  revoke_step amount outcome {rec1} {to} {reason} ready e =
      let refund_id = (next_payment_id w.repo).0 in
      let w1 = record w { repo = (next_payment_id w.repo).1 } in
      let fn = plain (revoke_fn clock refund_id (refund_delta amount rec) outcome) in
      let a = accepted clock 1 id fn w1 h (ap (λ y. (y.0, w.repo.ref_seed, y.1)) e) in
      subst (Answers id (entered (clock 1) rec.status to reason rec1))
        (sym (bind_found w id _ h ∙ rw ready refl))
        (update_then_webhook cfg false false id (entered (clock 1) rec.status to reason rec1)
          (in_repo (update (clock 1) id fn) w1) a.0 a.1)
