-- ===== src/PayService/Tests.antt =====
-- The theorems of the payment service at payments of Freedom Pay.
use chaospay.Prelude.{◌≡◌, ◌≢◌, refl, ◌⊎◌, some, [], ◌∷◌, arith, leb, if◌then◌else◌}
use chaospay.Prelude.Words.{add64}
use chaospay.Prelude.Assoc.{nat_eq}
use chaospay.Payment.{
  new, authorized, captured, cancelled, refunded, partial_refunded, Record, refund_success,
  refund_error,
}
use chaospay.Payment.Diagram.{cancelled_final}
use chaospay.Payment.Repo.{ok, err, invalid_state, next_payment_id, unix_epoch}
use chaospay.PayService.Freedom
use chaospay.PayService.Freedom.{
  HoldInitInput, hold_init, create_fresh, capture_commit, revoke, revoke_with_outcome, refund_delta,
}
use chaospay.PayService.Evolution.{find, IsSound, Evolves}
use chaospay.PayService.Machine.{
  none_yet, step_on, hold_call, call, run, start, start-IsSound, Steps-IsGood, final_for_ever,
}
use chaospay.PayService.Answers.Outcomes.{hold_branches, cancel_branches}
use chaospay.PayService.Answers.Refunds.{Answers}
use chaospay.PayService.Answers.Sums.{capture_branches, revoke_rest, refund_op}
use chaospay.PayService.Answers.Ledger.{revoke_successful, revoke_unsuccessful, sum_of_refunds}
use chaospay.PayService.Answers.Races.{capture_after_cancel}
use chaospay.PayService.Answers.Silence.{freedom_webhooks_never_start, by_hold}
use chaospay.PayService.Samples.{
  clock, cfg, payment_at, found, sound, hold_input, created, room, created-Steps, dead, dead_room,
  held, paid, creates, fresh,
}

Steps-IsGood_example : IsSound created × Evolves (start unix_epoch) created
Steps-IsGood_example = Steps-IsGood (start-IsSound unix_epoch) created-Steps

final_for_ever_example :
    (now : Record) × (find 7 (run cfg clock (hold_call 7) dead) ≡ some now)
    × (now.status ≡ cancelled)
final_for_ever_example =
    final_for_ever {cfg = cfg} 7 (payment_at cancelled) (sound cancelled)
      (found (payment_at cancelled)) cancelled_final
      (step_on none_yet dead_room (call clock (hold_call 7) refl))

hold_branches_example :
    (rec' : Record) × ((Freedom.hold cfg clock 7 fresh).0 ≡ ok rec')
    × (find 7 (Freedom.hold cfg clock 7 fresh).1 ≡ some rec')
    × (rec'.status ≡ authorized)
hold_branches_example = hold_branches cfg clock 7 fresh (payment_at new) (found (payment_at new))

capture_branches_example :
    ((authorized ≡ authorized)
      × (rec' : Record) × Answers 7 rec' (Freedom.capture cfg clock 7 200 held)
      × (rec'.status ≡ captured)
      × (rec'.captured_amount ≡ 200))
    ⊎ ((authorized ≢ authorized)
        × (Freedom.capture cfg clock 7 200 held ≡ (err invalid_state, held)))
capture_branches_example =
    capture_branches cfg clock 7 200 held (payment_at authorized) (found (payment_at authorized))

cancel_branches_example :
    ((authorized ≡ authorized)
      × (rec' : Record) × ((Freedom.cancel cfg clock 7 held).0 ≡ ok rec')
      × (find 7 (Freedom.cancel cfg clock 7 held).1 ≡ some rec')
      × (rec'.status ≡ cancelled))
    ⊎ ((authorized ≢ authorized) × (Freedom.cancel cfg clock 7 held ≡ (err invalid_state, held)))
cancel_branches_example =
    cancel_branches cfg clock 7 held (payment_at authorized) (found (payment_at authorized))

capture_after_cancel_example :
    (gone : Record) × ((Freedom.cancel cfg clock 7 held).0 ≡ ok gone)
    × (gone.status ≡ cancelled)
    × (rec' : Record) × Answers 7 rec'
        (capture_commit cfg clock 7 0 (payment_at authorized) (Freedom.cancel cfg clock 7 held).1)
    × (rec'.status ≡ captured)
capture_after_cancel_example =
    capture_after_cancel cfg clock clock 7 0 held (payment_at authorized)
      (found (payment_at authorized)) refl

revoke_rest_example :
    (rec' : Record) × Answers 7 rec' (Freedom.revoke cfg clock 7 0 paid)
    × (rec'.status ≡ refunded)
    × (rec'.refunded_amount ≡ 300)
    × (rec'.captured_amount ≡ 300)
revoke_rest_example =
    revoke_rest cfg clock 7 paid (payment_at captured) (found (payment_at captured)) refl
      (omega arith) (omega arith)

revoke_successful_example :
    (rec' : Record) × Answers 7 rec' (revoke cfg clock 7 100 paid)
    × (rec'.refunded_amount ≡ add64 0 (refund_delta 100 (payment_at captured)))
    × (rec'.status ≡ (if leb 300 rec'.refunded_amount then refunded else partial_refunded))
    × (sum_of_refunds rec'.refunds
        ≡ add64
            (sum_of_refunds (payment_at captured).refunds)
            (refund_delta 100 (payment_at captured)))
revoke_successful_example =
    revoke_successful cfg clock 7 100 paid (payment_at captured) (found (payment_at captured)) refl
      (omega arith)

revoke_unsuccessful_example :
    Answers 7
      (record (payment_at captured) {
        refunds =
            refund_op clock
              (next_payment_id paid.repo).0
              (refund_delta 100 (payment_at captured))
              refund_error
            ∷ [];
      })
      (revoke_with_outcome cfg clock 7 100 refund_error paid)
revoke_unsuccessful_example =
    revoke_unsuccessful cfg clock 7 100 refund_error paid (payment_at captured)
      (found (payment_at captured)) refl refl

freedom_webhooks_never_start_example :
    ((Freedom.hold cfg clock creates.0.payment_id created).1.spawned ≡ created.spawned)
    × ((Freedom.capture cfg clock creates.0.payment_id 100 created).1.spawned ≡ created.spawned)
    × ((Freedom.cancel cfg clock creates.0.payment_id created).1.spawned ≡ created.spawned)
    × ((revoke_with_outcome cfg clock creates.0.payment_id 100 refund_success created).1.spawned
        ≡ created.spawned)
unfolding run
freedom_webhooks_never_start_example =
    freedom_webhooks_never_start {cfg = cfg} clock clock (by_hold hold_input) (start unix_epoch)
      created creates.0 100 refund_success (start-IsSound unix_epoch) room creates.1 none_yet
