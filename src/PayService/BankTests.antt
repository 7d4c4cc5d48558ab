-- ===== src/PayService/BankTests.antt =====
-- The theorems of the payment service at payments of Halyk Epay and Flitt.
use chaospay.Prelude.{◌≡◌, refl, true, false, not, ◌&&◌, ◌⊎◌, ltb}
use chaospay.Prelude.Words.{pos}
use chaospay.Prelude.Assoc.{nat_eq}
use chaospay.Bank.{Bank, bank_eq}
use chaospay.Payment.{Time, authorized, captured, Record, no_epay, epay_hidden, is_zero_time}
use chaospay.Payment.Repo.{err, invalid_state, next_payment_id}
use chaospay.PayService.Epay.{epay_late_operation, epay_refund, epay_reveal}
use chaospay.PayService.Answers.{SameRecords}
use chaospay.PayService.Answers.Refunds.{Answers}
use chaospay.Flitt.{insufficient_funds, declined_3ds}
use chaospay.PayService.Flitt.{apply_flitt_outcome, flitt_complete_3ds, flitt_reverse}
use chaospay.PayService.Answers.Reversals.{
  Refunded, Reversal, epay_refund-Refunded, flitt_reverse-Reversal,
}
use chaospay.PayService.Answers.Cards.{CardResult, card_outcomes, declined_after_3ds}
use chaospay.PayService.Answers.Hidden.{reveal_branches, late_operation}
use chaospay.PayService.Samples.{
  clock, world_of, found, fresh, epay_payment, epay_input, good_amount, flitt_payment, paid_by_epay,
  held_by_flitt,
}

late_operation_example :
    (rec : Record) × Answers
      (next_payment_id fresh.repo).0
      rec
      (epay_late_operation clock epay_input true 50 fresh)
    × (rec.status ≡ captured)
    × (rec.captured_amount ≡ 700)
    × ((now : Time) → epay_hidden now rec ≡ (not (is_zero_time 50) && ltb now 50))
late_operation_example = late_operation clock epay_input true 50 fresh good_amount

reveal_branches_example :
    ((Bank.epay ≡ Bank.epay)
      × Answers 7
          (record epay_payment { epay = record no_epay { visible_at = 0 } })
          (epay_reveal clock 7 (world_of epay_payment))
      × ((now : Time)
          → epay_hidden now (record epay_payment { epay = record no_epay { visible_at = 0 } })
            ≡ false))
    ⊎ ((bank_eq Bank.epay Bank.epay ≡ false)
        × ((epay_reveal clock 7 (world_of epay_payment)).0 ≡ err invalid_state)
        × SameRecords (world_of epay_payment) (epay_reveal clock 7 (world_of epay_payment)).1)
reveal_branches_example =
    reveal_branches clock 7 (world_of epay_payment) epay_payment (found epay_payment)

card_outcomes_example :
    CardResult insufficient_funds 7 flitt_payment
      (world_of flitt_payment)
      (apply_flitt_outcome clock insufficient_funds flitt_payment (world_of flitt_payment))
card_outcomes_example =
    card_outcomes clock insufficient_funds flitt_payment (world_of flitt_payment)
      (found flitt_payment) refl

declined_after_3ds_example :
    (rec' : Record) × Answers 7 rec' (
      flitt_complete_3ds clock 7
        (apply_flitt_outcome clock declined_3ds flitt_payment (world_of flitt_payment)).1)
    × (rec'.status ≡ authorized)
declined_after_3ds_example =
    declined_after_3ds clock clock flitt_payment (world_of flitt_payment) (found flitt_payment) refl
      refl

epay_refund-Refunded_example :
    Refunded 100 7 paid_by_epay (epay_refund clock 7 (pos 100) (world_of paid_by_epay))
epay_refund-Refunded_example =
    epay_refund-Refunded clock 7 (pos 100) (world_of paid_by_epay) paid_by_epay (found paid_by_epay)
      refl refl

flitt_reverse-Reversal_example :
    Reversal authorized 0 7 held_by_flitt
      (world_of held_by_flitt)
      (flitt_reverse clock 7 0 (world_of held_by_flitt))
flitt_reverse-Reversal_example =
    flitt_reverse-Reversal clock 7 0 (world_of held_by_flitt) held_by_flitt (found held_by_flitt)
      refl
