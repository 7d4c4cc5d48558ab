-- ===== src/PayService/Answers/Reversals.antt =====
-- The refunds of Halyk Epay and Flitt: EpayRefund of internal/application/pay/epay.go and FlittReverse of
-- internal/application/pay/flitt.go.
use chaospay.Prelude.{
  ℕ, String, ◌≡◌, refl, sym, ◌∙◌, ap, true, false, not, some, inl, inr, Bool-cases, leb,
  if◌then◌else◌,
}
use mathlib.Core.Path.{subst}
use chaospay.Prelude.Words.{ℤ, add64, sub64, to_uint, is_nonpos}
use chaospay.Bank.{Bank, bank_eq}
use chaospay.Payment.{
  Status, unset, new, hold_pending, authorized, captured, cancelled, refunded, partial_refunded,
  failed, Record, status_eq, allowed_transitions,
}
use chaospay.Payment.Repo.{
  Reply, err, Clock, move, update, plain, entered, transition, invalid_state,
}
use chaospay.PayService.{World, Exec, answer, in_repo}
use chaospay.PayService.Freedom.{add_refund, refund_delta, is_refundable}
use chaospay.PayService.Epay.{epay_refund}
use chaospay.PayService.Flitt.{flitt_reverse, reverse_at}
use chaospay.PayService.Evolution.{find}
use chaospay.PayService.Answers.{Answered, accepted, bind_found}
use chaospay.PayService.Answers.Holds.{status-entered, Post-at, Post-transition}
use chaospay.PayService.Answers.Outcomes.{accepted_transition}
use chaospay.PayService.Answers.Refunds.{Answers}
use chaospay.PayService.Answers.Sums.{entered_fields}

-- A refund of `delta`: the sum grows by it, and the status says whether all is given back.
abbrev pub Refunded : ℕ → ℕ → Record → Reply × World → Type 0
Refunded delta id rec x =
    (rec' : Record) × Answers id rec' x
    × (rec'.refunded_amount ≡ add64 rec.refunded_amount delta)
    × (rec'.captured_amount ≡ rec.captured_amount)
    × (rec'.status
        ≡ (if leb rec.captured_amount rec'.refunded_amount then refunded else partial_refunded))

module _ (clock : Clock) (id delta : ℕ) (full partial : String) (w : World) {rec : Record}
    (h : find id w ≡ some rec) where
  with_sum : Record
  with_sum = record rec { refunded_amount = add64 rec.refunded_amount delta }

  refund_to :
      (to : Status) (reason : String)
      → status_eq to unset ≡ false
      → add_refund delta full partial rec ≡ (with_sum, move to reason)
      → (if leb rec.captured_amount (add64 rec.refunded_amount delta)
          then refunded
          else partial_refunded)
        ≡ to
      → Refunded delta id rec
          (in_repo (update (clock 0) id (plain (add_refund delta full partial))) w)
  unfolding with_sum
  refund_to to reason set e s =
      let a =
        accepted clock 0 id (plain (add_refund delta full partial)) w h
          (ap (λ y. (y.0, w.repo.ref_seed, y.1)) e) in
      let f = entered_fields (clock 0) rec.status to reason with_sum in
      (
        entered (clock 0) rec.status to reason with_sum,
        record { reply = a.0; stored = a.1 },
        f.1,
        f.0,
        status-entered (clock 0) rec.status to reason with_sum set refl
            ∙ sym s
            ∙ ap (λ n. if leb rec.captured_amount n then refunded else partial_refunded) (sym f.1),
      )

  add_refund-Refunded :
      Refunded delta id rec
        (in_repo (update (clock 0) id (plain (add_refund delta full partial))) w)
  unfolding add_refund status_eq with_sum
  add_refund-Refunded =
      elim (Bool-cases (leb rec.captured_amount (add64 rec.refunded_amount delta))) [
        | inl all ↦ refund_to refunded full refl (rw all refl) (rw all refl)
        | inr part ↦ refund_to partial_refunded partial refl (rw part refl) (rw part refl)
      ]

-- `EpayRefund` of a captured or partly refunded payment of Epay adds the amount, or what is left if the
-- amount is not positive, and answers and stores the payment as fully or partly refunded, by comparison
-- of the new sum with the captured one.
pub epay_refund-Refunded :
    (clock : Clock) (id : ℕ) (amount : ℤ) (w : World) (rec : Record)
    → find id w ≡ some rec
    → rec.bank ≡ Bank.epay
    → is_refundable rec.status ≡ true
    → Refunded
        (if is_nonpos amount then sub64 rec.captured_amount rec.refunded_amount else to_uint amount)
        id
        rec
        (epay_refund clock id amount w)
unfolding epay_refund bank_eq
epay_refund-Refunded clock id amount w rec h mine ready =
    let delta =
      if is_nonpos amount then sub64 rec.captured_amount rec.refunded_amount else to_uint amount in
    subst (Refunded delta id rec) (sym (bind_found w id _ h ∙ chosen))
      (add_refund-Refunded clock id delta "epay refund full" "epay refund partial" w h)
  where
    act : Exec
    act = in_repo (
        update (clock 0) id (
          plain (
            add_refund
              (if is_nonpos amount
                then sub64 rec.captured_amount rec.refunded_amount
                else to_uint amount)
              "epay refund full" "epay refund partial")))

    chosen :
        (if not (bank_eq rec.bank Bank.epay)
            then answer (err invalid_state)
            else if not (is_refundable rec.status)
            then answer (err invalid_state)
            else act)
          w
        ≡ act w
    chosen = rw (mine, ready) refl

-- The payment is answered and stored as cancelled.
abbrev pub Cancelled : ℕ → Reply × World → Type 0
Cancelled id x = (rec' : Record) × Answers id rec' x × (rec'.status ≡ cancelled)

cancelled_held :
    (clock : Clock) (id : ℕ) (w : World) {rec : Record}
    → find id w ≡ some rec
    → rec.status ≡ authorized
    → Cancelled id
        (in_repo (transition clock id (allowed_transitions cancelled) cancelled "flitt cancel") w)
unfolding status_eq allowed_transitions
cancelled_held clock id w h held =
    let m =
      in_repo (transition clock id (allowed_transitions cancelled) cancelled "flitt cancel") w in
    let good = accepted_transition clock id cancelled "flitt cancel" w h (rw held refl) in
    let S = Answered id (λ r. r.status ≡ cancelled) in
    let p =
      Post-at S m
        (Post-transition clock id (allowed_transitions cancelled) cancelled "flitt cancel" w refl)
        good.1 in
    (good.0, record { reply = good.1; stored = p.stored }, p.fits)

-- What `FlittReverse` owes to a payment of Flitt in each status.
abbrev pub Reversal : Status → ℕ → ℕ → Record → World → Reply × World → Type 0
Reversal authorized amount id rec w x = Cancelled id x
Reversal captured amount id rec w x = Refunded (refund_delta amount rec) id rec x
Reversal partial_refunded amount id rec w x = Refunded (refund_delta amount rec) id rec x
Reversal _ amount id rec w x = x ≡ (err invalid_state, w)

-- `FlittReverse` of a payment of Flitt: one on hold is cancelled, a captured or partly refunded one is
-- refunded by the amount (or by what is left, if the amount is 0), and at any other status the answer is
-- the error of a wrong state and nothing changes.
pub flitt_reverse-Reversal :
    (clock : Clock) (id amount : ℕ) (w : World) (rec : Record)
    → find id w ≡ some rec
    → rec.bank ≡ Bank.flitt
    → Reversal rec.status amount id rec w (flitt_reverse clock id amount w)
unfolding flitt_reverse reverse_at bank_eq
flitt_reverse-Reversal clock id amount w rec h mine =
    subst (Reversal rec.status amount id rec w) (sym (bind_found w id _ h ∙ chosen))
      (at_status rec.status refl)
  where
    chosen :
        (if not (bank_eq rec.bank Bank.flitt)
            then answer (err invalid_state)
            else reverse_at rec.status clock id amount rec)
          w
        ≡ reverse_at rec.status clock id amount rec w
    chosen = rw mine refl

    at_status :
        (s : Status)
        → rec.status ≡ s
        → Reversal s amount id rec w (reverse_at s clock id amount rec w)
    at_status authorized e = cancelled_held clock id w h e
    at_status captured e =
        add_refund-Refunded clock id (refund_delta amount rec) "flitt refund full"
          "flitt refund partial" w h
    at_status partial_refunded e =
        add_refund-Refunded clock id (refund_delta amount rec) "flitt refund full"
          "flitt refund partial" w h
    at_status unset e = refl
    at_status new e = refl
    at_status hold_pending e = refl
    at_status cancelled e = refl
    at_status refunded e = refl
    at_status failed e = refl
