-- ===== src/PayService/Answers/Sums.antt =====
-- The sums after Capture and RevokeWithOutcome of internal/application/pay/service.go. Sums are words:
-- the lemmas say what happens when they wrap, too.
use chaospay.Prelude.{
  ℕ, ◌<◌, String, ◌≡◌, ◌≢◌, refl, sym, ◌∙◌, true, false, some, inl, inr, ◌⊎◌, arith, [], ◌∷◌, ◌++◌,
  Bool-cases, ◌==◌, if◌then◌else◌, leb,
}
use mathlib.Core.Path.{subst}
use chaospay.Prelude.Words.{word_size, add64, sub64, neg_int, add64-sub64}
use chaospay.Payment.{
  Time, Status, authorized, captured, refunded, partial_refunded, RefundStatus, refund_success,
  RefundOp, Record, status_eq,
}
use chaospay.Payment.Repo.{err, Clock, move, next_payment_id, entered, invalid_state}
use chaospay.Payment.Diagram.{status_eq_iff}
use chaospay.PayService.{World, ServiceConfig, reference_base}
use chaospay.PayService.Freedom
use chaospay.PayService.Freedom.{
  capture_commit, revoke_fn, add_refund, refund_delta, is_refundable, is_refund_success,
  revoke_with_outcome,
}
use chaospay.PayService.Evolution.{find}
use chaospay.PayService.Answers.{bind_found}
use chaospay.PayService.Answers.Holds.{status-entered}
use chaospay.PayService.Answers.Outcomes.{no_both}
use chaospay.PayService.Answers.Refunds.{Answers, commit_found, revoke_step}

pub entered_fields :
    (at : Time) (from to : Status) (reason : String) (rec : Record)
    → ((entered at from to reason rec).captured_amount ≡ rec.captured_amount)
      × ((entered at from to reason rec).refunded_amount ≡ rec.refunded_amount)
      × ((entered at from to reason rec).refunds ≡ rec.refunds)
unfolding entered
entered_fields at from to reason rec = ground arith

-- `Capture` of a payment on hold answers it as captured, with the amount named, or with the whole
-- amount where none is named, and stores what it answers; at any other status it answers the error of a
-- wrong state and changes nothing.
pub capture_branches :
    (cfg : ServiceConfig) (clock : Clock) (id clearing : ℕ) (w : World) (rec : Record)
    → find id w ≡ some rec
    → (rec.status ≡ authorized
        × (rec' : Record) × Answers id rec' (Freedom.capture cfg clock id clearing w)
        × (rec'.status ≡ captured)
        × (rec'.captured_amount ≡ (if clearing == 0 then rec.amount else clearing)))
      ⊎ ((rec.status ≢ authorized)
          × (Freedom.capture cfg clock id clearing w ≡ (err invalid_state, w)))
unfolding Freedom.capture status_eq
capture_branches cfg clock id clearing w rec h =
    elim (Bool-cases (status_eq rec.status authorized)) [
      | inl held ↦
          let e = (status_eq_iff rec.status authorized).0 held in
          let rec1 = record rec {
            captured_amount = if clearing == 0 then rec.amount else clearing;
          } in
          let rec' = entered (clock 0) rec.status captured "capture" rec1 in
          inl (
            e,
            rec',
            subst (Answers id rec') (sym (bind_found w id _ h ∙ rw held refl))
                (commit_found cfg clock id w h clearing rec),
            status-entered (clock 0) rec.status captured "capture" rec1 refl refl,
            (entered_fields (clock 0) rec.status captured "capture" rec1).0,
          )
      | inr other ↦ inr (
        λ e. no_both ((status_eq_iff rec.status authorized).1 e) other,
        bind_found w id _ h ∙ rw other refl,
      )
    ]

leb_refl : (n : ℕ) → leb n n ≡ true
leb_refl n = ground arith

-- The operation that a refund appends.
abbrev pub refund_op : Clock → ℕ → ℕ → RefundStatus → RefundOp
refund_op clock rid delta outcome = record {
  payment_id = rid;
  reference = add64 reference_base rid;
  amount = neg_int delta;
  status = outcome;
  date = clock 0;
}

abbrev pub with_op : Clock → ℕ → ℕ → RefundStatus → Record → Record
with_op clock rid delta outcome rec = record rec {
  refunds = rec.refunds ++ refund_op clock rid delta outcome ∷ [];
}

abbrev pub with_refund : Clock → ℕ → ℕ → Record → Record
with_refund clock rid delta rec = record (with_op clock rid delta refund_success rec) {
  refunded_amount = add64 rec.refunded_amount delta;
}

module _ (clock : Clock) (rid delta : ℕ) (rec : Record) where
  pub revoke_fn_full :
      leb rec.captured_amount (add64 rec.refunded_amount delta) ≡ true
      → revoke_fn clock rid delta refund_success rec
        ≡ (with_refund clock rid delta rec, move refunded "revoke full")
  unfolding revoke_fn add_refund
  revoke_fn_full e = rw e refl

  pub revoke_fn_part :
      leb rec.captured_amount (add64 rec.refunded_amount delta) ≡ false
      → revoke_fn clock rid delta refund_success rec
        ≡ (with_refund clock rid delta rec, move partial_refunded "revoke partial")
  unfolding revoke_fn add_refund
  revoke_fn_part e = rw e refl

-- `Revoke` that names no amount gives back all that is left: the refunded sum is the captured one
-- afterwards, and the payment is answered and stored as fully refunded. Both sums are words; the
-- refunded one may already be larger than the captured one, the difference then wraps.
pub revoke_rest :
    (cfg : ServiceConfig) (clock : Clock) (id : ℕ) (w : World) (rec : Record)
    → find id w ≡ some rec
    → is_refundable rec.status ≡ true
    → rec.captured_amount < word_size
    → rec.refunded_amount < word_size
    → (rec' : Record) × Answers id rec' (Freedom.revoke cfg clock id 0 w)
      × (rec'.status ≡ refunded)
      × (rec'.refunded_amount ≡ rec.captured_amount)
      × (rec'.captured_amount ≡ rec.captured_amount)
unfolding Freedom.revoke refund_delta status_eq
revoke_rest cfg clock id w rec h ready hc hr =
    let delta = sub64 rec.captured_amount rec.refunded_amount in
    let back : add64 rec.refunded_amount delta ≡ rec.captured_amount =
      add64-sub64 rec.captured_amount rec.refunded_amount hc hr in
    let all : leb rec.captured_amount (add64 rec.refunded_amount delta) ≡ true =
      rw back (leb_refl _) in
    let rid = (next_payment_id w.repo).0 in
    let rec1 = with_refund clock rid delta rec in
    let f = entered_fields (clock 1) rec.status refunded "revoke full" rec1 in
    (
      entered (clock 1) rec.status refunded "revoke full" rec1,
      revoke_step cfg clock id w h 0 refund_success ready (revoke_fn_full clock rid delta rec all),
      status-entered (clock 1) rec.status refunded "revoke full" rec1 refl refl,
      f.1 ∙ back,
      f.0,
    )
