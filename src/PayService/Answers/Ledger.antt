-- ===== src/PayService/Answers/Ledger.antt =====
-- The list of refunds that RevokeWithOutcome of internal/application/pay/service.go keeps, against the
-- refunded sum.
use Prim.Native.String.{◌++◌ as str_append}
use chaospay.Prelude.{
  ℕ, ◌%◌, ◌<◌, String, ◌≡◌, refl, sym, ◌∙◌, ap, Bool, true, false, some, inl, inr, arith, List, [],
  ◌∷◌, ◌++◌, Bool-cases, if◌then◌else◌, leb,
}
use mathlib.Core.Path.{subst}
use chaospay.Prelude.Words.{word_size, add64, sub64, neg_int, to_uint}
use chaospay.Payment.{
  Time, Status, refunded, partial_refunded, RefundStatus, refund_success, refund_status_text,
  RefundOp, is_successful, Record, status_eq,
}
use chaospay.Payment.Repo.{Clock, move, next_payment_id, entered}
use chaospay.Payment.Diagram.{status_eq_iff}
use chaospay.PayService.Answers.Holds.{status-entered}
use chaospay.PayService.{World, ServiceConfig}
use chaospay.PayService.Freedom.{
  revoke, revoke_fn, refund_delta, is_refundable, is_refund_success, revoke_with_outcome,
}
use chaospay.PayService.Evolution.{find}
use chaospay.PayService.Answers.Refunds.{Answers, revoke_step}
use chaospay.PayService.Answers.Sums.{
  refund_op, with_op, with_refund, revoke_fn_full, revoke_fn_part, entered_fields,
}

-- What the operations that went through have taken off; their amounts are negative integers.
unfoldable pub sum_of_refunds : List RefundOp → ℕ
sum_of_refunds [] = 0
sum_of_refunds (o ∷ os) =
    let rest = sum_of_refunds os in
    if is_successful o then sub64 rest (to_uint o.amount % word_size) else rest

sum_small : (os : List RefundOp) → sum_of_refunds os < word_size
unfolding sum_of_refunds
sum_small [] = omega arith
sum_small (o ∷ os) = ground (arith, sum_small os)

to_uint-neg_int : (n : ℕ) → n < word_size → to_uint (neg_int n) ≡ sub64 0 n
unfolding neg_int
to_uint-neg_int n h = ground arith

sub_swap :
    (s a b : ℕ)
    → s < word_size
    → sub64 (sub64 s (a % word_size)) (b % word_size)
      ≡ sub64 (sub64 s (b % word_size)) (a % word_size)
sub_swap s a b hs = omega arith

sum-append :
    (os : List RefundOp) (o : RefundOp)
    → sum_of_refunds (os ++ o ∷ []) ≡ (
        if is_successful o
        then sub64 (sum_of_refunds os) (to_uint o.amount % word_size)
        else sum_of_refunds os)
unfolding sum_of_refunds
sum-append [] o = refl
sum-append (q ∷ os) o = rw (sum-append os o) (
    two_tests (is_successful q) (is_successful o) (sum_of_refunds os) (to_uint q.amount)
      (to_uint o.amount) (sum_small os))
  where
    two_tests :
        (p q : Bool) (s a b : ℕ)
        → s < word_size
        → (if p
            then sub64 (if q then sub64 s (b % word_size) else s) (a % word_size)
            else (if q then sub64 s (b % word_size) else s))
          ≡ (if q
              then sub64 (if p then sub64 s (a % word_size) else s) (b % word_size)
              else (if p then sub64 s (a % word_size) else s))
    two_tests true true s a b hs = sub_swap s b a hs
    two_tests true false s a b hs = refl
    two_tests false true s a b hs = refl
    two_tests false false s a b hs = refl

take_off :
    (s n m : ℕ)
    → s < word_size
    → n < word_size
    → m ≡ sub64 0 n
    → sub64 s (m % word_size) ≡ add64 s n
take_off s n m hs hn e = omega arith

-- What a refund that went through adds to the refunded sum, the list of refunds explains.
explained :
    (clock : Clock) (rid delta : ℕ) (rec : Record)
    → delta < word_size
    → sum_of_refunds (with_refund clock rid delta rec).refunds
      ≡ add64 (sum_of_refunds rec.refunds) delta
unfolding is_successful
explained clock rid delta rec hd =
    sum-append rec.refunds (refund_op clock rid delta refund_success)
    ∙ take_off (sum_of_refunds rec.refunds) delta (to_uint (neg_int delta)) (sum_small rec.refunds)
        hd (to_uint-neg_int delta hd)

entered_same :
    (at : Time) (s : Status) (reason : String) (rec : Record) → entered at s s reason rec ≡ rec
unfolding entered
entered_same at s reason rec = ground (arith, (status_eq_iff s s).1 refl)

revoke_fn_other :
    (clock : Clock) (rid delta : ℕ) (outcome : RefundStatus) (rec : Record)
    → is_refund_success outcome ≡ false
    → revoke_fn clock rid delta outcome rec ≡ (
      with_op clock rid delta outcome rec,
      move rec.status (str_append "revoke " (refund_status_text outcome)),
    )
unfolding revoke_fn
revoke_fn_other clock rid delta outcome rec e = rw e refl

delta_small : (amount : ℕ) (rec : Record) → amount < word_size → refund_delta amount rec < word_size
unfolding refund_delta
delta_small amount rec h = ground arith

-- A refund that the bank does not complete (an error, or still in process) leaves the payment as it
-- was, its status, sums and history included, but for one operation at the end of its list of refunds,
-- with that outcome.
pub revoke_unsuccessful :
    (cfg : ServiceConfig) (clock : Clock) (id amount : ℕ) (outcome : RefundStatus) (w : World)
    (rec : Record)
    → find id w ≡ some rec
    → is_refundable rec.status ≡ true
    → is_refund_success outcome ≡ false
    → Answers id
        (record rec {
          refunds =
              rec.refunds
              ++ refund_op clock (next_payment_id w.repo).0 (refund_delta amount rec) outcome ∷ [];
        })
        (revoke_with_outcome cfg clock id amount outcome w)
revoke_unsuccessful cfg clock id amount outcome w rec h ready bad =
    let rid = (next_payment_id w.repo).0 in
    let delta = refund_delta amount rec in
    let rec1 = with_op clock rid delta outcome rec in
    subst (λ r. Answers id r (revoke_with_outcome cfg clock id amount outcome w))
      (entered_same (clock 1) rec.status (str_append "revoke " (refund_status_text outcome)) rec1)
      (revoke_step cfg clock id w h amount outcome ready
        (revoke_fn_other clock rid delta outcome rec bad))

-- A refund that goes through adds its amount (the remainder, if it names none) to the refunded sum, the
-- payment counts as fully refunded from the moment that sum reaches the captured one, and as partly
-- refunded before. The list of refunds grows by as much as the refunded sum does: the sum of the
-- operations in it that went through grows by the same amount.
pub revoke_successful :
    (cfg : ServiceConfig) (clock : Clock) (id amount : ℕ) (w : World) (rec : Record)
    → find id w ≡ some rec
    → is_refundable rec.status ≡ true
    → amount < word_size
    → (rec' : Record) × Answers id rec' (revoke cfg clock id amount w)
      × (rec'.refunded_amount ≡ add64 rec.refunded_amount (refund_delta amount rec))
      × (rec'.status
          ≡ (if leb rec.captured_amount rec'.refunded_amount then refunded else partial_refunded))
      × (sum_of_refunds rec'.refunds ≡ add64 (sum_of_refunds rec.refunds) (refund_delta amount rec))
unfolding revoke status_eq
revoke_successful cfg clock id amount w rec h ready small =
    let rid = (next_payment_id w.repo).0 in
    let delta = refund_delta amount rec in
    let rec1 = with_refund clock rid delta rec in
    let ex = explained clock rid delta rec (delta_small amount rec small) in
    elim (Bool-cases (leb rec.captured_amount (add64 rec.refunded_amount delta))) [
      | inl all ↦
          let f = entered_fields (clock 1) rec.status refunded "revoke full" rec1 in
          (
            entered (clock 1) rec.status refunded "revoke full" rec1,
            revoke_step cfg clock id w h amount refund_success ready
                (revoke_fn_full clock rid delta rec all),
            f.1,
            status-entered (clock 1) rec.status refunded "revoke full" rec1 refl refl
                ∙ sym (reached (ap (leb rec.captured_amount) f.1 ∙ all)),
            ap sum_of_refunds f.2 ∙ ex,
          )
      | inr part ↦
          let f = entered_fields (clock 1) rec.status partial_refunded "revoke partial" rec1 in
          (
            entered (clock 1) rec.status partial_refunded "revoke partial" rec1,
            revoke_step cfg clock id w h amount refund_success ready
                (revoke_fn_part clock rid delta rec part),
            f.1,
            status-entered (clock 1) rec.status partial_refunded "revoke partial" rec1 refl refl
                ∙ sym (reached (ap (leb rec.captured_amount) f.1 ∙ part)),
            ap sum_of_refunds f.2 ∙ ex,
          )
    ]
  where
    reached :
        {b c : Bool}
        → b ≡ c
        → (if b then refunded else partial_refunded) ≡ (if c then refunded else partial_refunded)
    reached e = ap (λ b. if b then refunded else partial_refunded) e
