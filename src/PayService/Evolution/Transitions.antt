-- ===== src/PayService/Evolution/Transitions.antt =====
-- The callbacks of the payment service move a payment along the diagram.
use chaospay.Prelude.{
  ℕ, String, ◌≡◌, refl, Bool, true, false, Option, arith, ◌⊎◌, inl, inr, Bool-cases, leb, [], ◌∷◌,
  ◌++◌, ◌∙◌, if◌then◌else◌,
}
use chaospay.Payment.{
  Time, Status, unset, new, hold_pending, authorized, captured, cancelled, refunded,
  partial_refunded, Record, RefundStatus, refund_success, refund_error, refund_process,
  refund_status_text, allowed_transitions,
}
use chaospay.Payment.Diagram.{
  ◌⟶*◌, here, one, hold, hold_on, cancel, refund_part, refund_all, refund_rest,
}
use chaospay.Payment.Evolution.{Touches, Moves, Moves-refl, Moves-entered, Moves-touch}
use chaospay.Payment.Repo.{
  Clock, Verdict, move, refuse, plain, stamp, transition_fn, is_refused, entered,
}
use chaospay.Payment.Repo.Frame.{written}
use chaospay.PayService.Freedom.{add_refund, revoke_fn, is_refundable, is_refund_success}
use chaospay.PayService.{fill_reference, reference_base}
use chaospay.Prelude.Words.{add64, neg_int}
use Prim.Native.String.{◌++◌ as str_append}

-- A callback that only touches, and asks for a status that the diagram allows.
pub Moves-step :
    (at : Time) (rec b : Record) (to : Status) (reason : String)
    → Touches rec b
    → (to ≡ unset) ⊎ (rec.status ⟶* to)
    → Moves rec (entered at rec.status to reason b)
Moves-step at rec b to reason t p = Moves-entered at to reason t p

stamp-Touches :
    (clock : Clock) (to : Status) (rec : Record) (seed : ℕ)
    → Touches rec (stamp clock to rec seed).0
unfolding stamp
stamp-Touches clock to rec seed = ground arith

-- A checked transition is an arrow of the diagram, or changes nothing.
module _ (clock : Clock) (to : Status) (reason : String) (rec : Record) (seed : ℕ) where
  transition-Moves :
      (allowed : Option (Status → Bool))
      → (is_refused allowed rec.status ≡ false → rec.status ⟶* to)
      → Moves rec (written (clock 2) rec.status (transition_fn clock allowed to reason rec seed))
  unfolding transition_fn
  transition-Moves allowed path = elim (Bool-cases (is_refused allowed rec.status)) [
    | inl refused ↦ rw refused (Moves-refl rec)
    | inr free ↦ rw free (
        Moves-step (clock 2) rec (stamp clock to rec seed).0 to reason
          (stamp-Touches clock to rec seed) (inr (path free)))
  ]

into_authorized :
    (s : Status) → is_refused (allowed_transitions authorized) s ≡ false → s ⟶* authorized
unfolding allowed_transitions
into_authorized new h = one hold
into_authorized hold_pending h = one hold_on
into_authorized _ h = cc

into_cancelled :
    (s : Status) → is_refused (allowed_transitions cancelled) s ≡ false → s ⟶* cancelled
unfolding allowed_transitions
into_cancelled authorized h = one cancel
into_cancelled _ h = cc

module _ (clock : Clock) (reason : String) (rec : Record) (seed : ℕ) where
  pub Moves-authorize : Moves rec (
      written
        (clock 2)
        rec.status
        (transition_fn clock (allowed_transitions authorized) authorized reason rec seed))
  Moves-authorize =
      transition-Moves clock authorized reason rec seed (allowed_transitions authorized)
        (into_authorized rec.status)

  pub Moves-cancel : Moves rec (
      written
        (clock 2)
        rec.status
        (transition_fn clock (allowed_transitions cancelled) cancelled reason rec seed))
  Moves-cancel =
      transition-Moves clock cancelled reason rec seed (allowed_transitions cancelled)
        (into_cancelled rec.status)

pub fill_reference-Touches : (rec : Record) → Touches rec (fill_reference rec)
unfolding fill_reference
fill_reference-Touches rec = ground arith

-- Where a refund may go.
refund_path : (s : Status) → is_refundable s ≡ true → (s ⟶* refunded) × (s ⟶* partial_refunded)
refund_path captured h = (one refund_all, one refund_part)
refund_path partial_refunded h = (one refund_rest, here)
refund_path _ h = cc

-- A verdict that keeps to the diagram.
abbrev pub IsAllowed : Verdict → Status → Type 0
IsAllowed (move to reason) s = (to ≡ unset) ⊎ (s ⟶* to)
IsAllowed (refuse e) s = Unit

IsAllowed-if :
    (t : Bool) (v u : Verdict) (s : Status)
    → IsAllowed v s
    → IsAllowed u s
    → IsAllowed (if t then v else u) s
IsAllowed-if true v u s p q = p
IsAllowed-if false v u s p q = q

Moves-verdict :
    (at : Time) (rec b : Record) (seed : ℕ) (v : Verdict)
    → Touches rec b
    → IsAllowed v rec.status
    → Moves rec (written at rec.status (b, seed, v))
Moves-verdict at rec b seed (move to reason) t p = Moves-step at rec b to reason t p
Moves-verdict at rec b seed (refuse e) t p = Moves-touch t

-- A callback that leaves the counter of references alone.
pub Moves-plain :
    (at : Time) (rec : Record) (seed : ℕ) (f : Record → Record × Verdict)
    → Touches rec (f rec).0
    → IsAllowed (f rec).1 rec.status
    → Moves rec (written at rec.status (plain f rec seed))
Moves-plain at rec seed f t p = Moves-verdict at rec (f rec).0 seed (f rec).1 t p

touch_again : {a b : Record} (c : Record) → Touches a b → Touches b c → Touches a c
touch_again c p q = record {
  same = record {
    payment_id = q.same.payment_id ∙ p.same.payment_id;
    bank = q.same.bank ∙ p.same.bank;
    order_id = q.same.order_id ∙ p.same.order_id;
    merchant_id = q.same.merchant_id ∙ p.same.merchant_id;
    amount = q.same.amount ∙ p.same.amount;
    created_at = q.same.created_at ∙ p.same.created_at;
  };
  status = q.status ∙ p.status;
  history = q.history ∙ p.history;
}

add_refund-Touches :
    (delta : ℕ) (full partial : String) (rec : Record)
    → Touches rec (add_refund delta full partial rec).0
unfolding add_refund
add_refund-Touches delta full partial rec = ground arith

add_refund-IsAllowed :
    (delta : ℕ) (full partial : String) (rec : Record) (s : Status)
    → is_refundable s ≡ true
    → IsAllowed (add_refund delta full partial rec).1 s
unfolding add_refund
add_refund-IsAllowed delta full partial rec s h =
    IsAllowed-if (leb rec.captured_amount (add64 rec.refunded_amount delta)) (move refunded full)
      (move partial_refunded partial) s (inr (refund_path s h).0) (inr (refund_path s h).1)

pub Moves-refund :
    (at : Time) (seed delta : ℕ) (full partial : String) (rec : Record)
    → is_refundable rec.status ≡ true
    → Moves rec (written at rec.status (plain (add_refund delta full partial) rec seed))
Moves-refund at seed delta full partial rec h =
    Moves-plain at rec seed (add_refund delta full partial)
      (add_refund-Touches delta full partial rec)
      (add_refund-IsAllowed delta full partial rec rec.status h)

-- The refund operation that `revoke_fn` appends.
abbrev with_op : Clock → ℕ → ℕ → RefundStatus → Record → Record
with_op clock refund_id delta outcome r = record r {
  refunds =
      r.refunds
      ++ record {
        payment_id = refund_id;
        reference = add64 reference_base refund_id;
        amount = neg_int delta;
        status = outcome;
        date = clock 0;
      }
        ∷ [];
}

with_op-Touches :
    (clock : Clock) (refund_id delta : ℕ) (outcome : RefundStatus) (rec : Record)
    → Touches rec (with_op clock refund_id delta outcome rec)
with_op-Touches clock refund_id delta outcome rec = ground arith

module _ (clock : Clock) (refund_id delta : ℕ) (rec : Record) where
  revoke_success :
      revoke_fn clock refund_id delta refund_success rec
      ≡ add_refund delta "revoke full" "revoke partial"
          (with_op clock refund_id delta refund_success rec)
  unfolding revoke_fn
  revoke_success = refl

  revoke_other :
      (outcome : RefundStatus)
      → is_refund_success outcome ≡ false
      → (reason : String) × (revoke_fn clock refund_id delta outcome rec
          ≡ (with_op clock refund_id delta outcome rec, move rec.status reason))
  unfolding revoke_fn
  revoke_other refund_success h = cc
  revoke_other refund_error h = (str_append "revoke " (refund_status_text refund_error), refl)
  revoke_other refund_process h = (str_append "revoke " (refund_status_text refund_process), refl)

  pub Moves-revoke :
      (at : Time) (seed : ℕ) (outcome : RefundStatus)
      → is_refundable rec.status ≡ true
      → Moves rec (written at rec.status (plain (revoke_fn clock refund_id delta outcome) rec seed))
  Moves-revoke at seed refund_success h = rw revoke_success (
      Moves-verdict at rec
        (add_refund delta "revoke full" "revoke partial"
          (with_op clock refund_id delta refund_success rec)).0
        seed
        (add_refund delta "revoke full" "revoke partial"
          (with_op clock refund_id delta refund_success rec)).1
        (touch_again
          (add_refund delta "revoke full" "revoke partial"
            (with_op clock refund_id delta refund_success rec)).0
          (with_op-Touches clock refund_id delta refund_success rec)
          (add_refund-Touches delta "revoke full" "revoke partial"
            (with_op clock refund_id delta refund_success rec)))
        (add_refund-IsAllowed delta "revoke full" "revoke partial"
          (with_op clock refund_id delta refund_success rec) rec.status h))
  Moves-revoke at seed refund_error h = rw (revoke_other refund_error refl).1 (
      Moves-step at rec (with_op clock refund_id delta refund_error rec) rec.status
        (revoke_other refund_error refl).0 (with_op-Touches clock refund_id delta refund_error rec)
        (inr here))
  Moves-revoke at seed refund_process h = rw (revoke_other refund_process refl).1 (
      Moves-step at rec (with_op clock refund_id delta refund_process rec) rec.status
        (revoke_other refund_process refl).0
        (with_op-Touches clock refund_id delta refund_process rec) (inr here))
