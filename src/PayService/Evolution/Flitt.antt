-- ===== src/PayService/Evolution/Flitt.antt =====
-- The methods of internal/application/pay/flitt.go keep the store sound and move payments along the
-- diagram.
use mathlib.Core.Path.{subst}
use chaospay.Prelude.{ℕ, ◌≡◌, refl, sym, true, not, some, arith, inr, ◌==◌, str_eq, if◌then◌else◌}
use chaospay.Bank.{Bank, bank_eq}
use chaospay.Flitt.{
  CardOutcome, approved, approved_3ds, declined, declined_3ds, insufficient_funds, unknown_card,
}
use chaospay.Payment.{
  Status, new, authorized, captured, partial_refunded, failed, status_eq, Record,
}
use chaospay.Payment.Diagram.{one, here, decline, ◌⟶*◌}
use chaospay.Payment.Evolution.{Touches, Moves}
use chaospay.Payment.Repo.{Reply, ok, err, ok_err, Clock, update, plain}
use chaospay.Payment.Repo.Frame.{written}
use chaospay.PayService.{World, in_repo, ◌>>=◌}
use chaospay.PayService.Freedom.{
  create_fresh, set_captured, add_refund, refund_delta, is_refundable,
}
use chaospay.PayService.Epay.{wrap}
use chaospay.PayService.Flitt.{
  FlittCheckoutInput, FlittDirectInput, FlittRecurringInput, flitt_checkout_record,
  flitt_checkout_url, flitt_direct_record, flitt_direct, flitt_recurring_record,
  flitt_recurring_charge, apply_flitt_outcome, effective_outcome, challenge_fn, flitt_decline_fn,
  as_declined, flitt_capture, flitt_reverse, reverse_at, flitt_complete_3ds,
}
use chaospay.PayService.Evolution.{
  find, IsSound, IsGood, IsGood-refl, IsGood-update, IsGood-in_repo, IsGood-fetch, IsGood-if,
  IsGood-bind, Keeps,
}
use chaospay.PayService.Evolution.Creation.{
  IsLiteral, IsGood-create_fresh, created_record, created_status,
}
use chaospay.PayService.Evolution.Transitions.{Moves-plain, Moves-refund}
use chaospay.PayService.Evolution.Freedom.{IsGood-authorize, IsGood-cancel, Moves-capture, is_held}
use chaospay.PayService.Evolution.Epay.{IsGood-wrap}

checkout-IsLiteral :
    (in_ : FlittCheckoutInput) (id : ℕ) → IsLiteral id (flitt_checkout_record in_ id)
unfolding flitt_checkout_record
checkout-IsLiteral in_ id = record { payment_id = refl; no_history = refl }

direct-IsLiteral : (in_ : FlittDirectInput) (id : ℕ) → IsLiteral id (flitt_direct_record in_ id)
unfolding flitt_direct_record
direct-IsLiteral in_ id = record { payment_id = refl; no_history = refl }

direct_new : (in_ : FlittDirectInput) (id : ℕ) → (flitt_direct_record in_ id).status ≡ new
unfolding flitt_direct_record
direct_new in_ id = refl

recurring-IsLiteral :
    (in_ : FlittRecurringInput) (id : ℕ) → IsLiteral id (flitt_recurring_record in_ id)
unfolding flitt_recurring_record
recurring-IsLiteral in_ id = record { payment_id = refl; no_history = refl }

recurring_new : (in_ : FlittRecurringInput) (id : ℕ) → (flitt_recurring_record in_ id).status ≡ new
unfolding flitt_recurring_record
recurring_new in_ id = refl

pub Keeps-flitt_checkout_url :
    (clock : Clock) (in_ : FlittCheckoutInput) → Keeps (flitt_checkout_url clock in_)
unfolding flitt_checkout_url
Keeps-flitt_checkout_url clock in_ = record {
  at = λ w s room.
      IsGood-if (in_.amount == 0) _ _ (λ _. IsGood-refl w s)
        (λ _.
          IsGood-if (in_.order_id == 0) _ _ (λ _. IsGood-refl w s)
            (λ _.
              IsGood-create_fresh clock (flitt_checkout_record in_) w (checkout-IsLiteral in_ _) s
                room));
}

world-as_declined : (x : Reply × World) → (as_declined x).1 ≡ x.1
world-as_declined (ok rec, w) = refl
world-as_declined (err e, w) = refl
world-as_declined (ok_err rec e, w) = refl

challenge-Touches : (rec : Record) → Touches rec (challenge_fn rec).0
unfolding challenge_fn
challenge-Touches rec = ground arith

challenge-Moves :
    (clock : Clock) (seed : ℕ) (rec : Record)
    → Moves rec (written (clock 4) rec.status (plain challenge_fn rec seed))
unfolding challenge_fn
challenge-Moves clock seed rec =
    Moves-plain (clock 4) rec seed challenge_fn (challenge-Touches rec) (inr here)

flitt_decline-Touches :
    (outcome : CardOutcome) (rec : Record) → Touches rec (flitt_decline_fn outcome rec).0
unfolding flitt_decline_fn
flitt_decline-Touches outcome rec = ground arith

flitt_decline-Moves :
    (clock : Clock) (outcome : CardOutcome) (seed : ℕ) (rec : Record)
    → rec.status ≡ new
    → Moves rec (written (clock 4) rec.status (plain (flitt_decline_fn outcome) rec seed))
unfolding flitt_decline_fn
flitt_decline-Moves clock outcome seed rec h =
    Moves-plain (clock 4) rec seed (flitt_decline_fn outcome) (flitt_decline-Touches outcome rec)
      (inr (subst (λ t. t ⟶* failed) (sym h) (one decline)))

-- The outcome of a card, at a payment that has just been created.
module _ (clock : Clock) (rec : Record) (w : World) (s : IsSound w)
    (there : find rec.payment_id w ≡ some rec) (is_new : rec.status ≡ new) where
  refuse-IsGood :
      (outcome : CardOutcome)
      → IsGood w
          (as_declined (
            wrap "flitt outcome decline"
              (in_repo (update (clock 4) rec.payment_id (plain (flitt_decline_fn outcome))) w))).1
  refuse-IsGood outcome =
      subst (IsGood w)
        (sym (
          world-as_declined (
            wrap "flitt outcome decline"
              (in_repo (update (clock 4) rec.payment_id (plain (flitt_decline_fn outcome))) w))))
        (IsGood-wrap w "flitt outcome decline" _ (
          IsGood-update w (clock 4) rec.payment_id (plain (flitt_decline_fn outcome)) s rec there
            (flitt_decline-Moves clock outcome w.repo.ref_seed rec is_new)))

  challenge-IsGood :
      IsGood w
        (wrap "flitt outcome 3ds"
          (in_repo (update (clock 4) rec.payment_id (plain challenge_fn)) w)).1
  challenge-IsGood = IsGood-wrap w "flitt outcome 3ds" _ (
      IsGood-in_repo w (clock 4) rec.payment_id (plain challenge_fn) s
        (λ x _. challenge-Moves clock w.repo.ref_seed x))

  IsGood-outcome : (outcome : CardOutcome) → IsGood w (apply_flitt_outcome clock outcome rec w).1
  unfolding apply_flitt_outcome
  IsGood-outcome approved =
      IsGood-wrap w "flitt outcome authorize" _
        (IsGood-authorize clock rec.payment_id "flitt authorize" w s)
  IsGood-outcome approved_3ds = challenge-IsGood
  IsGood-outcome declined_3ds = challenge-IsGood
  IsGood-outcome declined = refuse-IsGood declined
  IsGood-outcome insufficient_funds = refuse-IsGood insufficient_funds
  IsGood-outcome CardOutcome.unset = IsGood-refl w s
  IsGood-outcome unknown_card = IsGood-refl w s
  IsGood-outcome (CardOutcome.other t) = IsGood-refl w s

-- Create, then apply the outcome of the card.
module _ (clock : Clock) (literal : ℕ → Record) (is_literal : (id : ℕ) → IsLiteral id (literal id))
    (is_new : (id : ℕ) → (literal id).status ≡ new) (outcome : CardOutcome) where
  pub Keeps-create_outcome :
      Keeps (create_fresh (λ _. clock 5) literal >>= apply_flitt_outcome clock outcome)
  Keeps-create_outcome = record {
    at = λ w s room.
        let made = IsGood-create_fresh (λ _. clock 5) literal w (is_literal _) s room in
        IsGood-bind w (create_fresh (λ _. clock 5) literal) _ made (λ rec reply.
          IsGood-outcome clock rec (create_fresh (λ _. clock 5) literal w).1 made.sound
            (created_record (λ _. clock 5) literal w (is_literal _) s room rec reply)
            (created_status (λ _. clock 5) literal w (is_literal _) s room rec reply (is_new _))
            outcome);
  }

pub Keeps-flitt_direct : (clock : Clock) (in_ : FlittDirectInput) → Keeps (flitt_direct clock in_)
unfolding flitt_direct
Keeps-flitt_direct clock in_ = record {
  at = λ w s room.
      IsGood-if (in_.amount == 0) _ _ (λ _. IsGood-refl w s)
        (λ _.
          (Keeps-create_outcome clock (flitt_direct_record in_) (direct-IsLiteral in_)
              (direct_new in_) (effective_outcome in_.outcome)).at
            w s room);
}

pub Keeps-flitt_recurring_charge :
    (clock : Clock) (in_ : FlittRecurringInput) → Keeps (flitt_recurring_charge clock in_)
unfolding flitt_recurring_charge
Keeps-flitt_recurring_charge clock in_ = record {
  at = λ w s room.
      IsGood-if (in_.amount == 0) _ _ (λ _. IsGood-refl w s)
        (λ _.
          IsGood-if (str_eq in_.rectoken "") _ _ (λ _. IsGood-refl w s)
            (λ _.
              (Keeps-create_outcome clock (flitt_recurring_record in_) (recurring-IsLiteral in_)
                  (recurring_new in_) (effective_outcome in_.outcome)).at
                w s room));
}

pub Keeps-flitt_capture : (clock : Clock) (id amount : ℕ) → Keeps (flitt_capture clock id amount)
unfolding flitt_capture
Keeps-flitt_capture clock id amount = record {
  at = λ w s room. IsGood-fetch w id _ s (λ rec h.
      IsGood-if (not (bank_eq rec.bank Bank.flitt)) _ _ (λ _. IsGood-refl w s)
        (λ _.
          IsGood-if (not (status_eq rec.status authorized)) _ _ (λ _. IsGood-refl w s)
            (λ e.
              let target = if amount == 0 then rec.amount else amount in
              IsGood-update w (clock 0) id (plain (set_captured target "flitt capture")) s rec h (
                Moves-capture clock target "flitt capture" rec w.repo.ref_seed
                  (is_held rec.status e)))));
}

module _ (clock : Clock) (id amount : ℕ) (rec : Record) (w : World) (s : IsSound w)
    (h : find id w ≡ some rec) where
  refund-IsGood :
      is_refundable rec.status ≡ true
      → IsGood w
          (in_repo
            (update (clock 0) id (
              plain
                (add_refund (refund_delta amount rec) "flitt refund full" "flitt refund partial")))
            w).1
  refund-IsGood e =
      IsGood-update w (clock 0) id
        (plain (add_refund (refund_delta amount rec) "flitt refund full" "flitt refund partial")) s
        rec h
        (Moves-refund (clock 0) w.repo.ref_seed (refund_delta amount rec) "flitt refund full"
          "flitt refund partial" rec e)

  IsGood-reverse_at :
      (status : Status) → rec.status ≡ status → IsGood w (reverse_at status clock id amount rec w).1
  unfolding reverse_at
  IsGood-reverse_at authorized e = IsGood-cancel clock id "flitt cancel" w s
  IsGood-reverse_at captured e = refund-IsGood (rw e refl)
  IsGood-reverse_at partial_refunded e = refund-IsGood (rw e refl)
  IsGood-reverse_at _ e = IsGood-refl w s

pub Keeps-flitt_reverse : (clock : Clock) (id amount : ℕ) → Keeps (flitt_reverse clock id amount)
unfolding flitt_reverse
Keeps-flitt_reverse clock id amount = record {
  at = λ w s room. IsGood-fetch w id _ s (λ rec h.
      IsGood-if (not (bank_eq rec.bank Bank.flitt)) _ _ (λ _. IsGood-refl w s)
        (λ _. IsGood-reverse_at clock id amount rec w s h rec.status refl));
}

pub Keeps-flitt_complete_3ds : (clock : Clock) (id : ℕ) → Keeps (flitt_complete_3ds clock id)
unfolding flitt_complete_3ds
Keeps-flitt_complete_3ds clock id = record {
  at = λ w s room. IsGood-fetch w id _ s (λ rec h.
      IsGood-if (not (bank_eq rec.bank Bank.flitt)) _ _ (λ _. IsGood-refl w s)
        (λ _.
          IsGood-if (not (status_eq rec.status new)) _ _ (λ _. IsGood-refl w s)
            (λ _. IsGood-authorize clock id "flitt 3ds step2" w s)));
}
