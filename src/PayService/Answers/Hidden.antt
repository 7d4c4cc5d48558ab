-- ===== src/PayService/Answers/Hidden.antt =====
-- The payments of Halyk Epay that stay hidden from the status check: EpayLateOperation and EpayReveal
-- of internal/application/pay/epay.go.
use chaospay.Prelude.{
  ℕ, ◌≡◌, refl, ◌∙◌, ap, Bool, true, false, not, ◌&&◌, some, inl, inr, ◌⊎◌, Bool-cases, ltb,
  if◌then◌else◌, ==_iff,
}
use mathlib.Core.Path.{subst}
use chaospay.Prelude.Assoc.{lookup-insert, nat_eq}
use chaospay.Prelude.Words.{to_uint}
use chaospay.Bank.Routes.{bank_eq_iff}
use chaospay.Bank.{Bank, bank_eq}
use chaospay.Payment.{
  Time, unset, authorized, captured, Record, status_eq, epay_hidden, is_zero_time,
}
use chaospay.Payment.Repo.{
  err, Clock, move, refuse, plain, entered, create, prepare, next_payment_id, invalid_state,
}
use chaospay.PayService.{World, ◌>>=◌, fetch}
use chaospay.PayService.Epay.{
  EpayAuthorizeInput, is_bad_amount, build_epay_record, epay_record, store_new, late_record,
  epay_late_operation, epay_reveal, reveal_fn,
}
use chaospay.PayService.Evolution.{find}
use chaospay.PayService.Answers.{accepted, rejected, SameRecords, fetch_found}
use chaospay.PayService.Answers.Refunds.{Answers}

reveal_refused :
    (rec : Record) (seed : ℕ)
    → bank_eq rec.bank Bank.epay ≡ false
    → plain reveal_fn rec seed ≡ (rec, seed, refuse invalid_state)
unfolding reveal_fn
reveal_refused rec seed other = rw other refl

reveal_accepted :
    (rec : Record) (seed : ℕ)
    → bank_eq rec.bank Bank.epay ≡ true
    → plain reveal_fn rec seed
      ≡ (record rec { epay = record rec.epay { visible_at = 0 } }, seed, move unset "")
unfolding reveal_fn
reveal_accepted rec seed mine = rw mine refl

-- `EpayReveal` of a payment of Epay answers it, and stores what it answers: it is hidden at no time any
-- more, and its status, history and sums are what they were. A payment of another bank is refused, and
-- no payment changes.
pub reveal_branches :
    (clock : Clock) (id : ℕ) (w : World) (rec : Record)
    → find id w ≡ some rec
    → ((rec.bank ≡ Bank.epay)
        × Answers id
            (record rec { epay = record rec.epay { visible_at = 0 } })
            (epay_reveal clock id w)
        × ((now : Time)
            → epay_hidden now (record rec { epay = record rec.epay { visible_at = 0 } }) ≡ false))
      ⊎ ((bank_eq rec.bank Bank.epay ≡ false)
          × ((epay_reveal clock id w).0 ≡ err invalid_state)
          × SameRecords w (epay_reveal clock id w).1)
unfolding epay_reveal epay_hidden entered status_eq
reveal_branches clock id w rec h = elim (Bool-cases (bank_eq rec.bank Bank.epay)) [
  | inl mine ↦
      let a =
        accepted clock 0 id (plain reveal_fn) w h (reveal_accepted rec w.repo.ref_seed mine) in
      inl
        ((bank_eq_iff rec.bank Bank.epay).0 mine, record { reply = a.0; stored = a.1 }, λ now. refl)
  | inr other ↦
      let r =
        rejected clock 0 id (plain reveal_fn) w h (reveal_refused rec w.repo.ref_seed other) in
      inr (other, r.0, r.1)
]

-- An input with an acceptable amount.
late_stored : Clock → EpayAuthorizeInput → Bool → Time → World → Record
unfolding late_record
late_stored clock in_ is_captured visible_at w =
    prepare (clock 1)
      (late_record clock is_captured visible_at (epay_record in_ (next_payment_id w.repo).0))

new_found :
    (now : Time) (rec : Record) (w : World)
    → find rec.payment_id (store_new now rec w).1 ≡ some (prepare now rec)
unfolding create prepare
new_found now rec w =
    lookup-insert rec.payment_id rec.payment_id (prepare now rec) w.repo.by_id
    ∙ ap (λ b. if b then some (prepare now rec) else find rec.payment_id w)
        ((==_iff rec.payment_id rec.payment_id).1 refl)

stored-Answers :
    (now : Time) (rec : Record) (w : World)
    → Answers rec.payment_id
        (prepare now rec)
        ((store_new now rec >>= (λ stored. fetch stored.payment_id)) w)
unfolding create prepare
stored-Answers now rec w =
    let e = fetch_found (store_new now rec w).1 rec.payment_id (new_found now rec w) in
    record {
      reply = ap (λ x. x.0) e;
      stored = ap (λ x. find rec.payment_id x.1) e ∙ new_found now rec w;
    }

late-Answers :
    (clock : Clock) (in_ : EpayAuthorizeInput) (is_captured : Bool) (visible_at : Time) (w : World)
    → is_bad_amount in_ ≡ false
    → Answers
        (late_record clock is_captured visible_at
          (epay_record in_ (next_payment_id w.repo).0)).payment_id
        (late_stored clock in_ is_captured visible_at w)
        (epay_late_operation clock in_ is_captured visible_at w)
unfolding epay_late_operation build_epay_record late_stored
late-Answers clock in_ is_captured visible_at w good = rw good (
    stored-Answers (clock 1)
      (late_record clock is_captured visible_at (epay_record in_ (next_payment_id w.repo).0))
      (record w { repo = (next_payment_id w.repo).1 }))

late_fields :
    (clock : Clock) (is_captured : Bool) (visible_at : Time) (in_ : EpayAuthorizeInput) (id : ℕ)
    → let r = prepare (clock 1) (late_record clock is_captured visible_at (epay_record in_ id)) in
      (r.payment_id ≡ id)
      × (r.status ≡ (if is_captured then captured else authorized))
      × (r.captured_amount ≡ (if is_captured then to_uint in_.amount else 0))
      × (r.epay.visible_at ≡ visible_at)
unfolding prepare late_record epay_record status_eq
late_fields clock true visible_at in_ id = (refl, refl, refl, refl)
late_fields clock false visible_at in_ id = (refl, refl, refl, refl)

-- `EpayLateOperation` with an acceptable amount answers the new payment under the next number and
-- stores what it answers: it is held, or captured in full, at once, and it is hidden from the status
-- check until the instant that was asked for (if one was).
pub late_operation :
    (clock : Clock) (in_ : EpayAuthorizeInput) (is_captured : Bool) (visible_at : Time) (w : World)
    → is_bad_amount in_ ≡ false
    → (rec : Record) × Answers
        (next_payment_id w.repo).0
        rec
        (epay_late_operation clock in_ is_captured visible_at w)
      × (rec.status ≡ (if is_captured then captured else authorized))
      × (rec.captured_amount ≡ (if is_captured then to_uint in_.amount else 0))
      × ((now : Time) → epay_hidden now rec ≡ (not (is_zero_time visible_at) && ltb now visible_at))
unfolding epay_hidden late_stored prepare
late_operation clock in_ is_captured visible_at w good =
    let id = (next_payment_id w.repo).0 in
    let f = late_fields clock is_captured visible_at in_ id in
    (
      late_stored clock in_ is_captured visible_at w,
      subst
          (λ k.
            Answers k (late_stored clock in_ is_captured visible_at w)
              (epay_late_operation clock in_ is_captured visible_at w))
          f.0 (late-Answers clock in_ is_captured visible_at w good),
      f.1,
      f.2,
      λ now. ap (λ t. not (is_zero_time t) && ltb now t) f.3,
    )
