-- ===== src/PayService/Answers/Cards.antt =====
-- The outcomes of Flitt's test cards: `applyFlittOutcome` and `FlittComplete3DS` of
-- internal/application/pay/flitt.go.
use chaospay.Prelude.{ℕ, String, ◌≡◌, refl, sym, ◌∙◌, ap, not, some, arith, if◌then◌else◌}
use mathlib.Core.Path.{subst}
use chaospay.Bank.{flitt, bank_eq}
use chaospay.Flitt.{
  CardOutcome, approved, approved_3ds, declined, declined_3ds, insufficient_funds, unknown_card,
  outcome_text,
}
use chaospay.Payment.{Time, Status, new, authorized, failed, Record, status_eq, allowed_transitions}
use chaospay.Payment.Repo.{
  Reply, ok, err, ok_err, Clock, update, plain, transition, transition_fn, entered, stamp,
  flitt_declined, invalid_state,
}
use chaospay.PayService.{World, answer, in_repo}
use chaospay.PayService.Epay.{wrap}
use chaospay.PayService.Flitt.{
  apply_flitt_outcome, challenge_fn, flitt_decline_fn, as_declined, flitt_complete_3ds,
}
use chaospay.PayService.Evolution.{find}
use chaospay.PayService.Answers.{accepted, bind_found}
use chaospay.PayService.Answers.Holds.{status-entered, status-entered_same, stamp_same}
use chaospay.PayService.Answers.Outcomes.{fn_allowed}
use chaospay.PayService.Answers.Refunds.{Answers}

-- The call refuses the card, with the record, and the store holds that record.
pub record Refuses (id : ℕ) (rec : Record) (x : Reply × World) : Type 0 where
  pub reply : x.0 ≡ ok_err rec flitt_declined
  pub stored : find id x.1 ≡ some rec

wrapped_answer :
    (text : String) (id : ℕ) (rec : Record) (x : Reply × World)
    → x.0 ≡ ok rec
    → find id x.1 ≡ some rec
    → Answers id rec (wrap text x)
wrapped_answer text id rec x e f =
    subst (λ r. Answers id rec (wrap text (r, x.1))) (sym e) (record { reply = refl; stored = f })

wrapped_refusal :
    (text : String) (id : ℕ) (rec : Record) (x : Reply × World)
    → x.0 ≡ ok rec
    → find id x.1 ≡ some rec
    → Refuses id rec (as_declined (wrap text x))
wrapped_refusal text id rec x e f =
    subst (λ r. Refuses id rec (as_declined (wrap text (r, x.1)))) (sym e)
      (record { reply = refl; stored = f })

-- What each outcome owes to a new payment.
abbrev pub CardResult : CardOutcome → ℕ → Record → World → Reply × World → Type 0
CardResult approved id rec w x = (rec' : Record) × Answers id rec' x × (rec'.status ≡ authorized)
CardResult approved_3ds id rec w x =
    (rec' : Record) × Answers id rec' x
    × (rec'.status ≡ new)
    × (rec'.bank ≡ rec.bank)
    × (rec'.flitt.acs_url ≡ "https://chaospay.local/3ds/challenge")
CardResult declined_3ds id rec w x =
    (rec' : Record) × Answers id rec' x
    × (rec'.status ≡ new)
    × (rec'.bank ≡ rec.bank)
    × (rec'.flitt.acs_url ≡ "https://chaospay.local/3ds/challenge")
CardResult declined id rec w x =
    (rec' : Record) × Refuses id rec' x
    × (rec'.status ≡ failed)
    × (rec'.last_error ≡ outcome_text declined)
CardResult insufficient_funds id rec w x =
    (rec' : Record) × Refuses id rec' x
    × (rec'.status ≡ failed)
    × (rec'.last_error ≡ outcome_text insufficient_funds)
CardResult _ id rec w x = x ≡ (ok rec, w)

entered_extras :
    (at : Time) (from to : Status) (reason : String) (rec : Record)
    → ((entered at from to reason rec).bank ≡ rec.bank)
      × ((entered at from to reason rec).flitt ≡ rec.flitt)
      × ((entered at from to reason rec).last_error ≡ rec.last_error)
unfolding entered
entered_extras at from to reason rec = ground arith

module _ (clock : Clock) (id : ℕ) (w : World) {rec : Record} (h : find id w ≡ some rec)
    (fresh : rec.status ≡ new) where
  authorized_by :
      (reason : String)
      → (rec' : Record) × Answers id rec'
          (in_repo (transition clock id (allowed_transitions authorized) authorized reason) w)
        × (rec'.status ≡ authorized)
  unfolding transition allowed_transitions status_eq
  authorized_by reason =
      let fn = transition_fn clock (allowed_transitions authorized) authorized reason in
      let s = stamp clock authorized rec w.repo.ref_seed in
      let a = accepted clock 2 id fn w h (
        fn_allowed clock (allowed_transitions authorized) authorized reason rec w.repo.ref_seed
          (rw fresh refl)) in
      (
        entered (clock 2) rec.status authorized reason s.0,
        record { reply = a.0; stored = a.1 },
        status-entered (clock 2) rec.status authorized reason s.0 refl
            (stamp_same clock authorized rec w.repo.ref_seed),
      )

  challenged :
      (rec' : Record) × Answers id rec'
        (wrap "flitt outcome 3ds" (in_repo (update (clock 4) id (plain challenge_fn)) w))
      × (rec'.status ≡ new)
      × (rec'.bank ≡ rec.bank)
      × (rec'.flitt.acs_url ≡ "https://chaospay.local/3ds/challenge")
  unfolding challenge_fn
  challenged =
      let rec1 = (challenge_fn rec).0 in
      let rec' = entered (clock 4) rec.status rec.status "" rec1 in
      let a = accepted clock 4 id (plain challenge_fn) w h refl in
      let x = entered_extras (clock 4) rec.status rec.status "" rec1 in
      (
        rec',
        wrapped_answer "flitt outcome 3ds" id rec'
            (in_repo (update (clock 4) id (plain challenge_fn)) w) a.0 a.1,
        status-entered_same (clock 4) rec.status "" rec1 refl ∙ fresh,
        x.0,
        ap (λ f. f.acs_url) x.1,
      )

  refused_card :
      (outcome : CardOutcome)
      → (rec' : Record) × Refuses id rec' (
          as_declined (
            wrap "flitt outcome decline"
              (in_repo (update (clock 4) id (plain (flitt_decline_fn outcome))) w)))
        × (rec'.status ≡ failed)
        × (rec'.last_error ≡ outcome_text outcome)
  unfolding flitt_decline_fn status_eq
  refused_card outcome =
      let rec1 = (flitt_decline_fn outcome rec).0 in
      let rec' = entered (clock 4) rec.status failed "flitt declined" rec1 in
      let a = accepted clock 4 id (plain (flitt_decline_fn outcome)) w h refl in
      (
        rec',
        wrapped_refusal "flitt outcome decline" id rec'
            (in_repo (update (clock 4) id (plain (flitt_decline_fn outcome))) w) a.0 a.1,
        status-entered (clock 4) rec.status failed "flitt declined" rec1 refl refl,
        (entered_extras (clock 4) rec.status failed "flitt declined" rec1).2,
      )

-- What a card's outcome does to a new payment that is stored: an approved card authorizes it, a card
-- with 3DS leaves it new with the address of the challenge, a declined one makes it failed with the
-- reason and an error beside the record, and without an outcome nothing changes.
pub card_outcomes :
    (clock : Clock) (outcome : CardOutcome) (rec : Record) (w : World)
    → find rec.payment_id w ≡ some rec
    → rec.status ≡ new
    → CardResult outcome rec.payment_id rec w (apply_flitt_outcome clock outcome rec w)
unfolding apply_flitt_outcome
card_outcomes clock approved rec w h fresh =
    let p = authorized_by clock rec.payment_id w h fresh "flitt authorize" in
    (
      p.0,
      wrapped_answer "flitt outcome authorize" rec.payment_id p.0
          (in_repo
            (transition clock rec.payment_id (allowed_transitions authorized) authorized
              "flitt authorize")
            w)
          p.1.reply p.1.stored,
      p.2,
    )
card_outcomes clock approved_3ds rec w h fresh = challenged clock rec.payment_id w h fresh
card_outcomes clock declined_3ds rec w h fresh = challenged clock rec.payment_id w h fresh
card_outcomes clock declined rec w h fresh = refused_card clock rec.payment_id w h fresh declined
card_outcomes clock insufficient_funds rec w h fresh =
    refused_card clock rec.payment_id w h fresh insufficient_funds
card_outcomes clock unknown_card rec w h fresh = refl
card_outcomes clock CardOutcome.unset rec w h fresh = refl
card_outcomes clock (CardOutcome.other s) rec w h fresh = refl

complete_found :
    (clock : Clock) (id : ℕ) (w : World) {rec : Record}
    → find id w ≡ some rec
    → rec.bank ≡ flitt
    → rec.status ≡ new
    → flitt_complete_3ds clock id w
      ≡ in_repo
          (transition clock id (allowed_transitions authorized) authorized "flitt 3ds step2")
          w
unfolding flitt_complete_3ds bank_eq status_eq
complete_found clock id w {rec} h mine fresh = bind_found w id _ h ∙ chosen
  where
    chosen :
        (if not (bank_eq rec.bank flitt)
            then answer (err invalid_state)
            else if not (status_eq rec.status new)
            then answer (ok rec)
            else in_repo
                (transition clock id (allowed_transitions authorized) authorized "flitt 3ds step2"))
          w
        ≡ in_repo
            (transition clock id (allowed_transitions authorized) authorized "flitt 3ds step2")
            w
    chosen = rw (mine, fresh) refl

-- A new payment of Flitt by a card that is to be declined after 3DS is authorized when the challenge is
-- completed, like one that is to be approved.
pub declined_after_3ds :
    (clock clock' : Clock) (rec : Record) (w : World)
    → find rec.payment_id w ≡ some rec
    → rec.status ≡ new
    → rec.bank ≡ flitt
    → (rec' : Record) × Answers rec.payment_id rec'
        (flitt_complete_3ds clock' rec.payment_id (apply_flitt_outcome clock declined_3ds rec w).1)
      × (rec'.status ≡ authorized)
declined_after_3ds clock clock' rec w h fresh mine =
    let c = card_outcomes clock declined_3ds rec w h fresh in
    let w1 = (apply_flitt_outcome clock declined_3ds rec w).1 in
    let p = authorized_by clock' rec.payment_id w1 c.1.stored c.2 "flitt 3ds step2" in
    (
      p.0,
      subst (Answers rec.payment_id p.0)
          (sym (complete_found clock' rec.payment_id w1 c.1.stored (c.3 ∙ mine) c.2)) p.1,
      p.2,
    )
