-- ===== src/PayService/Answers/Quiet.antt =====
-- Hold, Capture, Cancel and RevokeWithOutcome of internal/application/pay/service.go at a payment without
-- a bank.
use chaospay.Prelude.{
  ℕ, String, ◌≡◌, refl, sym, ◌∙◌, ap, Bool, true, false, not, ◌||◌, Option, some, inl, inr, arith,
  Bool-cases, ◌==◌, if◌then◌else◌,
}
use mathlib.Core.Path.{subst}
use chaospay.Bank.{any, bank_eq}
use chaospay.Payment.{
  Time, Status, authorized, captured, cancelled, Record, RefundStatus, status_eq,
  allowed_transitions, StatusSet,
}
use chaospay.Payment.Repo.{
  Reply, ok, err, ok_err, Clock, update, plain, UpdateFn, transition, transition_fn, entered, stamp,
  next_payment_id,
}
use chaospay.PayService.{
  World, Exec, ServiceConfig, continue, answer, in_repo, after, maybe_webhook, ensure_reference,
  fill_reference,
}
use chaospay.PayService.Freedom
use chaospay.PayService.Freedom.{
  HoldInitInput, HostedInput, BindInput, hold_init, hold_init_record, create_hosted, hosted_record,
  create_bind, bind_record, create_fresh, capture_commit, set_captured, revoke_with_outcome,
  revoke_fn, refund_delta, is_refundable, add_refund,
}
use chaospay.PayService.Evolution.{find}
use chaospay.PayService.Evolution.Freedom.{world-reply_or}
use chaospay.PayService.Evolution.Transitions.{fill_reference-Touches}
use chaospay.PayService.Answers.{Post, Answered, Post-update, bind_found}
use chaospay.PayService.Answers.Holds.{Post-ensure_reference}

-- No goroutine has been started, and the record that is answered, if any, is the stored one and has no
-- bank.
abbrev pub NoBank : Record → Type 0
NoBank rec = rec.bank ≡ any

pub record Silent (id : ℕ) (w : World) (x : Reply × World) : Type 0 where
  pub quiet : x.1.spawned ≡ w.spawned
  pub post : Post (Answered id NoBank) x

Silent-continue :
    (id : ℕ) (w : World) (x : Reply × World) (f : Record → Exec)
    → Silent id w x
    → ((rec : Record) (w' : World) → Answered id NoBank rec w' → Silent id w' (f rec w'))
    → Silent id w (continue x f)
Silent-continue id w (ok rec, w') f s k =
    let t = k rec w' s.post in record { quiet = t.quiet ∙ s.quiet; post = t.post }
Silent-continue id w (err e, w') f s k = record { quiet = s.quiet; post = tt }
Silent-continue id w (ok_err rec e, w') f s k = record { quiet = s.quiet; post = tt }

Silent-if :
    (id : ℕ) (w : World) (t : Bool) (m n : Exec)
    → Silent id w (m w)
    → Silent id w (n w)
    → Silent id w ((if t then m else n) w)
Silent-if id w true m n p q = p
Silent-if id w false m n p q = q

Silent-answer :
    (id : ℕ) (w : World) (reply : Reply)
    → Post (Answered id NoBank) (reply, w)
    → Silent id w (answer reply w)
Silent-answer id w reply p = record { quiet = refl; post = p }

no_webhook :
    (cfg : ServiceConfig) (rec : Record) (success taken : Bool) (w : World)
    → NoBank rec
    → maybe_webhook cfg rec success taken w ≡ w
unfolding maybe_webhook bank_eq
no_webhook cfg rec success taken w e =
    rw e (either (not cfg.auto_webhook.freedom || not cfg.webhook))
  where
    either : (b : Bool) → (if b then w else w) ≡ w
    either true = refl
    either false = refl

Silent-after :
    (id : ℕ) (cfg : ServiceConfig) (rec : Record) (success taken : Bool) (w : World)
    → Answered id NoBank rec w
    → Silent id w (after rec (maybe_webhook cfg rec success taken) w)
Silent-after id cfg rec success taken w p =
    subst (λ v. Silent id w (ok rec, v)) (sym (no_webhook cfg rec success taken w p.fits))
      (record { quiet = refl; post = p })

entered_bank :
    (at : Time) (from to : Status) (reason : String) (rec : Record)
    → (entered at from to reason rec).bank ≡ rec.bank
unfolding entered
entered_bank at from to reason rec = ground arith

Silent-update :
    (id : ℕ) (at : Clock) (i : ℕ) (fn : UpdateFn) (w : World)
    → ((rec : Record) (seed : ℕ) → (fn rec seed).0.bank ≡ rec.bank)
    → ((rec : Record) → find id w ≡ some rec → NoBank rec)
    → Silent id w (in_repo (update (at i) id fn) w)
Silent-update id at i fn w same none_set = record {
  quiet = refl;
  post = Post-update NoBank at i id fn w (λ rec seed rec' seed' to reason h e.
      entered_bank (at i) rec.status to reason rec'
      ∙ sym (ap (λ y. y.0.bank) e)
      ∙ same rec seed
      ∙ none_set rec h);
}

ensure_quiet :
    (clock : Clock) (id : ℕ) (rec : Record) (w : World)
    → (ensure_reference clock id rec w).1.spawned ≡ w.spawned
unfolding ensure_reference
ensure_quiet clock id rec w = elim (Bool-cases (not (rec.reference == 0))) [
  | inl has ↦ rw has refl
  | inr lacks ↦ rw lacks (ap (λ (v : World). v.spawned) (world-reply_or rec _))
]

Silent-ensure :
    (id : ℕ) (clock : Clock) (rec : Record) (w : World)
    → Answered id NoBank rec w
    → Silent id w (ensure_reference clock id rec w)
Silent-ensure id clock rec w p = record {
  quiet = ensure_quiet clock id rec w;
  post =
      Post-ensure_reference NoBank id
        (λ at r e.
          entered_bank at r.status r.status "" (fill_reference r)
          ∙ (fill_reference-Touches r).same.bank
          ∙ e)
        clock rec w p;
}

stamp_bank :
    (clock : Clock) (to : Status) (rec : Record) (seed : ℕ)
    → (stamp clock to rec seed).0.bank ≡ rec.bank
unfolding stamp
stamp_bank clock to rec seed = ground arith

transition_bank :
    (clock : Clock) (allowed : Option StatusSet) (to : Status) (reason : String) (rec : Record)
    (seed : ℕ)
    → (transition_fn clock allowed to reason rec seed).0.bank ≡ rec.bank
unfolding transition_fn
transition_bank clock allowed to reason rec seed = ground (arith, stamp_bank clock to rec seed)

revoke_bank :
    (clock : Clock) (rid delta : ℕ) (outcome : RefundStatus) (rec : Record)
    → (revoke_fn clock rid delta outcome rec).0.bank ≡ rec.bank
unfolding revoke_fn add_refund
revoke_bank clock rid delta outcome rec = ground arith

module _ (cfg : ServiceConfig) (clock : Clock) (id : ℕ) (w : World) (rec : Record)
    (h : find id w ≡ some rec) (e : NoBank rec) where
  found_bare : (x : Record) → find id w ≡ some x → NoBank x
  found_bare x p = ap (λ (y : Record). y.bank) (some_inj (sym p ∙ h)) ∙ e
    where
      some_inj : {a b : Record} → some a ≡ some b → a ≡ b
      some_inj q = cc

  Silent-transition :
      (to : Status) (reason : String)
      → Silent id w (in_repo (transition clock id (allowed_transitions to) to reason) w)
  unfolding transition
  Silent-transition to reason =
      Silent-update id clock 2 (transition_fn clock (allowed_transitions to) to reason) w
        (transition_bank clock (allowed_transitions to) to reason) found_bare

  pub Silent-hold : Silent id w (Freedom.hold cfg clock id w)
  unfolding Freedom.hold
  Silent-hold = subst (Silent id w) (sym (bind_found w id _ h)) (
      Silent-if id w (status_eq rec.status authorized || status_eq rec.status captured) _ _
        (Silent-answer id w _ tt)
        (Silent-continue id w
          (in_repo (transition clock id (allowed_transitions authorized) authorized "hold") w) _
          (Silent-transition authorized "hold")
          (λ updated w1 p.
            Silent-continue id w1 (ensure_reference clock id updated w1) _
              (Silent-ensure id clock updated w1 p)
              (λ updated' w2 q. Silent-after id cfg updated' true false w2 q))))

  pub Silent-capture : (clearing : ℕ) → Silent id w (Freedom.capture cfg clock id clearing w)
  unfolding Freedom.capture capture_commit
  Silent-capture clearing = subst (Silent id w) (sym (bind_found w id _ h)) (
      Silent-if id w (not (status_eq rec.status authorized)) _ _ (Silent-answer id w _ tt) (
        Silent-continue id w _ _
          (Silent-update id clock 0
            (plain (set_captured (if clearing == 0 then rec.amount else clearing) "capture")) w
            (λ x seed. refl) found_bare)
          (λ updated w1 p. Silent-after id cfg updated true true w1 p)))

  pub Silent-cancel : Silent id w (Freedom.cancel cfg clock id w)
  unfolding Freedom.cancel
  Silent-cancel = subst (Silent id w) (sym (bind_found w id _ h)) (
      Silent-if id w (not (status_eq rec.status authorized)) _ _ (Silent-answer id w _ tt) (
        Silent-continue id w
          (in_repo (transition clock id (allowed_transitions cancelled) cancelled "cancel") w) _
          (Silent-transition cancelled "cancel")
          (λ updated w1 p. Silent-after id cfg updated false false w1 p)))

  pub Silent-revoke :
      (amount : ℕ) (outcome : RefundStatus)
      → Silent id w (revoke_with_outcome cfg clock id amount outcome w)
  unfolding revoke_with_outcome next_payment_id
  Silent-revoke amount outcome = subst (Silent id w) (sym (bind_found w id _ h)) (
      Silent-if id w (not (is_refundable rec.status)) _ _ (Silent-answer id w _ tt) (
        Silent-continue id w _ _ rest
          (λ updated w1 p. Silent-after id cfg updated false false w1 p)))
    where
      fn : UpdateFn
      fn = plain (revoke_fn clock (next_payment_id w.repo).0 (refund_delta amount rec) outcome)

      rest :
          Silent id w
            (in_repo (update (clock 1) id fn) (record w { repo = (next_payment_id w.repo).1 }))
      rest =
          let t =
            Silent-update id clock 1 fn (record w { repo = (next_payment_id w.repo).1 })
              (λ x seed.
                revoke_bank clock (next_payment_id w.repo).0 (refund_delta amount rec) outcome x)
              found_bare in
          record { quiet = t.quiet; post = t.post }
