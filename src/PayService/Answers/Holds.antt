-- ===== src/PayService/Answers/Holds.antt =====
-- Hold, Capture and Cancel of internal/application/pay/service.go: what they answer, and that the
-- answer is what the store holds.
use chaospay.Prelude.{
  ℕ, String, ◌≡◌, refl, sym, ◌∙◌, ap, Bool, true, false, not, Option, inl, inr, arith, Bool-cases,
  ◌==◌, if◌then◌else◌,
}
use mathlib.Core.Path.{subst}
use chaospay.Prelude.Assoc.{lookup, nat_eq}
use chaospay.Payment.{Time, Status, unset, Record, status_eq, StatusSet}
use chaospay.Payment.Repo.{
  PayRepo, Reply, ok, err, ok_err, Clock, Verdict, move, refuse, update, plain, transition,
  transition_fn, entered, stamp, is_refused, invalid_transition,
}
use chaospay.PayService.{
  World, Exec, ServiceConfig, continue, in_repo, after, maybe_webhook, ensure_reference,
  fill_reference, reply_or,
}
use chaospay.PayService.Evolution.Freedom.{repo-maybe_webhook}
use chaospay.PayService.Evolution.Transitions.{fill_reference-Touches}
use chaospay.PayService.Answers.{Post, Answered, Post-update, accepted}

pub status-entered :
    (at : Time) (from to : Status) (reason : String) (rec : Record)
    → status_eq to unset ≡ false
    → rec.status ≡ from
    → (entered at from to reason rec).status ≡ to
unfolding entered status_eq
status-entered at from to reason rec h e = ground arith

pub stamp_same :
    (clock : Clock) (to : Status) (rec : Record) (seed : ℕ)
    → (stamp clock to rec seed).0.status ≡ rec.status
unfolding stamp
stamp_same clock to rec seed = ground arith

transition_moves :
    (clock : Clock) (allowed : Option StatusSet) (to : Status) (reason : String) (rec rec' : Record)
    (seed seed' : ℕ) (to' : Status) (reason' : String)
    → transition_fn clock allowed to reason rec seed ≡ (rec', seed', move to' reason')
    → (to' ≡ to) × (rec'.status ≡ rec.status)
unfolding transition_fn
transition_moves clock allowed to reason rec rec' seed seed' to' reason' =
    go (is_refused allowed rec.status)
  where
    chosen : Bool → Record × ℕ × Verdict
    chosen b =
        if b
        then (rec, seed, refuse invalid_transition)
        else ((stamp clock to rec seed).0, (stamp clock to rec seed).1, move to reason)

    go :
        (b : Bool)
        → chosen b ≡ (rec', seed', move to' reason')
        → (to' ≡ to) × (rec'.status ≡ rec.status)
    go true e = cc
    go false e = (cc, sym (ap (λ y. y.0.status) e) ∙ stamp_same clock to rec seed)

-- A transition that is not refused answers what it stores, in the new status.
pub Post-transition :
    (clock : Clock) (id : ℕ) (allowed : Option StatusSet) (to : Status) (reason : String)
    (w : World)
    → status_eq to unset ≡ false
    → Post (Answered id (λ r. r.status ≡ to)) (in_repo (transition clock id allowed to reason) w)
unfolding transition
Post-transition clock id allowed to reason w h =
    Post-update (λ r. r.status ≡ to) clock 2 id (transition_fn clock allowed to reason) w
      (λ rec seed rec' seed' to' reason' found e.
        let m = transition_moves clock allowed to reason rec rec' seed seed' to' reason' e in
        rw m.0 (status-entered (clock 2) rec.status to reason' rec' h m.1))

pub status-entered_same :
    (at : Time) (s : Status) (reason : String) (rec : Record)
    → rec.status ≡ s
    → (entered at s s reason rec).status ≡ s
unfolding entered
status-entered_same at s reason rec e = ground arith

-- `ensureReference` answers what it stores, and keeps what its callback keeps.
module _ (S : Record → Type 0) (id : ℕ)
    (keeps : (at : Time) (r : Record)
      → S r
      → S (entered at r.status r.status "" (fill_reference r))) where
  replied :
      (rec rec' : Record) (x : Reply × World)
      → x.0 ≡ ok rec'
      → Answered id S rec' x.1
      → Post (Answered id S) (reply_or rec x)
  replied rec rec' x e p = subst (λ y. Post (Answered id S) (reply_or rec (y, x.1))) (sym e) p

  pub Post-ensure_reference :
      (clock : Clock) (rec : Record) (w : World)
      → Answered id S rec w
      → Post (Answered id S) (ensure_reference clock id rec w)
  unfolding ensure_reference
  Post-ensure_reference clock rec w p = elim (Bool-cases (not (rec.reference == 0))) [
    | inl has ↦ rw has p
    | inr lacks ↦
        let fn = plain (λ r. (fill_reference r, move r.status "")) in
        let a = accepted clock 3 id fn w p.stored refl in
        rw lacks (
          replied rec (entered (clock 3) rec.status rec.status "" (fill_reference rec))
            (in_repo (update (clock 3) id fn) w) a.0
            (record { stored = a.1; fits = keeps (clock 3) rec p.fits }))
  ]

pub fill_reference_status :
    (s : Status) (at : Time) (r : Record)
    → r.status ≡ s
    → (entered at r.status r.status "" (fill_reference r)).status ≡ s
fill_reference_status s at r e =
    status-entered_same at r.status "" (fill_reference r) (fill_reference-Touches r).status ∙ e

pub Post-after :
    (S : Record → Type 0) (id : ℕ) (cfg : ServiceConfig) (rec : Record) (success taken : Bool)
    (w : World)
    → Answered id S rec w
    → Post (Answered id S) (after rec (maybe_webhook cfg rec success taken) w)
Post-after S id cfg rec success taken w p = record {
  stored =
      ap (λ (r : PayRepo). lookup id r.by_id) (repo-maybe_webhook cfg rec success taken w)
      ∙ p.stored;
  fits = p.fits;
}

-- A method that answers a record, without an error.
abbrev pub Succeeds : Reply × World → Type 0
Succeeds x = (rec : Record) × (x.0 ≡ ok rec)

pub Succeeds-continue :
    (x : Reply × World) (f : Record → Exec)
    → Succeeds x
    → ((rec : Record) (w : World) → Succeeds (f rec w))
    → Succeeds (continue x f)
Succeeds-continue (ok rec, w) f s k = k rec w
Succeeds-continue (err e, w) f (rec, p) k = absurd (no_record p)
  where
    no_record : err e ≡ ok rec → ⊥
    no_record p = cc
Succeeds-continue (ok_err r e, w) f (rec, p) k = absurd (no_record p)
  where
    no_record : ok_err r e ≡ ok rec → ⊥
    no_record p = cc

Succeeds-reply_or : (rec : Record) (x : Reply × World) → Succeeds (reply_or rec x)
Succeeds-reply_or rec (ok r, w) = (r, refl)
Succeeds-reply_or rec (err e, w) = (rec, refl)
Succeeds-reply_or rec (ok_err r e, w) = (rec, refl)

pub Succeeds-ensure_reference :
    (clock : Clock) (id : ℕ) (rec : Record) (w : World) → Succeeds (ensure_reference clock id rec w)
unfolding ensure_reference
Succeeds-ensure_reference clock id rec w = elim (Bool-cases (not (rec.reference == 0))) [
  | inl has ↦ rw has (rec, refl)
  | inr lacks ↦ rw lacks (Succeeds-reply_or rec _)
]

-- The condition holds of the record that is answered.
pub Post-at :
    (P : Record → World → Type 0) (x : Reply × World) {rec : Record}
    → Post P x
    → x.0 ≡ ok rec
    → P rec x.1
Post-at P x p e = subst (λ y. Post P (y, x.1)) e p
