-- ===== src/PayService/Answers/Outcomes.antt =====
-- Hold, Capture and Cancel of internal/application/pay/service.go, on every branch.
use chaospay.Prelude.{
  ℕ, String, ◌≡◌, ◌≢◌, refl, sym, ◌∙◌, ap, Bool, true, false, ◌||◌, Option, some, inl, inr, ◌⊎◌,
  Bool-cases, if◌then◌else◌,
}
use mathlib.Core.Path.{subst}
use chaospay.Prelude.Assoc.{nat_eq}
use chaospay.Payment.{
  Status, unset, new, hold_pending, authorized, captured, cancelled, refunded, partial_refunded,
  failed, Record, status_eq, StatusSet, allowed_transitions,
}
use chaospay.Payment.Repo.{
  PayError, Reply, ok, err, ok_err, Clock, move, refuse, already_authorized, transition,
  transition_fn, stamp, is_refused, invalid_transition, invalid_state,
}
use chaospay.Payment.Diagram.{status_eq_iff}
use chaospay.PayService.{
  World, Exec, ServiceConfig, ◌>>=◌, continue, answer, in_repo, after, maybe_webhook,
  ensure_reference,
}
use chaospay.PayService.Freedom
use chaospay.PayService.Freedom.{capture_commit, set_captured}
use chaospay.PayService.Evolution.{find}
use chaospay.PayService.Answers.{
  Post, Answered, Post-continue, Post-bind, Post-if, Post-fetch, bind_found, accepted, rejected,
  SameRecords,
}
use chaospay.PayService.Answers.Holds.{
  Post-transition, Post-ensure_reference, fill_reference_status, Post-after, Post-at, Succeeds,
  Succeeds-continue, Succeeds-ensure_reference,
}

abbrev Is : Status → Record → Type 0
Is s r = r.status ≡ s

module _ (cfg : ServiceConfig) (clock : Clock) (id : ℕ) where
  -- What `Hold` does once it has found the payment, and found it not held.
  abbrev rest_of_hold : Exec
  rest_of_hold = do
    updated ← in_repo (transition clock id (allowed_transitions authorized) authorized "hold")
    updated' ← ensure_reference clock id updated
    after updated' (maybe_webhook cfg updated' true false)

  Post-rest : (w : World) → Post (Answered id (Is authorized)) (rest_of_hold w)
  unfolding status_eq
  Post-rest w =
      let S = Is authorized in
      Post-bind (Answered id S) (Answered id S) w
        (in_repo (transition clock id (allowed_transitions authorized) authorized "hold")) _
        (Post-transition clock id (allowed_transitions authorized) authorized "hold" w refl)
        (λ updated w1 p.
          Post-bind (Answered id S) (Answered id S) w1 (ensure_reference clock id updated) _
            (Post-ensure_reference S id (fill_reference_status authorized) clock updated w1 p)
            (λ updated' w2 q. Post-after S id cfg updated' true false w2 q))

  pub Post-hold : (w : World) → Post (Answered id (Is authorized)) (Freedom.hold cfg clock id w)
  unfolding Freedom.hold
  Post-hold w = Post-fetch (Answered id (Is authorized)) w id _ (λ rec h.
      Post-if (Answered id (Is authorized)) w
        (status_eq rec.status authorized || status_eq rec.status captured) _ rest_of_hold (λ _. tt)
        (λ _. Post-rest w))

  hold_found :
      (w : World) {rec : Record}
      → find id w ≡ some rec
      → Freedom.hold cfg clock id w
        ≡ (if status_eq rec.status authorized || status_eq rec.status captured
              then answer (ok_err rec already_authorized)
              else rest_of_hold)
            w
  unfolding Freedom.hold
  hold_found w {rec} h = bind_found w id _ h

-- A second `Hold` of a payment that a first one has put on hold answers the same record with
-- "already authorized", and changes nothing: neither the store nor the webhooks.
pub hold_twice :
    (cfg cfg' : ServiceConfig) (clock clock' : Clock) (id : ℕ) (w : World) (rec : Record)
    → (Freedom.hold cfg clock id w).0 ≡ ok rec
    → Freedom.hold cfg' clock' id (Freedom.hold cfg clock id w).1
      ≡ (ok_err rec already_authorized, (Freedom.hold cfg clock id w).1)
unfolding status_eq
hold_twice cfg cfg' clock clock' id w rec e =
    let p =
      Post-at (Answered id (Is authorized)) (Freedom.hold cfg clock id w) (Post-hold cfg clock id w)
        e in
    hold_found cfg' clock' id (Freedom.hold cfg clock id w).1 p.stored ∙ rw p.fits refl

pub no_both : {b : Bool} → b ≡ true → b ≡ false → ⊥
no_both p q = cc

-- A payment that is on hold is answered and stored.
abbrev pub PutOnHold : ℕ → Reply × World → Type 0
PutOnHold id x =
    (rec' : Record) × (x.0 ≡ ok rec') × (find id x.1 ≡ some rec') × (rec'.status ≡ authorized)

-- What `Hold` owes to a payment in each status.
abbrev pub HoldOutcome : ℕ → Status → Record → World → Reply × World → Type 0
HoldOutcome id new rec w x = PutOnHold id x
HoldOutcome id hold_pending rec w x = PutOnHold id x
HoldOutcome id authorized rec w x = x ≡ (ok_err rec already_authorized, w)
HoldOutcome id captured rec w x = x ≡ (ok_err rec already_authorized, w)
HoldOutcome id _ rec w x =
    (x.0 ≡ err invalid_transition) × (x.1.spawned ≡ w.spawned) × SameRecords w x.1

fn_refused :
    (clock : Clock) (allowed : Option StatusSet) (to : Status) (reason : String) (rec : Record)
    (seed : ℕ)
    → is_refused allowed rec.status ≡ true
    → transition_fn clock allowed to reason rec seed ≡ (rec, seed, refuse invalid_transition)
unfolding transition_fn
fn_refused clock allowed to reason rec seed never = rw never refl

pub fn_allowed :
    (clock : Clock) (allowed : Option StatusSet) (to : Status) (reason : String) (rec : Record)
    (seed : ℕ)
    → is_refused allowed rec.status ≡ false
    → transition_fn clock allowed to reason rec seed
      ≡ ((stamp clock to rec seed).0, (stamp clock to rec seed).1, move to reason)
unfolding transition_fn
fn_allowed clock allowed to reason rec seed ready = rw ready refl

module _ (clock : Clock) (id : ℕ) (to : Status) (reason : String) (w : World) {rec : Record}
    (h : find id w ≡ some rec) where
  -- A transition that is not allowed.
  refused :
      is_refused (allowed_transitions to) rec.status ≡ true
      → ((in_repo (transition clock id (allowed_transitions to) to reason) w).0
          ≡ err invalid_transition)
        × SameRecords w (in_repo (transition clock id (allowed_transitions to) to reason) w).1
  unfolding transition
  refused never =
      rejected clock 2 id (transition_fn clock (allowed_transitions to) to reason) w h
        (fn_refused clock (allowed_transitions to) to reason rec w.repo.ref_seed never)

  pub accepted_transition :
      is_refused (allowed_transitions to) rec.status ≡ false
      → Succeeds (in_repo (transition clock id (allowed_transitions to) to reason) w)
  unfolding transition
  accepted_transition ready = (
    _,
    (accepted clock 2 id (transition_fn clock (allowed_transitions to) to reason) w h
        (fn_allowed clock (allowed_transitions to) to reason rec w.repo.ref_seed ready)).0,
  )

continue_err :
    (x : Reply × World) (f : Record → Exec) {e : PayError}
    → x.0 ≡ err e
    → continue x f ≡ (err e, x.1)
continue_err x f p = ap (λ y. continue (y, x.1) f) p

module _ (cfg : ServiceConfig) (clock : Clock) (id : ℕ) (w : World) {rec : Record}
    (h : find id w ≡ some rec) where
  hold_ready :
      is_refused (allowed_transitions authorized) rec.status ≡ false
      → PutOnHold id (rest_of_hold cfg clock id w)
  hold_ready ready =
      let good : Succeeds (rest_of_hold cfg clock id w) =
        Succeeds-continue _ _ (accepted_transition clock id authorized "hold" w h ready)
          (λ updated w1.
            Succeeds-continue _ _ (Succeeds-ensure_reference clock id updated w1)
              (λ updated' w2. (updated', refl))) in
      let p =
        Post-at (Answered id (Is authorized)) (rest_of_hold cfg clock id w)
          (Post-rest cfg clock id w) good.1 in
      (good.0, good.1, p.stored, p.fits)

  hold_not_ready :
      is_refused (allowed_transitions authorized) rec.status ≡ true
      → ((rest_of_hold cfg clock id w).0 ≡ err invalid_transition)
        × ((rest_of_hold cfg clock id w).1.spawned ≡ w.spawned)
        × SameRecords w (rest_of_hold cfg clock id w).1
  hold_not_ready never =
      let r = refused clock id authorized "hold" w h never in
      let e =
        continue_err
          (in_repo (transition clock id (allowed_transitions authorized) authorized "hold") w)
          (λ updated.
            ensure_reference clock id updated
            >>= (λ updated'. after updated' (maybe_webhook cfg updated' true false)))
          r.0 in
      (ap (λ x. x.0) e, ap (λ x. x.1.spawned) e, λ j. ap (λ x. find j x.1) e ∙ r.1 j)

-- `Hold`, at every status of the payment it finds: for a new or pending one it answers and stores one and
-- the same record, which is on hold; a held or captured one gets "already authorized" and nothing
-- changes, and at any other status the transition is refused, with every payment left as it was and no
-- webhook started.
pub hold_branches :
    (cfg : ServiceConfig) (clock : Clock) (id : ℕ) (w : World) (rec : Record)
    → find id w ≡ some rec
    → HoldOutcome id rec.status rec w (Freedom.hold cfg clock id w)
unfolding status_eq allowed_transitions
hold_branches cfg clock id w rec h =
    subst (HoldOutcome id rec.status rec w) (sym (hold_found cfg clock id w h)) (go rec.status refl)
  where
    go :
        (s : Status)
        → rec.status ≡ s
        → HoldOutcome id s rec w (
            (if status_eq s authorized || status_eq s captured
                then answer (ok_err rec already_authorized)
                else rest_of_hold cfg clock id)
              w)
    go new e = hold_ready cfg clock id w h (rw e refl)
    go hold_pending e = hold_ready cfg clock id w h (rw e refl)
    go authorized e = refl
    go captured e = refl
    go unset e = hold_not_ready cfg clock id w h (rw e refl)
    go cancelled e = hold_not_ready cfg clock id w h (rw e refl)
    go refunded e = hold_not_ready cfg clock id w h (rw e refl)
    go partial_refunded e = hold_not_ready cfg clock id w h (rw e refl)
    go failed e = hold_not_ready cfg clock id w h (rw e refl)

-- `Cancel` of a payment on hold answers it as cancelled and stores what it answers; at any other status
-- it answers the error of a wrong state and changes nothing.
pub cancel_branches :
    (cfg : ServiceConfig) (clock : Clock) (id : ℕ) (w : World) (rec : Record)
    → find id w ≡ some rec
    → ((rec.status ≡ authorized)
        × (rec' : Record) × ((Freedom.cancel cfg clock id w).0 ≡ ok rec')
        × (find id (Freedom.cancel cfg clock id w).1 ≡ some rec')
        × (rec'.status ≡ cancelled))
      ⊎ ((rec.status ≢ authorized) × (Freedom.cancel cfg clock id w ≡ (err invalid_state, w)))
unfolding Freedom.cancel status_eq allowed_transitions
cancel_branches cfg clock id w rec h = elim (Bool-cases (status_eq rec.status authorized)) [
  | inl held ↦
      let e = (status_eq_iff rec.status authorized).0 held in
      let there = accepted_transition clock id cancelled "cancel" w h (rw e refl) in
      let m = in_repo (transition clock id (allowed_transitions cancelled) cancelled "cancel") w in
      let S = Answered id (Is cancelled) in
      let good =
        Succeeds-continue m (λ r. after r (maybe_webhook cfg r false false)) there
          (λ r w1. (r, refl)) in
      let post =
        Post-continue S S m (λ r. after r (maybe_webhook cfg r false false))
          (Post-transition clock id (allowed_transitions cancelled) cancelled "cancel" w refl)
          (λ r w1 p. Post-after (Is cancelled) id cfg r false false w1 p) in
      let q = Post-at S (continue m (λ r. after r (maybe_webhook cfg r false false))) post good.1 in
      let same : Freedom.cancel cfg clock id w
          ≡ continue m (λ r. after r (maybe_webhook cfg r false false)) =
        bind_found w id _ h ∙ rw held refl in
      inl (e, good.0, ap (λ x. x.0) same ∙ good.1, ap (λ x. find id x.1) same ∙ q.stored, q.fits)
  | inr other ↦ inr (
    λ e. no_both ((status_eq_iff rec.status authorized).1 e) other,
    bind_found w id _ h ∙ rw other refl,
  )
]
