-- ===== src/PayService/Evolution/Freedom.antt =====
-- The methods of internal/application/pay/service.go keep the store sound and move payments along
-- the diagram.
use mathlib.Core.Path.{subst}
use Prim.Native.String.{String}
use chaospay.Prelude.{
  ℕ, ◌≡◌, refl, sym, ◌∙◌, ap, Bool, true, false, not, ◌||◌, arith, inl, inr, Bool-cases, ◌==◌,
  if◌then◌else◌, str_eq,
}
use chaospay.Payment.{
  Status, authorized, captured, cancelled, status_eq, Record, RefundStatus, Kind,
  allowed_transitions,
}
use chaospay.Payment.Diagram.{here, one, capture, status_eq_iff}
use chaospay.Payment.Evolution.{Touches, Moves, Moves-refl}
use chaospay.Payment.Repo.Frame.{written}
use chaospay.Payment.Repo.{
  Reply, ok, err, ok_err, Clock, update, plain, move, transition, transition_fn, next_payment_id,
}
use chaospay.PayService.{
  World, ServiceConfig, answer, in_repo, after, ensure_reference, reply_or, fill_reference,
  maybe_webhook,
}
use chaospay.PayService.Freedom
use chaospay.PayService.Freedom.{
  HoldInitInput, HostedInput, BindInput, hold_init, hold_init_record, create_hosted, hosted_record,
  create_bind, bind_record, create_fresh, set_captured, capture_commit, revoke_fn, refund_delta,
  revoke_with_outcome, is_refundable, authorize_wallet, is_kind_set, set_kind,
}
use chaospay.PayService.Evolution.{
  find, IsSound, IsGood, IsGood-refl, IsGood-trans, IsGood-same, IsGood-update, IsGood-in_repo,
  IsGood-bind, IsGood-fetch, IsGood-if, Keeps, HasRoom,
}
use chaospay.PayService.Evolution.Creation.{IsLiteral, IsGood-create_fresh}
use chaospay.PayService.Evolution.Transitions.{
  Moves-authorize, Moves-cancel, Moves-plain, Moves-revoke, fill_reference-Touches,
}

pub repo-maybe_webhook :
    (cfg : ServiceConfig) (rec : Record) (success taken : Bool) (w : World)
    → (maybe_webhook cfg rec success taken w).repo ≡ w.repo
unfolding maybe_webhook
repo-maybe_webhook cfg rec success taken w = ground arith

pub IsGood-after :
    (cfg : ServiceConfig) (rec : Record) (success taken : Bool) (w : World)
    → IsSound w
    → IsGood w (after rec (maybe_webhook cfg rec success taken) w).1
IsGood-after cfg rec success taken w s = IsGood-same s (record {
  by_id = ap (λ r. r.by_id) (repo-maybe_webhook cfg rec success taken w);
  next_id = ap (λ r. r.next_id) (repo-maybe_webhook cfg rec success taken w);
})

pub world-reply_or : (rec : Record) (x : Reply × World) → (reply_or rec x).1 ≡ x.1
world-reply_or rec (ok updated, w) = refl
world-reply_or rec (err e, w) = refl
world-reply_or rec (ok_err updated e, w) = refl

pub IsGood-ensure_reference :
    (clock : Clock) (id : ℕ) (rec : Record) (w : World)
    → IsSound w
    → IsGood w (ensure_reference clock id rec w).1
unfolding ensure_reference
IsGood-ensure_reference clock id rec w s = elim (Bool-cases (not (rec.reference == 0))) [
  | inl has ↦ rw has (IsGood-refl w s)
  | inr lacks ↦ rw lacks (
      subst (IsGood w)
        (sym (
          world-reply_or rec
            (in_repo (update (clock 3) id (plain (λ r. (fill_reference r, move r.status "")))) w)))
        (IsGood-in_repo w (clock 3) id (plain (λ r. (fill_reference r, move r.status ""))) s (λ x h.
          Moves-plain (clock 3) x w.repo.ref_seed (λ r. (fill_reference r, move r.status ""))
            (fill_reference-Touches x) (inr here))))
]

pub IsGood-authorize :
    (clock : Clock) (id : ℕ) (reason : String) (w : World)
    → IsSound w
    → IsGood w
        (in_repo (transition clock id (allowed_transitions authorized) authorized reason) w).1
unfolding transition
IsGood-authorize clock id reason w s =
    IsGood-in_repo w (clock 2) id
      (transition_fn clock (allowed_transitions authorized) authorized reason) s
      (λ rec h. Moves-authorize clock reason rec w.repo.ref_seed)

pub IsGood-cancel :
    (clock : Clock) (id : ℕ) (reason : String) (w : World)
    → IsSound w
    → IsGood w (in_repo (transition clock id (allowed_transitions cancelled) cancelled reason) w).1
unfolding transition
IsGood-cancel clock id reason w s =
    IsGood-in_repo w (clock 2) id
      (transition_fn clock (allowed_transitions cancelled) cancelled reason) s
      (λ rec h. Moves-cancel clock reason rec w.repo.ref_seed)

pub Keeps-hold : (cfg : ServiceConfig) (clock : Clock) (id : ℕ) → Keeps (Freedom.hold cfg clock id)
unfolding Freedom.hold
Keeps-hold cfg clock id = record {
  at = λ w s room. IsGood-fetch w id _ s (λ rec h.
      IsGood-if (status_eq rec.status authorized || status_eq rec.status captured) _ _
        (λ _. IsGood-refl w s)
        (λ _.
          let moved = IsGood-authorize clock id "hold" w s in
          IsGood-bind w
            (in_repo (transition clock id (allowed_transitions authorized) authorized "hold")) _
            moved
            (λ updated _.
              let filled = IsGood-ensure_reference clock id updated _ moved.sound in
              IsGood-bind _ (ensure_reference clock id updated) _ filled
                (λ updated' _. IsGood-after cfg updated' true false _ filled.sound))));
}

-- The callback of a capture, at a payment that is on hold.
pub Moves-capture :
    (clock : Clock) (target : ℕ) (reason : String) (rec : Record) (seed : ℕ)
    → rec.status ≡ authorized
    → Moves rec (written (clock 0) rec.status (plain (set_captured target reason) rec seed))
Moves-capture clock target reason rec seed h =
    Moves-plain (clock 0) rec seed (set_captured target reason) (ground arith)
      (inr (rw h (one capture)))

pub is_held : (s : Status) → not (status_eq s authorized) ≡ false → s ≡ authorized
is_held s h = (status_eq_iff s authorized).0 (ground arith)

pub Keeps-capture :
    (cfg : ServiceConfig) (clock : Clock) (id clearing : ℕ)
    → Keeps (Freedom.capture cfg clock id clearing)
unfolding Freedom.capture
Keeps-capture cfg clock id clearing = record {
  at = λ w s room. IsGood-fetch w id _ s (λ rec h.
      IsGood-if (not (status_eq rec.status authorized)) _ _ (λ _. IsGood-refl w s)
        (λ e.
          let target = if clearing == 0 then rec.amount else clearing in
          let moved =
            IsGood-update w (clock 0) id (plain (set_captured target "capture")) s rec h
              (Moves-capture clock target "capture" rec w.repo.ref_seed (is_held rec.status e)) in
          IsGood-bind w (in_repo (update (clock 0) id (plain (set_captured target "capture")))) _
            moved (λ updated _. IsGood-after cfg updated true true _ moved.sound)));
}

pub Keeps-cancel :
    (cfg : ServiceConfig) (clock : Clock) (id : ℕ) → Keeps (Freedom.cancel cfg clock id)
unfolding Freedom.cancel
Keeps-cancel cfg clock id = record {
  at = λ w s room. IsGood-fetch w id _ s (λ rec h.
      IsGood-if (not (status_eq rec.status authorized)) _ _ (λ _. IsGood-refl w s)
        (λ e.
          let moved = IsGood-cancel clock id "cancel" w s in
          IsGood-bind w
            (in_repo (transition clock id (allowed_transitions cancelled) cancelled "cancel")) _
            moved (λ updated _. IsGood-after cfg updated false false _ moved.sound)));
}

-- A number that is taken and not used.
pub IsGood-next_payment_id :
    (w : World) → IsSound w → HasRoom w → IsGood w (record w { repo = (next_payment_id w.repo).1 })
unfolding next_payment_id
IsGood-next_payment_id w s room = record {
  sound = record {
    at_key = λ k rec h. record {
      key = (s.at_key k rec h).key;
      issued = omega (arith, (s.at_key k rec h).issued);
      linked = (s.at_key k rec h).linked;
    };
  };
  evolves = record {
    payments = λ k rec h. record { now = rec; is_found = h; moves = Moves-refl rec };
    counter = omega arith;
  };
}

pub is_refundable_of : (s : Status) → not (is_refundable s) ≡ false → is_refundable s ≡ true
is_refundable_of s h = ground arith

next_id_keeps :
    (id : ℕ) (w : World) → find id (record w { repo = (next_payment_id w.repo).1 }) ≡ find id w
unfolding next_payment_id
next_id_keeps id w = refl

pub Keeps-revoke :
    (cfg : ServiceConfig) (clock : Clock) (id amount : ℕ) (outcome : RefundStatus)
    → Keeps (revoke_with_outcome cfg clock id amount outcome)
unfolding revoke_with_outcome
Keeps-revoke cfg clock id amount outcome = record {
  at = λ w s room. IsGood-fetch w id _ s (λ rec h.
      IsGood-if (not (is_refundable rec.status)) _ _ (λ _. IsGood-refl w s)
        (λ e.
          let bumped = IsGood-next_payment_id w s room in
          let w' = record w { repo = (next_payment_id w.repo).1 } in
          let fn =
            plain (revoke_fn clock (next_payment_id w.repo).0 (refund_delta amount rec) outcome) in
          let moved = IsGood-update w' (clock 1) id fn bumped.sound rec (next_id_keeps id w ∙ h) (
            Moves-revoke clock (next_payment_id w.repo).0 (refund_delta amount rec) rec (clock 1)
              w'.repo.ref_seed outcome (is_refundable_of rec.status e)) in
          IsGood-trans bumped (
            IsGood-bind w' (in_repo (update (clock 1) id fn)) _ moved
              (λ updated _. IsGood-after cfg updated false false _ moved.sound))));
}

pub hold_init-IsLiteral : (in_ : HoldInitInput) (id : ℕ) → IsLiteral id (hold_init_record in_ id)
unfolding hold_init_record
hold_init-IsLiteral in_ id = record { payment_id = refl; no_history = refl }

pub hosted-IsLiteral : (in_ : HostedInput) (id : ℕ) → IsLiteral id (hosted_record in_ id)
unfolding hosted_record
hosted-IsLiteral in_ id = record { payment_id = refl; no_history = refl }

pub bind-IsLiteral : (in_ : BindInput) (id : ℕ) → IsLiteral id (bind_record in_ id)
unfolding bind_record
bind-IsLiteral in_ id = record { payment_id = refl; no_history = refl }

pub Keeps-hold_init : (clock : Clock) (in_ : HoldInitInput) → Keeps (hold_init clock in_)
unfolding hold_init
Keeps-hold_init clock in_ = record {
  at = λ w s room.
      IsGood-if (str_eq in_.card_token "") _ _ (λ _. IsGood-refl w s)
        (λ _.
          IsGood-if (in_.amount == 0) _ _ (λ _. IsGood-refl w s)
            (λ _.
              IsGood-if (in_.user_id == 0) _ _ (λ _. IsGood-refl w s)
                (λ _.
                  IsGood-create_fresh clock (hold_init_record in_) w (hold_init-IsLiteral in_ _) s
                    room)));
}

pub Keeps-create_hosted : (clock : Clock) (in_ : HostedInput) → Keeps (create_hosted clock in_)
unfolding create_hosted
Keeps-create_hosted clock in_ = record {
  at = λ w s room.
      IsGood-if (in_.order_id == 0 || in_.amount == 0) _ _ (λ _. IsGood-refl w s)
        (λ _. IsGood-create_fresh clock (hosted_record in_) w (hosted-IsLiteral in_ _) s room);
}

pub Keeps-create_bind : (clock : Clock) (in_ : BindInput) → Keeps (create_bind clock in_)
unfolding create_bind
Keeps-create_bind clock in_ = record {
  at = λ w s room.
      IsGood-if (in_.user_id == 0) _ _ (λ _. IsGood-refl w s)
        (λ _. IsGood-create_fresh clock (bind_record in_) w (bind-IsLiteral in_ _) s room);
}

kind-Touches : (k : Kind) (rec : Record) → Touches rec (record rec { kind = k })
kind-Touches k rec = ground arith

pub Keeps-authorize_wallet :
    (cfg : ServiceConfig) (clock : Clock) (id : ℕ) (kind : Kind)
    → Keeps (authorize_wallet cfg clock id kind)
unfolding authorize_wallet
Keeps-authorize_wallet cfg clock id kind = record {
  at = λ w s room. IsGood-fetch w id _ s (λ rec h.
      let moved = IsGood-authorize clock id "wallet pay" w s in
      IsGood-bind w
        (in_repo (transition clock id (allowed_transitions authorized) authorized "wallet pay")) _
        moved
        (λ updated _.
          let set = in_repo (update (clock 4) id (plain (set_kind kind))) in
          let typed =
            IsGood-if (is_kind_set kind) set (answer (ok updated))
              (λ _. IsGood-in_repo _ (clock 4) id (plain (set_kind kind)) moved.sound (λ x _.
                Moves-plain (clock 4) x
                  (in_repo
                    (transition clock id (allowed_transitions authorized) authorized "wallet pay")
                    w).1.repo.ref_seed
                  (set_kind kind) (kind-Touches kind x) (inr here)))
              (λ _. IsGood-refl _ moved.sound) in
          IsGood-bind _ (if is_kind_set kind then set else answer (ok updated)) _ typed
            (λ updated' _.
              let filled = IsGood-ensure_reference clock id updated' _ typed.sound in
              IsGood-bind _ (ensure_reference clock id updated') _ filled
                (λ updated'' _. IsGood-after cfg updated'' true false _ filled.sound))));
}
