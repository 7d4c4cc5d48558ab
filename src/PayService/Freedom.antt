-- ===== src/PayService/Freedom.antt =====
-- internal/application/pay/service.go: the payments of Freedom Pay and the wallets, and the panel's force
-- action.
mod Creation
unfoldable pub use Creation.*
use Prim.Native.String.{◌++◌ as str_append}
use chaospay.Prelude.{
  ℕ, ◌%◌, String, Bool, true, false, not, ◌&&◌, ◌||◌, [], ◌∷◌, ◌++◌, ◌==◌, leb, str_eq,
  if◌then◌else◌,
}
use chaospay.Prelude.Words.{ℤ, add64, sub64, neg_int}
use chaospay.Prelude.Decimal.{decimal, decimal_padded, hex_padded}
use chaospay.Payment.{
  Status, new, authorized, captured, cancelled, refunded, partial_refunded, status_eq, status_text,
  Kind, no_kind, card, hosted, bind, RefundStatus, refund_success, refund_status_text, Record,
  zero_record, no_card, allowed_transitions,
}
use chaospay.Payment.Repo.{
  already_authorized, invalid_state, message, ok, err, ok_err, Clock, next_payment_id, create,
  update, plain, Verdict, move, transition,
}
use chaospay.PayService.{
  ServiceConfig, Exec, ◌>>=◌, answer, in_repo, fetch, after, reference_base, default_str,
  ensure_reference, maybe_webhook, send_auto_webhook_for_record,
}

-- `Hold`
unfoldable pub hold : ServiceConfig → Clock → ℕ → Exec
unfolding status_eq
hold cfg clock id = do
  rec ← fetch id
  if status_eq rec.status authorized || status_eq rec.status captured
      then answer (ok_err rec already_authorized)
      else do
        updated ← in_repo (transition clock id (allowed_transitions authorized) authorized "hold")
        updated' ← ensure_reference clock id updated
        after updated' (maybe_webhook cfg updated' true false)

-- The callback of `Capture`.
abbrev pub set_captured : ℕ → String → Record → Record × Verdict
set_captured target reason r = (record r { captured_amount = target }, move captured reason)

-- `Capture` after its check: the second of the two critical sections.
unfoldable pub capture_commit : ServiceConfig → Clock → ℕ → ℕ → Record → Exec
capture_commit cfg clock id clearing rec = do
  updated ← in_repo (
      update (clock 0) id
        (plain (set_captured (if clearing == 0 then rec.amount else clearing) "capture")))
  after updated (maybe_webhook cfg updated true true)

-- `Capture`
unfoldable pub capture : ServiceConfig → Clock → ℕ → ℕ → Exec
unfolding status_eq capture_commit
capture cfg clock id clearing = do
  rec ← fetch id
  if not (status_eq rec.status authorized)
      then answer (err invalid_state)
      else capture_commit cfg clock id clearing rec

-- `Cancel`
unfoldable pub cancel : ServiceConfig → Clock → ℕ → Exec
unfolding status_eq
cancel cfg clock id = do
  rec ← fetch id
  if not (status_eq rec.status authorized) then answer (err invalid_state) else do
    updated ← in_repo (transition clock id (allowed_transitions cancelled) cancelled "cancel")
    after updated (maybe_webhook cfg updated false false)

-- What a refund does to the sums, and the status it leaves: full or partial.
unfoldable pub add_refund : ℕ → String → String → Record → Record × Verdict
add_refund delta full partial r =
    let total = add64 r.refunded_amount delta in
    (
      record r { refunded_amount = total },
      if leb r.captured_amount total then move refunded full else move partial_refunded partial,
    )

abbrev pub is_refund_success : RefundStatus → Bool
is_refund_success refund_success = true
is_refund_success _ = false

-- The callback of `RevokeWithOutcome`.
unfoldable pub revoke_fn : Clock → ℕ → ℕ → RefundStatus → Record → Record × Verdict
unfolding add_refund neg_int
revoke_fn clock refund_id delta outcome r =
    let r' = record r {
      refunds =
          r.refunds
          ++ record {
            payment_id = refund_id;
            reference = add64 reference_base refund_id;
            amount = neg_int delta;
            status = outcome;
            date = clock 0;
          }
            ∷ [];
    } in
    if not (is_refund_success outcome)
    then (r', move r.status (str_append "revoke " (refund_status_text outcome)))
    else add_refund delta "revoke full" "revoke partial" r'

-- The amount of a refund: what is left, if the request names none.
unfoldable pub refund_delta : ℕ → Record → ℕ
refund_delta amount rec =
    if amount == 0 then sub64 rec.captured_amount rec.refunded_amount else amount

abbrev pub is_refundable : Status → Bool
is_refundable captured = true
is_refundable partial_refunded = true
is_refundable _ = false

-- `RevokeWithOutcome`
unfoldable pub revoke_with_outcome : ServiceConfig → Clock → ℕ → ℕ → RefundStatus → Exec
unfolding refund_delta revoke_fn
revoke_with_outcome cfg clock id refund_amount outcome = do
  rec ← fetch id
  if not (is_refundable rec.status) then answer (err invalid_state) else λ w.
      let (refund_id, repo) = next_payment_id w.repo in
      (do
        updated ← in_repo (
            update (clock 1) id
              (plain (revoke_fn clock refund_id (refund_delta refund_amount rec) outcome)))
        after updated (maybe_webhook cfg updated false false))
        (record w { repo = repo })

-- `Revoke`
unfoldable pub revoke : ServiceConfig → Clock → ℕ → ℕ → Exec
unfolding revoke_with_outcome
revoke cfg clock id refund_amount = revoke_with_outcome cfg clock id refund_amount refund_success

abbrev pub is_kind_set : Kind → Bool
is_kind_set no_kind = false
is_kind_set _ = true

-- The callback of `AuthorizeWallet`.
abbrev pub set_kind : Kind → Record → Record × Verdict
set_kind kind r = (record r { kind = kind }, move r.status "")

-- `AuthorizeWallet`. Go drops the error of the second `Update`; the transition in front of it has
-- found the key, so that error is no outcome of a call that runs alone.
unfoldable pub authorize_wallet : ServiceConfig → Clock → ℕ → Kind → Exec
authorize_wallet cfg clock id kind = do
  rec ← fetch id
  updated ← in_repo (transition clock id (allowed_transitions authorized) authorized "wallet pay")
  updated' ←
      if is_kind_set kind
      then in_repo (update (clock 4) id (plain (set_kind kind)))
      else answer (ok updated)
  updated'' ← ensure_reference clock id updated'
  after updated'' (maybe_webhook cfg updated'' true false)

-- The callback of `ApplyForce`.
unfoldable pub force_fn : Status → Record → Record × Verdict
force_fn target r =
    let r' =
      if status_eq target captured && r.captured_amount == 0
      then record r { captured_amount = r.amount }
      else r in
    (
      if status_eq target refunded then record r' { refunded_amount = r'.captured_amount } else r',
      move target (str_append "panel force " (status_text target)),
    )

-- `ApplyForce`
unfoldable pub apply_force : ServiceConfig → Clock → ℕ → Status → Exec
unfolding status_eq force_fn
apply_force cfg clock id target = do
  updated ← in_repo (update (clock 0) id (plain (force_fn target)))
  updated' ←
      if status_eq target authorized || status_eq target captured
      then ensure_reference clock id updated
      else answer (ok updated)
  after updated' (
      send_auto_webhook_for_record cfg updated'
        (status_eq target authorized || status_eq target captured) (status_eq target captured))
