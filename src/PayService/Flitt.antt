-- ===== src/PayService/Flitt.antt =====
-- internal/application/pay/flitt.go: the payments of Flitt.
mod Records
unfoldable pub use Records.*
use Prim.Native.String.{◌++◌ as str_append}
use chaospay.Prelude.{
  ℕ, ◌%◌, String, Bool, not, ◌&&◌, none, some, List, ◌==◌, str_eq, find_first, if◌then◌else◌,
}
use chaospay.Prelude.Words.{ℤ, add64, to_int}
use chaospay.Prelude.Decimal.{decimal, decimal_padded, parse_uint}
use chaospay.Bank.{Bank, bank_eq}
use chaospay.Flitt.{
  CardOutcome, approved, approved_3ds, declined, declined_3ds, insufficient_funds, unknown_card,
  outcome_text,
}
use chaospay.Payment.{
  Status, new, authorized, captured, cancelled, partial_refunded, failed, status_eq, flitt_checkout,
  flitt_apple_pay, flitt_google_pay, flitt_recurring, flitt_bind, Record, zero_record, no_card,
  no_flitt, allowed_transitions,
}
use chaospay.Payment.Repo.{
  invalid_state, flitt_declined, flitt_not_found, message, Reply, ok, err, ok_err, Clock, Verdict,
  move, get, update, plain, transition, list_records,
}
use chaospay.PayService.{World, Exec, ◌>>=◌, answer, in_repo, fetch, reference_base, default_str}
use chaospay.PayService.Freedom.{create_fresh, set_captured, add_refund, refund_delta}
use chaospay.PayService.Epay.{wrap}

-- `FlittCheckout`
unfoldable pub flitt_checkout_url : Clock → FlittCheckoutInput → Exec
unfolding create_fresh flitt_checkout_record
flitt_checkout_url clock in_ =
    if in_.amount == 0
    then answer (err (message "amount must be positive"))
    else if in_.order_id == 0
    then answer (err (message "order_id is required"))
    else create_fresh clock (flitt_checkout_record in_)

-- `if outcome == "" || outcome == OutcomeUnknownCard { outcome = OutcomeApproved }`
unfoldable pub effective_outcome : CardOutcome → CardOutcome
effective_outcome CardOutcome.unset = approved
effective_outcome unknown_card = approved
effective_outcome outcome = outcome

-- The callbacks of `applyFlittOutcome`.
unfoldable pub challenge_fn : Record → Record × Verdict
challenge_fn r = (
  record r {
    flitt = record r.flitt {
      acs_url = "https://chaospay.local/3ds/challenge";
      pareq = str_append "mock-pareq-" (decimal r.payment_id);
      md = str_append "mock-md-" (decimal r.payment_id);
    };
  },
  move r.status "",
)

unfoldable pub flitt_decline_fn : CardOutcome → Record → Record × Verdict
flitt_decline_fn outcome r =
    (record r { last_error = outcome_text outcome }, move failed "flitt declined")

-- `return updated, ErrFlittDeclined`
abbrev pub as_declined : Reply × World → Reply × World
as_declined (ok rec, w) = (ok_err rec flitt_declined, w)
as_declined (err e, w) = (err e, w)
as_declined (ok_err rec e, w) = (err e, w)

-- `applyFlittOutcome`
unfoldable pub apply_flitt_outcome : Clock → CardOutcome → Record → Exec
unfolding challenge_fn flitt_decline_fn
apply_flitt_outcome clock approved rec w = wrap "flitt outcome authorize" (
    in_repo
      (transition clock rec.payment_id (allowed_transitions authorized) authorized
        "flitt authorize")
      w)
apply_flitt_outcome clock approved_3ds rec w =
    wrap "flitt outcome 3ds" (in_repo (update (clock 4) rec.payment_id (plain challenge_fn)) w)
apply_flitt_outcome clock declined_3ds rec w =
    wrap "flitt outcome 3ds" (in_repo (update (clock 4) rec.payment_id (plain challenge_fn)) w)
apply_flitt_outcome clock declined rec w = as_declined (
    wrap "flitt outcome decline"
      (in_repo (update (clock 4) rec.payment_id (plain (flitt_decline_fn declined))) w))
apply_flitt_outcome clock insufficient_funds rec w = as_declined (
    wrap "flitt outcome decline"
      (in_repo (update (clock 4) rec.payment_id (plain (flitt_decline_fn insufficient_funds))) w))
apply_flitt_outcome clock _ rec w = (ok rec, w)

-- `FlittDirect`. The pointer that `Create` stored goes on to `applyFlittOutcome`; the reading of the
-- clock at its creation is number 5.
unfoldable pub flitt_direct : Clock → FlittDirectInput → Exec
unfolding create_fresh flitt_direct_record effective_outcome apply_flitt_outcome
flitt_direct clock in_ =
    if in_.amount == 0 then answer (err (message "amount must be positive")) else do
      rec ← create_fresh (λ _. clock 5) (flitt_direct_record in_)
      apply_flitt_outcome clock (effective_outcome in_.outcome) rec

-- `FlittRecurring`
unfoldable pub flitt_recurring_charge : Clock → FlittRecurringInput → Exec
unfolding create_fresh flitt_recurring_record effective_outcome apply_flitt_outcome
flitt_recurring_charge clock in_ =
    if in_.amount == 0
    then answer (err (message "amount must be positive"))
    else if str_eq in_.rectoken ""
    then answer (err (message "rectoken is required"))
    else do
      rec ← create_fresh (λ _. clock 5) (flitt_recurring_record in_)
      apply_flitt_outcome clock (effective_outcome in_.outcome) rec

-- `FlittCapture`
unfoldable pub flitt_capture : Clock → ℕ → ℕ → Exec
unfolding bank_eq status_eq
flitt_capture clock id amount = do
  rec ← fetch id
  if not (bank_eq rec.bank Bank.flitt)
      then answer (err invalid_state)
      else if not (status_eq rec.status authorized)
      then answer (err invalid_state)
      else in_repo (
          update (clock 0) id
            (plain (set_captured (if amount == 0 then rec.amount else amount) "flitt capture")))

-- The `switch` of `FlittReverse`.
unfoldable pub reverse_at : Status → Clock → ℕ → ℕ → Record → Exec
unfolding add_refund refund_delta
reverse_at authorized clock id amount rec =
    in_repo (transition clock id (allowed_transitions cancelled) cancelled "flitt cancel")
reverse_at captured clock id amount rec = in_repo (
    update (clock 0) id
      (plain (add_refund (refund_delta amount rec) "flitt refund full" "flitt refund partial")))
reverse_at partial_refunded clock id amount rec = in_repo (
    update (clock 0) id
      (plain (add_refund (refund_delta amount rec) "flitt refund full" "flitt refund partial")))
reverse_at _ clock id amount rec = answer (err invalid_state)

-- `FlittReverse`
unfoldable pub flitt_reverse : Clock → ℕ → ℕ → Exec
unfolding bank_eq reverse_at
flitt_reverse clock id amount = do
  rec ← fetch id
  if not (bank_eq rec.bank Bank.flitt)
      then answer (err invalid_state)
      else reverse_at rec.status clock id amount rec

-- `FlittStatus`, for the order of the range over the map: first by order, then by payment.
unfoldable pub flitt_status : (List Record → List Record) → String → Exec
unfolding bank_eq
flitt_status order ref w = elim (parse_uint ref) [
  | none ↦ (err flitt_not_found, w)
  | some oid ↦
      elim (find_first (λ r. bank_eq r.bank Bank.flitt && r.order_id == oid)
        (list_records order w.repo)) [
          | some r ↦ (ok r, w)
          | none ↦ elim (get oid w.repo) [
            | ok r ↦ if bank_eq r.bank Bank.flitt then (ok r, w) else (err flitt_not_found, w)
            | _ ↦ (err flitt_not_found, w)
          ]
        ]
]

-- `FlittComplete3DS`
unfoldable pub flitt_complete_3ds : Clock → ℕ → Exec
unfolding bank_eq status_eq
flitt_complete_3ds clock id = do
  rec ← fetch id
  if not (bank_eq rec.bank Bank.flitt)
      then answer (err invalid_state)
      else if not (status_eq rec.status new)
      then answer (ok rec)
      else in_repo
          (transition clock id (allowed_transitions authorized) authorized "flitt 3ds step2")
