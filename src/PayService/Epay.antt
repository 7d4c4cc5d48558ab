-- ===== src/PayService/Epay.antt =====
-- internal/application/pay/epay.go: the payments of Halyk Epay.
mod Records
unfoldable pub use Records.*
use Prim.Native.String.{◌++◌ as str_append}
use chaospay.Prelude.{
  ℕ, ◌+◌, String, Bool, true, false, not, ◌&&◌, ◌||◌, List, [], ◌∷◌, str_eq, if◌then◌else◌,
}
use chaospay.Prelude.Words.{ℤ, add64, sub64, to_uint, is_neg, is_nonpos}
use chaospay.Prelude.Decimal.{decimal}
use chaospay.Bank.{Bank, bank_eq}
use chaospay.Payment.{
  Time, unset, new, authorized, captured, cancelled, failed, status_eq, Kind, epay_card, epay_pay,
  epay_apple_pay, epay_google_pay, epay_bind, Record, epay_hidden, zero_record, no_card, no_epay,
  allowed_transitions,
}
use chaospay.Payment.Repo.{
  invalid_state, message, wrapped, Reply, ok, err, ok_err, Clock, Verdict, move, refuse,
  next_payment_id, create, update, plain, transition, list_records,
}
use chaospay.PayService.{World, Exec, ◌>>=◌, answer, in_repo, fetch, reference_base, default_str}
use chaospay.PayService.Freedom.{set_captured, add_refund, is_refundable}

-- `buildEpayRecord`: the number is taken, and nothing is stored yet.
unfoldable pub build_epay_record : EpayAuthorizeInput → Exec
unfolding is_bad_amount epay_record
build_epay_record in_ w =
    if is_bad_amount in_
    then (err (message "amount must be positive"), w)
    else let (id, repo) = next_payment_id w.repo in
      (ok (epay_record in_ id), record w { repo = repo })

-- `repo.Create(rec)`, and the record as its pointer shows it afterwards.
abbrev pub store_new : Time → Record → Exec
store_new now rec w =
    let (stored, repo) = create now rec w.repo in (ok stored, record w { repo = repo })

-- `newEpayRecord`
unfoldable pub new_epay_record : Clock → EpayAuthorizeInput → Exec
unfolding build_epay_record
new_epay_record clock in_ = do rec ← build_epay_record in_; store_new (clock 4) rec

-- `fmt.Errorf("…: %w", err)`
abbrev pub wrap : String → Reply × World → Reply × World
wrap text (ok rec, w) = (ok rec, w)
wrap text (err e, w) = (err (wrapped text e), w)
wrap text (ok_err rec e, w) = (err (wrapped text e), w)

-- `EpayAuthorize`
unfoldable pub epay_authorize : Clock → EpayAuthorizeInput → Exec
unfolding new_epay_record
epay_authorize clock in_ = do
  rec ← new_epay_record clock in_
  if in_.requires_3ds then answer (ok rec) else λ w. wrap "authorize transition" (
      in_repo
        (transition clock rec.payment_id (allowed_transitions authorized) authorized
          "epay authorize")
        w)

-- What `EpayLateOperation` sets before it stores the record.
unfoldable pub late_record : Clock → Bool → Time → Record → Record
late_record clock is_captured visible_at rec =
    let held = record rec {
      epay = record rec.epay { visible_at = visible_at };
      status = authorized;
      authorized_at = clock 0;
    } in
    if is_captured
    then record held { status = captured; captured_at = clock 0; captured_amount = rec.amount }
    else held

-- `EpayLateOperation`
unfoldable pub epay_late_operation : Clock → EpayAuthorizeInput → Bool → Time → Exec
unfolding build_epay_record late_record
epay_late_operation clock in_ is_captured visible_at = do
  rec ← build_epay_record in_
  stored ← store_new (clock 1) (late_record clock is_captured visible_at rec)
  fetch stored.payment_id

-- The callback of `EpayReveal`.
unfoldable pub reveal_fn : Record → Record × Verdict
unfolding bank_eq
reveal_fn r =
    if not (bank_eq r.bank Bank.epay)
    then (r, refuse invalid_state)
    else (record r { epay = record r.epay { visible_at = 0 } }, move unset "")

-- `EpayReveal`
unfoldable pub epay_reveal : Clock → ℕ → Exec
unfolding reveal_fn
epay_reveal clock id = in_repo (update (clock 0) id (plain reveal_fn))

unfoldable pub is_hidden_of : Time → String → Record → Bool
unfolding bank_eq epay_hidden
is_hidden_of now invoice_id rec =
    bank_eq rec.bank Bank.epay && str_eq rec.epay.invoice_id invoice_id && epay_hidden now rec

abbrev pub count_ok : Reply → ℕ
count_ok (ok rec) = 1
count_ok _ = 0

-- The loop of `EpayRevealInvoice` over the listed copies.
unfoldable pub reveal_all : Clock → String → List Record → World → ℕ × World
unfolding is_hidden_of epay_reveal
reveal_all clock invoice_id [] w = (0, w)
reveal_all clock invoice_id (rec ∷ rest) w =
    let after = reveal_all clock invoice_id rest (epay_reveal clock rec.payment_id w).1 in
    let skipped = reveal_all clock invoice_id rest w in
    if is_hidden_of (clock 0) invoice_id rec
    then (count_ok (epay_reveal clock rec.payment_id w).0 + after.0, after.1)
    else skipped

-- `EpayRevealInvoice`, for the order of the range over the map.
unfoldable pub epay_reveal_invoice :
    (List Record → List Record) → Clock → String → World → ℕ × World
unfolding reveal_all
epay_reveal_invoice order clock invoice_id w =
    reveal_all clock invoice_id (list_records order w.repo) w

-- The callback of `EpayDecline`.
unfoldable pub decline_fn : ℤ → String → Record → Record × Verdict
decline_fn code reason r = (
  record r { epay = record r.epay { decline_code = code; decline_reason = reason } },
  move failed "epay decline",
)

-- `EpayDecline`
unfoldable pub epay_decline : Clock → EpayAuthorizeInput → ℤ → String → Exec
unfolding new_epay_record decline_fn
epay_decline clock in_ code reason = do
  rec ← new_epay_record clock in_
  λ w.
      wrap "decline transition"
        (in_repo (update (clock 0) rec.payment_id (plain (decline_fn code reason))) w)

-- `EpayCharge`
unfoldable pub epay_charge : Clock → ℕ → ℤ → Exec
unfolding bank_eq status_eq
epay_charge clock id amount = do
  rec ← fetch id
  if not (bank_eq rec.bank Bank.epay)
      then answer (err invalid_state)
      else if not (status_eq rec.status authorized)
      then answer (err invalid_state)
      else in_repo (
          update (clock 0) id (
            plain (
              set_captured (if is_nonpos amount then rec.amount else to_uint amount)
                "epay charge")))

-- `EpayCancel`
unfoldable pub epay_cancel : Clock → ℕ → Exec
unfolding bank_eq status_eq
epay_cancel clock id = do
  rec ← fetch id
  if not (bank_eq rec.bank Bank.epay)
      then answer (err invalid_state)
      else if not (status_eq rec.status authorized)
      then answer (err invalid_state)
      else in_repo (transition clock id (allowed_transitions cancelled) cancelled "epay cancel")

-- `EpayRefund`
unfoldable pub epay_refund : Clock → ℕ → ℤ → Exec
unfolding bank_eq add_refund
epay_refund clock id amount = do
  rec ← fetch id
  if not (bank_eq rec.bank Bank.epay)
      then answer (err invalid_state)
      else if not (is_refundable rec.status)
      then answer (err invalid_state)
      else in_repo (
          update (clock 0) id (
            plain (
              add_refund
                (if is_nonpos amount
                  then sub64 rec.captured_amount rec.refunded_amount
                  else to_uint amount)
                "epay refund full" "epay refund partial")))
