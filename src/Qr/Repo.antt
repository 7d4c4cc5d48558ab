-- ===== src/Qr/Repo.antt =====
-- internal/infrastructure/memstore/qr.go: the store of QR codes. `format` is `time.Time.Format` with the
-- layout of the source, and Go's order of ranging over the map is an argument.
use chaospay.Prelude.{
  ℕ, String, Bool, true, not, ◌&&◌, ◌||◌, none, some, List, [], ◌∷◌, ltb, str_eq, select,
  if◌then◌else◌,
}
use chaospay.Prelude.Words.{add64, to_int}
use chaospay.Prelude.Assoc.{Assoc, lookup, insert, values, string_eq}
use chaospay.Payment.{Time, is_zero_time}
use chaospay.Payment.Repo.{unix_milli}
use chaospay.Qr.{Status, unset, new, scanned, success, status_eq, is_terminal, Code}

pub data QrError : Type 0 where
  qr_not_found qr_terminal refund_already_confirmed refund_not_scanned not_refund_qr : QrError
  message : String → QrError

-- `(*qr.Code, error)`
pub data QrReply (F : Type 0) : Type 0 where
  ok : Code F → QrReply F
  err : QrError → QrReply F

-- `QRRepo`
pub record QrRepo (F : Type 0) : Type 0 where
  pub store : Assoc String (Code F)
  pub trn_counter : ℕ

module _ {F : Type 0} where
  -- `NewQRRepo`
  unfoldable pub new_qr_repo : QrRepo F
  new_qr_repo = record { store = []; trn_counter = 0 }

  -- `Create`
  unfoldable pub create : Time → Code F → QrRepo F → QrRepo F
  unfolding status_eq
  create now code r =
      let stored = record code {
        created_at = if is_zero_time code.created_at then now else code.created_at;
        status = if status_eq code.status unset then new else code.status;
      } in
      record r { store = insert code.uuid stored r.store }

  -- `Get`
  unfoldable pub get : String → QrRepo F → QrReply F
  get uuid r = elim (lookup uuid r.store) [ none ↦ err qr_not_found | some c ↦ ok c ]

  -- The number and the date of a transaction that succeeds now, under a new value of the counter.
  abbrev with_trn : (Time → String) → Time → ℕ → Code F → Code F
  with_trn format now counter c = record c {
    trn_id = to_int (add64 (unix_milli now) counter);
    trn_date = format now;
  }

  -- `UpdateStatus`
  unfoldable pub update_status :
      (Time → String) → Time → String → Status → QrRepo F → QrReply F × QrRepo F
  unfolding status_eq to_int
  update_status format now uuid status r = elim (lookup uuid r.store) [
    | none ↦ (err qr_not_found, r)
    | some c ↦
        if is_terminal c.status
        then (err qr_terminal, r)
        else let c' = record c { status = status } in
          if status_eq status success
          then (let counter = add64 r.trn_counter 1 in
              let c'' = with_trn format now counter c' in
              (ok c'', record { store = insert uuid c'' r.store; trn_counter = counter }))
          else (ok c', record r { store = insert uuid c' r.store })
  ]

  -- `MarkWebhookSent`
  unfoldable pub mark_webhook_sent : String → QrRepo F → QrReply F × QrRepo F
  mark_webhook_sent uuid r = elim (lookup uuid r.store) [
    | none ↦ (err qr_not_found, r)
    | some c ↦
        if not (is_terminal c.status)
        then (err qr_terminal, r)
        else let c' = record c { webhook_sent = true } in
          (ok c', record r { store = insert uuid c' r.store })
  ]

  -- `sort.Slice` by `CreatedAt`, newest first.
  insert_newest : Code F → List (Code F) → List (Code F)
  insert_newest x [] = x ∷ []
  insert_newest x (y ∷ ys) =
      let rest = insert_newest x ys in
      if ltb x.created_at y.created_at then y ∷ rest else x ∷ y ∷ ys

  sort_newest : List (Code F) → List (Code F)
  unfolding insert_newest
  sort_newest [] = []
  sort_newest (x ∷ xs) = insert_newest x (sort_newest xs)

  -- `List`
  unfoldable pub list : (List (Code F) → List (Code F)) → QrRepo F → List (Code F)
  unfolding sort_newest
  list order r = sort_newest (order (values r.store))

  -- `Reset`
  unfoldable pub reset : QrRepo F → QrRepo F
  reset r = record r { store = [] }

  -- The tests of the loop of `ListSuccessfulPayments`.
  unfoldable pub is_paid_at : String → String → String → Code F → Bool
  unfolding status_eq
  is_paid_at bin tid mid c =
      not (c.is_refund || not (status_eq c.status success))
      && not (not (str_eq c.bin bin) || not (str_eq c.tid tid) || not (str_eq c.mid mid))

  -- `ListSuccessfulPayments`
  unfoldable pub list_successful_payments :
      (List (Code F) → List (Code F)) → String → String → String → QrRepo F → List (Code F)
  unfolding is_paid_at sort_newest
  list_successful_payments order bin tid mid r =
      sort_newest (select (is_paid_at bin tid mid) (order (values r.store)))

  -- What `ApplyRefundConfirmation` writes.
  unfoldable pub confirmed : (Time → String) → Time → ℕ → String → String → F → Code F → Code F
  unfolding to_int
  confirmed format now counter reference parent amount c =
      record (with_trn format now counter (record c { status = success })) {
        amount = amount;
        refunded_reference = reference;
        refunded_parent_trn_id = parent;
        refunded_amount = amount;
      }

  -- `ApplyRefundConfirmation`
  unfoldable pub apply_refund_confirmation :
      (Time → String) → Time → String → String → String → F → QrRepo F → QrReply F × QrRepo F
  unfolding status_eq confirmed
  apply_refund_confirmation format now uuid reference parent amount r = elim (lookup uuid r.store) [
    | none ↦ (err qr_not_found, r)
    | some c ↦
        if not c.is_refund
        then (err not_refund_qr, r)
        else if status_eq c.status success
        then (err refund_already_confirmed, r)
        else if not (status_eq c.status scanned)
        then (err refund_not_scanned, r)
        else let counter = add64 r.trn_counter 1 in
          let c' = confirmed format now counter reference parent amount c in
          (ok c', record { store = insert uuid c' r.store; trn_counter = counter })
  ]
