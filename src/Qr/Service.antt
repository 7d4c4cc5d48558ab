-- ===== src/Qr/Service.antt =====
-- internal/application/qr/service.go: the service of QR codes, an action on the store and on the
-- goroutines that have been started and have not run yet. The generator of pictures and of identifiers
-- are code outside the service: what they return is an argument.
use Prim.Native.String.{◌++◌ as str_append}
use chaospay.Prelude.{
  ℕ, zero, suc, ◌⊎◌, inl, inr, String, Bool, true, false, not, ◌||◌, Option, none, some, List, [],
  ◌∷◌, ◌++◌, str_eq, map, if◌then◌else◌,
}
use chaospay.Prelude.Words.{ℤ}
use chaospay.Payment.{Time}
use chaospay.Qr.{Status, new, expired, is_terminal, Code}
use chaospay.Qr.Repo
use chaospay.Qr.Repo.{QrError, QrReply, QrRepo, ok, err, message}

-- A started goroutine.
pub data Task (F : Type 0) : Type 0 where
  auto_expire_of : String → Task F
  maybe_webhook_of : Code F → Task F

pub record World (F : Type 0) : Type 0 where
  pub repo : QrRepo F
  pub spawned : List (Task F)

-- `GenerateInput`
pub record GenerateInput (F : Type 0) : Type 0 where
  pub bin : String
  pub tid : String
  pub mid : String
  pub amount : F
  pub data_type : String

-- `RefundTransaction`
pub record RefundTransaction (F : Type 0) : Type 0 where
  pub reference : String
  pub operation_date : String
  pub amount : F
  pub trn_id : ℤ

abbrev take_text : ℕ → String → String
take_text zero s = ""
take_text (suc n) String.[] = ""
take_text (suc n) (String.◌∷◌ c s) = String.◌∷◌ c (take_text n s)

-- `shortID`. Go counts bytes; an identifier is ASCII.
unfoldable pub short_id : String → String
short_id uuid = take_text 8 uuid

module _ {F : Type 0} where
  unfoldable pub spawn : Task F → World F → World F
  spawn t w = record w { spawned = w.spawned ++ t ∷ [] }

  -- The literal of `Generate`; `no_amount` is the float 0.
  unfoldable pub generated : F → Time → String → String → String → GenerateInput F → Code F
  generated no_amount now uuid url image in_ = record {
    uuid = uuid;
    status = new;
    amount = in_.amount;
    bin = in_.bin;
    tid = in_.tid;
    mid = in_.mid;
    trn_id = ℤ.pos 0;
    trn_date = "";
    qr_base64 = image;
    payment_url = url;
    webhook_sent = false;
    is_refund = str_eq in_.data_type "003";
    refunded_reference = "";
    refunded_parent_trn_id = "";
    refunded_amount = no_amount;
    created_at = now;
  }

  -- `Generate`. `image` is the picture that the generator makes, or the text of its error.
  unfoldable pub generate :
      F → Time → String → String → String ⊎ String → GenerateInput F → World F → QrReply F × World F
  unfolding generated spawn
  generate no_amount now uuid url image in_ w =
      if str_eq in_.bin ""
      then (err (message "bin is missing"), w)
      else if str_eq in_.tid ""
      then (err (message "tid is missing"), w)
      else if str_eq in_.mid ""
      then (err (message "mid is missing"), w)
      else elim image [
        | inl e ↦ (err (message (str_append "generate qr image: " e)), w)
        | inr picture ↦
            let code = generated no_amount now uuid url picture in_ in
            (ok code, spawn (auto_expire_of uuid) (record w { repo = Repo.create now code w.repo }))
      ]

  abbrev pub and_then :
      QrReply F × QrRepo F → (Code F → World F → World F) → World F → QrReply F × World F
  and_then (ok c, r) f w = (ok c, f c (record w { repo = r }))
  and_then (err e, r) f w = (err e, record w { repo = r })

  -- `ChangeStatus`
  unfoldable pub change_status :
      (Time → String) → Time → String → Status → World F → QrReply F × World F
  unfolding spawn
  change_status format now uuid status w =
      and_then (Repo.update_status format now uuid status w.repo)
        (λ c w'. if is_terminal c.status then spawn (maybe_webhook_of c) w' else w') w

  -- `SendWebhook`
  unfoldable pub send_webhook : String → World F → QrReply F × World F
  unfolding spawn
  send_webhook uuid w =
      and_then (Repo.mark_webhook_sent uuid w.repo) (λ c w'. spawn (maybe_webhook_of c) w') w

  -- `ConfirmRefund`
  unfoldable pub confirm_refund :
      (Time → String) → Time → String → String → String → F → World F → QrReply F × World F
  confirm_refund format now uuid reference parent amount w =
      and_then (Repo.apply_refund_confirmation format now uuid reference parent amount w.repo)
        (λ c w'. w') w

  abbrev pub is_over : QrReply F → Bool
  is_over (ok c) = is_terminal c.status
  is_over (err e) = true

  -- `autoExpire`, when its timer fires.
  unfoldable pub auto_expire : (Time → String) → Time → String → World F → World F
  unfolding spawn
  auto_expire format now uuid w =
      if is_over (Repo.get uuid w.repo)
      then w
      else (and_then (Repo.update_status format now uuid expired w.repo)
          (λ c w'. spawn (maybe_webhook_of c) w') w).1

  -- What `maybeWebhook` sends, for a client that is there or not.
  unfoldable pub maybe_webhook : Bool → Code F → Option (Code F)
  maybe_webhook has_client c = if not has_client || not (is_terminal c.status) then none else some c

  -- `ListRefundTransactions`
  unfoldable pub list_refund_transactions :
      (List (Code F) → List (Code F))
      → String
      → String
      → String
      → World F
      → List (RefundTransaction F)
  unfolding short_id
  list_refund_transactions order bin tid mid w =
      map
        (λ (p : Code F). record {
          reference = str_append "ref-" (short_id p.uuid);
          operation_date = p.trn_date;
          amount = p.amount;
          trn_id = p.trn_id;
        })
        (Repo.list_successful_payments order bin tid mid w.repo)
