-- ===== src/Qr.antt =====
-- internal/domain/qr/qrcode.go: the codes of QR-PAY. The program only copies amounts (`float64`), so
-- their type is a parameter.
pub mod Repo
pub mod Service
pub mod Finality
pub mod Machine
mod Tests
use chaospay.Prelude.{String, Bool, true, false}
use chaospay.Prelude.Words.{ℤ}
use chaospay.Payment.{Time}

-- `unset` is Go's empty text.
pub data Status : Type 0 where
  unset new scanned success expired cancelled error : Status

-- `==` on statuses.
unfoldable pub status_eq : Status → Status → Bool
status_eq unset unset = true
status_eq new new = true
status_eq scanned scanned = true
status_eq success success = true
status_eq expired expired = true
status_eq cancelled cancelled = true
status_eq error error = true
status_eq _ _ = false

-- `Status.IsTerminal`
unfoldable pub is_terminal : Status → Bool
is_terminal success = true
is_terminal expired = true
is_terminal cancelled = true
is_terminal error = true
is_terminal _ = false

-- `Code`
pub record Code (F : Type 0) : Type 0 where
  pub uuid : String
  pub status : Status
  pub amount : F
  pub bin : String
  pub tid : String
  pub mid : String
  pub trn_id : ℤ
  pub trn_date : String
  pub qr_base64 : String
  pub payment_url : String
  pub webhook_sent : Bool
  pub is_refund : Bool
  pub refunded_reference : String
  pub refunded_parent_trn_id : String
  pub refunded_amount : F
  pub created_at : Time
