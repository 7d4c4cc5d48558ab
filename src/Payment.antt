-- ===== src/Payment.antt =====
-- internal/domain/pay/payment.go: statuses, kinds, records and refunds of card payments.
-- `unset` is Go's empty text. `time.Time` is a number of nanoseconds since Go's zero instant, so
-- `IsZero` is a test against 0. Fields that the source marks as one bank's are grouped.
pub mod Repo
pub mod Diagram
pub mod Evolution
use chaospay.Prelude.{
  ℕ, zero, suc, ◌+◌, String, Bool, true, false, not, ◌&&◌, Option, none, some, List, [], ◌∷◌, ◌==◌,
  ltb, str_eq, if◌then◌else◌,
}
use chaospay.Prelude.Words.{ℤ}
use chaospay.Bank.{Bank}

abbrev pub Time : Type 0
Time = ℕ

abbrev pub is_zero_time : Time → Bool
is_zero_time t = t == 0

pub data Status : Type 0 where
  unset new hold_pending authorized captured cancelled refunded partial_refunded failed : Status

-- `==` on statuses.
unfoldable pub status_eq : Status → Status → Bool
status_eq unset unset = true
status_eq new new = true
status_eq hold_pending hold_pending = true
status_eq authorized authorized = true
status_eq captured captured = true
status_eq cancelled cancelled = true
status_eq refunded refunded = true
status_eq partial_refunded partial_refunded = true
status_eq failed failed = true
status_eq _ _ = false

-- The text of a status constant.
abbrev pub status_text : Status → String
status_text unset = ""
status_text new = "NEW"
status_text hold_pending = "HOLD_PENDING"
status_text authorized = "AUTHORIZED"
status_text captured = "CAPTURED"
status_text cancelled = "CANCELLED"
status_text refunded = "REFUNDED"
status_text partial_refunded = "PARTIAL_REFUNDED"
status_text failed = "FAILED"

-- `Status.IsTerminal`
unfoldable pub is_terminal : Status → Bool
is_terminal captured = true
is_terminal cancelled = true
is_terminal refunded = true
is_terminal failed = true
is_terminal _ = false

pub data Kind : Type 0 where
  no_kind card hosted apple_pay google_pay bind : Kind
  epay_card epay_pay epay_apple_pay epay_google_pay epay_bind : Kind
  flitt_checkout flitt_apple_pay flitt_google_pay flitt_recurring flitt_bind : Kind

pub record HistoryEntry : Type 0 where
  pub at : Time
  pub from : Status
  pub to : Status
  pub reason : String

pub data RefundStatus : Type 0 where
  refund_success refund_error refund_process : RefundStatus

abbrev pub refund_status_text : RefundStatus → String
refund_status_text refund_success = "success"
refund_status_text refund_error = "error"
refund_status_text refund_process = "process"

pub record RefundOp : Type 0 where
  pub payment_id : ℕ
  pub reference : ℕ
  pub amount : ℤ
  pub status : RefundStatus
  pub date : Time

-- `RefundOp.IsSuccessful`
unfoldable pub is_successful : RefundOp → Bool
is_successful o = elim o.status [ refund_success ↦ true | _ ↦ false ]

pub record Card : Type 0 where
  pub token : String
  pub pan : String
  pub owner : String
  pub brand : String
  pub exp : String
  pub month : String
  pub year : String

pub record EpayData : Type 0 where
  pub id : String
  pub invoice_id : String
  pub card_id : String
  pub account_id : String
  pub client_id : String
  pub terminal_id : String
  pub callback_url : String
  pub failure_callback_url : String
  pub payment_type : String
  pub decline_code : ℤ
  pub decline_reason : String
  pub visible_at : Time

pub record FlittData : Type 0 where
  pub payment_id : ℤ
  pub rectoken : String
  pub approval_code : String
  pub rrn : String
  pub callback_url : String
  pub response_url : String
  pub merchant_data : String
  pub checkout_url : String
  pub is_verify : Bool
  pub pareq : String
  pub md : String
  pub acs_url : String

pub record Record : Type 0 where
  pub bank : Bank
  pub payment_id : ℕ
  pub order_id : ℕ
  pub merchant_id : ℕ
  pub terminal_id : ℤ
  pub cabinet_id : ℤ
  pub user_id : ℕ
  pub kind : Kind
  pub amount : ℕ
  pub currency : String
  pub captured_amount : ℕ
  pub refunded_amount : ℕ
  pub reference : ℕ
  pub description : String
  pub idempotency_key : String
  pub card : Card
  pub user_phone : String
  pub user_email : String
  pub hosted_redirect_url : String
  pub bind_redirect_url : String
  pub epay : EpayData
  pub flitt : FlittData
  pub refunds : List RefundOp
  pub status : Status
  pub last_error : String
  pub history : List HistoryEntry
  pub webhook_sent : Bool
  pub created_at : Time
  pub authorized_at : Time
  pub captured_at : Time

-- `Record.EpayHidden`
unfoldable pub epay_hidden : Time → Record → Bool
epay_hidden now r = not (is_zero_time r.epay.visible_at) && ltb now r.epay.visible_at

-- A key that a Go map lacks reads as `false`.
abbrev pub StatusSet : Type 0
StatusSet = Status → Bool

-- `AllowedTransitions`; `none` is the nil map.
unfoldable pub allowed_transitions : Status → Option StatusSet
allowed_transitions authorized = some (elim [ new ↦ true | hold_pending ↦ true | _ ↦ false ])
allowed_transitions captured = some (elim [ authorized ↦ true | _ ↦ false ])
allowed_transitions cancelled = some (elim [ authorized ↦ true | _ ↦ false ])
allowed_transitions refunded = some (elim [ captured ↦ true | partial_refunded ↦ true | _ ↦ false ])
allowed_transitions partial_refunded =
    some (elim [ captured ↦ true | partial_refunded ↦ true | _ ↦ false ])
allowed_transitions _ = none

-- The values that a composite literal leaves out.
abbrev pub no_card : Card
no_card = record { token = ""; pan = ""; owner = ""; brand = ""; exp = ""; month = ""; year = "" }

abbrev pub no_epay : EpayData
no_epay = record {
  id = "";
  invoice_id = "";
  card_id = "";
  account_id = "";
  client_id = "";
  terminal_id = "";
  callback_url = "";
  failure_callback_url = "";
  payment_type = "";
  decline_code = ℤ.pos 0;
  decline_reason = "";
  visible_at = 0;
}

abbrev pub no_flitt : FlittData
no_flitt = record {
  payment_id = ℤ.pos 0;
  rectoken = "";
  approval_code = "";
  rrn = "";
  callback_url = "";
  response_url = "";
  merchant_data = "";
  checkout_url = "";
  is_verify = false;
  pareq = "";
  md = "";
  acs_url = "";
}

abbrev pub zero_record : Record
zero_record = record {
  bank = Bank.any;
  payment_id = 0;
  order_id = 0;
  merchant_id = 0;
  terminal_id = ℤ.pos 0;
  cabinet_id = ℤ.pos 0;
  user_id = 0;
  kind = no_kind;
  amount = 0;
  currency = "";
  captured_amount = 0;
  refunded_amount = 0;
  reference = 0;
  description = "";
  idempotency_key = "";
  card = no_card;
  user_phone = "";
  user_email = "";
  hosted_redirect_url = "";
  bind_redirect_url = "";
  epay = no_epay;
  flitt = no_flitt;
  refunds = [];
  status = unset;
  last_error = "";
  history = [];
  webhook_sent = false;
  created_at = 0;
  authorized_at = 0;
  captured_at = 0;
}
