-- ===== src/Epay/Handlers/Answers.antt =====
-- internal/ports/api/epay/handlers.go: the answers that are built from a record.
use chaospay.Prelude.{String, Option, none, some, str_eq, if◌then◌else◌}
use chaospay.Prelude.Words.{pos, to_int}
use chaospay.Prelude.Decimal.{decimal}
use chaospay.Prelude.Assoc.{lookup, string_eq}
use chaospay.Payment.{
  Time, Status, new, hold_pending, authorized, captured, cancelled, refunded, partial_refunded,
  failed, Record,
}
use chaospay.Scenario.{Scenario}
use chaospay.Scenario.Params.{param}
use chaospay.Epay.Bodies.{Secure3d, AuthorizeResponse, StatusResponse}

-- `payStatusToEpay`
unfoldable pub pay_status_to_epay : Status → String
pay_status_to_epay new = "NEW"
pay_status_to_epay hold_pending = "NEW"
pay_status_to_epay authorized = "AUTH"
pay_status_to_epay captured = "CHARGE"
pay_status_to_epay cancelled = "CANCEL"
pay_status_to_epay refunded = "REFUND"
pay_status_to_epay partial_refunded = "REFUND"
pay_status_to_epay failed = "FAILED"
pay_status_to_epay _ = "NEW"

-- `payStatusName`
unfoldable pub pay_status_name : Status → String
pay_status_name authorized = "Авторизован"
pay_status_name captured = "Списан"
pay_status_name cancelled = "Отменён"
pay_status_name refunded = "Возвращён"
pay_status_name partial_refunded = "Частичный возврат"
pay_status_name failed = "Отклонён"
pay_status_name _ = "Новый"

-- `statusResponseOf`
unfoldable pub status_response_of : (Time → String) → Record → StatusResponse
unfolding pay_status_to_epay pay_status_name to_int
status_response_of format rec = record {
  id = rec.epay.id;
  invoice_id = rec.epay.invoice_id;
  amount = to_int rec.amount;
  currency = rec.currency;
  status = pay_status_to_epay rec.status;
  status_name = pay_status_name rec.status;
  reference = decimal rec.reference;
  int_reference = decimal rec.payment_id;
  date_time = format rec.created_at;
  card_mask = rec.card.pan;
  reason = rec.epay.decline_reason;
  reason_code = rec.epay.decline_code;
}

-- `defaultACSURL`
abbrev pub default_acs_url : String
default_acs_url = "http://chaospay:8532/epay/3ds/acs"

-- The block `secure3D`, which `force_3ds` adds.
unfoldable pub secure_3d_of : Record → Scenario → String → Secure3d
unfolding param lookup
secure_3d_of rec sc acs_url =
    let url = if str_eq acs_url "" then default_acs_url else acs_url in
    record {
      pa_req = param (some sc) "pa_req" "mock-pareq";
      md = rec.epay.id;
      action = elim (lookup "action" sc.params) [ none ↦ url | some v ↦ v ];
    }

abbrev challenge : Record → Option Scenario → String → Option Secure3d
unfolding secure_3d_of
challenge rec none acs_url = none
challenge rec (some sc) acs_url =
    if str_eq sc.action "force_3ds" then some (secure_3d_of rec sc acs_url) else none

-- `buildAuthorizeResponse`
unfoldable pub build_authorize_response : Record → Option Scenario → String → AuthorizeResponse
unfolding to_int challenge
build_authorize_response rec sc acs_url = record {
  id = rec.epay.id;
  amount = to_int rec.amount;
  currency = rec.currency;
  invoice_id = rec.epay.invoice_id;
  account_id = rec.epay.account_id;
  description = rec.description;
  reference = decimal rec.reference;
  int_reference = decimal rec.payment_id;
  language = "ru";
  secure_3d = challenge rec sc acs_url;
  card_id = rec.epay.card_id;
  fee = pos 0;
  card_mask = rec.card.pan;
  card_type = rec.card.brand;
  name = rec.card.owner;
  terminal = rec.epay.terminal_id;
}
