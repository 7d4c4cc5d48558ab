-- ===== src/Epay/Handlers.antt =====
-- internal/ports/api/epay/handlers.go: the handlers of Halyk Epay's requests. The parsed body is an
-- argument (`none` where `json.Unmarshal` fails), and so are the order of ranging over the store's map and
-- the instant that a handler reads from the clock. `quote` is the verb `%q`.
mod Answers
unfoldable pub use Answers.*
use Prim.Native.String.{◌++◌ as str_append}
use chaospay.Prelude.{
  ℕ, ◌+◌, ◌*◌, ◌==◌, ltb, String, Bool, true, false, not, ◌&&◌, ◌||◌, Option, none, some, List, [],
  ◌∷◌, str_eq, if◌then◌else◌, ◌⊎◌, inl, inr,
}
use chaospay.Prelude.Words.{ℤ, pos, is_nonpos, to_uint}
use chaospay.Prelude.Decimal.{decimal}
use chaospay.Bank.{Bank, bank_eq}
use chaospay.Payment.{Time, authorized, captured, failed, status_eq, Kind, Record, epay_hidden}
use chaospay.Payment.Repo.{PayError, message, Reply, ok, err, ok_err, Clock, get, list_records}
use chaospay.PayService.{World, ServiceConfig, default_str, spawn, epay_success}
use chaospay.PayService as Service
use chaospay.PayService.Freedom.{authorize_wallet, apply_force}
use chaospay.PayService.Epay.{
  EpayAuthorizeInput, is_epay_bind, epay_authorize, epay_late_operation, epay_decline, epay_charge,
  epay_cancel, epay_refund,
}
use chaospay.Scenario.{Scenario}
use chaospay.Scenario.Params.{param, param_int, param_non_negative_int, atoi}
use chaospay.RequestLog.{Entry}
use chaospay.Http.{has_action}
use chaospay.Epay.Invoice.{parse_invoice, operation_id_from_path}
use chaospay.Epay.Reasons.{default_message}
use chaospay.Epay.Bodies.{
  AuthorizeRequest, has_token, ConfirmRequest, Body, authorize_body, operation_body, status_body,
  error_body,
}

-- `Config`, the client that the controller was given, and the arguments of the model.
pub record EpayConfig : Type 0 where
  pub service : ServiceConfig
  pub webhook : Bool
  pub auto_webhook : Bool
  pub terminal_uuid : String
  pub acs_url : String
  pub format : Time → String
  pub order : List Record → List Record
  pub quote : String → String

-- `scheduleSuccessPostlink`
unfoldable pub schedule_success_postlink : EpayConfig → Option Scenario → Record → World → World
unfolding spawn
schedule_success_postlink cfg sc rec w =
    if not cfg.webhook || not cfg.auto_webhook
    then w
    else if has_action "postlink_lost" sc
    then w
    else if has_action "postlink_double" sc
    then spawn (epay_success rec) none (spawn (epay_success rec) none w)
    else spawn (epay_success rec) none w

-- `scheduleBindPostlink`, which is called with `success` only.
unfoldable pub schedule_bind_postlink : EpayConfig → Option Scenario → Record → World → World
unfolding spawn
schedule_bind_postlink cfg sc rec w =
    if not cfg.webhook || not cfg.auto_webhook
    then w
    else if has_action "postlink_lost" sc
    then w
    else spawn (Service.epay_bind rec true (pos 0) "success") none w
