-- ===== src/Epay/Authorization.antt =====
-- internal/ports/api/epay/handlers.go: the handlers that start a payment, by a cryptogram or by a stored
-- card.
use Prim.Native.String.{◌++◌ as str_append}
use chaospay.Prelude.{
  suc, ◌+◌, ◌-◌, ◌*◌, ◌%◌, String, Bool, false, not, ◌||◌, Option, none, some, str_eq,
  if◌then◌else◌,
}
use chaospay.Prelude.Words.{ℤ, pos, negsuc, is_nonpos, to_int, to_uint, word_size}
use chaospay.Payment.{Time, authorized, status_eq, Record}
use chaospay.Payment.Repo.{message, Clock}
use chaospay.PayService.{World, default_str}
use chaospay.PayService.Epay.{
  EpayAuthorizeInput, is_epay_bind, epay_authorize, epay_late_operation, epay_decline,
}
use chaospay.Scenario.{Scenario}
use chaospay.Scenario.Params.{param, param_int, param_non_negative_int}
use chaospay.Http.{
  Handler, broken, has_action, invalid_json, names_order, names_payment, replied, reply_with,
}
use chaospay.Epay.Invoice.{parse_invoice}
use chaospay.Epay.Reasons.{default_message}
use chaospay.Epay.Bodies.{Body, AuthorizeRequest, has_token, authorize_body, error_body}
use chaospay.Epay.Handlers.{
  EpayConfig, schedule_success_postlink, schedule_bind_postlink, build_authorize_response,
}

-- `cardIDValue`
unfoldable pub card_id_value : Option String → String
card_id_value none = ""
card_id_value (some id) = id

-- The input of `handleCryptopay`.
unfoldable pub cryptopay_input :
    EpayConfig → AuthorizeRequest → Option Scenario → EpayAuthorizeInput
unfolding parse_invoice default_str card_id_value has_token
cryptopay_input cfg req sc = record {
  order_id = parse_invoice req.invoice_id;
  amount = req.amount;
  currency = req.currency;
  invoice_id = req.invoice_id;
  terminal_id = default_str req.terminal_id cfg.terminal_uuid;
  account_id = req.account_id;
  card_id = card_id_value req.card_id;
  payment_type = req.payment_type;
  description = req.description;
  email = req.email;
  phone = req.phone;
  postlink = req.postlink;
  failure_postlink = req.failure_postlink;
  card_save = req.card_save;
  client_id = "";
  has_cryptogram =
      not (str_eq req.cryptogram "")
      || not (str_eq req.cryptogram_apple_pay "")
      || has_token req.google_pay;
  requires_3ds = has_action "force_3ds" sc;
}

-- The input of `handleCardAuth`.
unfoldable pub card_auth_input : EpayConfig → AuthorizeRequest → EpayAuthorizeInput
unfolding parse_invoice default_str card_id_value
card_auth_input cfg req = record {
  order_id = parse_invoice req.invoice_id;
  amount = req.amount;
  currency = req.currency;
  invoice_id = req.invoice_id;
  terminal_id = default_str req.terminal_id cfg.terminal_uuid;
  account_id = req.account_id;
  card_id = card_id_value req.card_id;
  payment_type = default_str req.payment_type "cardId";
  description = req.description;
  email = "";
  phone = "";
  postlink = req.postlink;
  failure_postlink = req.failure_postlink;
  card_save = false;
  client_id = "";
  has_cryptogram = false;
  requires_3ds = false;
}

-- `isDecline`, `isLateOperation`
abbrev pub is_decline : Option Scenario → Bool
is_decline sc = has_action "force_failure" sc

abbrev pub is_late_operation : Option Scenario → Bool
is_late_operation sc = has_action "epay_late_operation" sc

-- `decline`
unfoldable pub decline : Clock → EpayAuthorizeInput → Handler Body
unfolding param param_int default_message
decline clock in_ sc entry w =
    let code = param_int sc "reason_code" (pos 477) in
    let msg = param sc "message" (default_message code) in
    reply_with (epay_decline clock in_ code msg w) entry λ rec entry' w'. (
      replied (pos 400) (error_body (record { code = code; message = msg; result_code = code })),
      names_payment rec.payment_id entry',
      w',
    )

-- `time.Duration(seconds) * time.Second`: the product is an `int64`, and wraps.
abbrev pub duration_of : ℤ → ℤ
unfolding to_int
duration_of seconds = to_int (to_uint seconds * 1000000000 % word_size)

-- `at.Add(duration)`; a duration that has wrapped may go back.
abbrev pub moved_by : Time → ℤ → Time
moved_by at (pos n) = at + n
moved_by at (negsuc n) = at - suc n

-- When a late operation is shown: `delay` seconds from now, or at once.
abbrev pub visible_from : Time → ℤ → Time
visible_from now delay = if is_nonpos delay then 0 else moved_by now (duration_of delay)

-- `lateOperation`
unfoldable pub answer_late_operation : EpayConfig → Clock → Time → EpayAuthorizeInput → Handler Body
unfolding param param_non_negative_int build_authorize_response
answer_late_operation cfg clock now in_ sc entry w =
    elim (param_non_negative_int sc "visible_after" (pos 0)) [
      | none ↦ (
        broken (
            message (
              str_append "visible_after: want non-negative integer, got "
                (cfg.quote (param sc "visible_after" "")))),
        entry,
        w,
      )
      | some delay ↦
          reply_with
            (epay_late_operation clock in_ (str_eq (param sc "status" "AUTH") "CHARGE")
              (visible_from now delay) w)
            entry
            λ rec entry' w'. (
              replied (pos 200) (authorize_body (build_authorize_response rec none cfg.acs_url)),
              names_payment rec.payment_id entry',
              w',
            )
    ]

-- The end of `handleCryptopay`: which postlink follows.
unfoldable pub cryptopay_postlink : EpayConfig → Option Scenario → Record → World → World
unfolding schedule_bind_postlink schedule_success_postlink status_eq
cryptopay_postlink cfg sc rec w =
    if is_epay_bind rec.kind
    then schedule_bind_postlink cfg sc rec w
    else if status_eq rec.status authorized
    then schedule_success_postlink cfg sc rec w
    else w

-- `handleCryptopay`
unfoldable pub handle_cryptopay : EpayConfig → Clock → Time → Option AuthorizeRequest → Handler Body
unfolding cryptopay_input decline answer_late_operation cryptopay_postlink build_authorize_response
handle_cryptopay cfg clock now none sc entry w = (broken invalid_json, entry, w)
handle_cryptopay cfg clock now (some req) sc entry w =
    let entry1 = names_order req.invoice_id entry in
    let in_ = cryptopay_input cfg req sc in
    if is_decline sc
    then decline clock in_ sc entry1 w
    else if is_late_operation sc
    then answer_late_operation cfg clock now in_ sc entry1 w
    else reply_with (epay_authorize clock in_ w) entry1 λ rec entry2 w'. (
      replied (pos 200) (authorize_body (build_authorize_response rec sc cfg.acs_url)),
      names_payment rec.payment_id entry2,
      cryptopay_postlink cfg sc rec w',
    )

-- `handleCardAuth`
unfoldable pub handle_card_auth : EpayConfig → Clock → Option AuthorizeRequest → Handler Body
unfolding card_auth_input decline card_id_value schedule_success_postlink status_eq
    build_authorize_response
handle_card_auth cfg clock none sc entry w = (broken invalid_json, entry, w)
handle_card_auth cfg clock (some req) sc entry w =
    let entry1 = names_order req.invoice_id entry in
    let in_ = card_auth_input cfg req in
    if is_decline sc
    then decline clock in_ sc entry1 w
    else if str_eq (card_id_value req.card_id) ""
    then (broken (message "cardId is required for card auth"), entry1, w)
    else reply_with (epay_authorize clock in_ w) entry1 λ rec entry2 w'. (
      replied (pos 200) (authorize_body (build_authorize_response rec sc cfg.acs_url)),
      names_payment rec.payment_id entry2,
      if status_eq rec.status authorized then schedule_success_postlink cfg sc rec w' else w',
    )
