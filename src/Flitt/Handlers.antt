-- ===== src/Flitt/Handlers.antt =====
-- internal/ports/api/flitt/handlers.go: the handlers that create payments of Flitt. The parsed request is
-- an argument (`none` where `json.Unmarshal` fails), and so is the order of ranging over the store's map.
use chaospay.Prelude.{
  String, Bool, true, false, ◌&&◌, Option, none, some, List, str_eq, if◌then◌else◌,
}
use chaospay.Prelude.Words.{pos, to_uint}
use chaospay.Prelude.Decimal.{decimal, itoa}
use chaospay.Prelude.Lenient.{lenient_uint}
use chaospay.Payment.{Time, authorized, status_eq, Record}
use chaospay.Payment.Repo.{flitt_declined, Reply, ok, err, ok_err, Clock}
use chaospay.PayService.{World, ServiceConfig, maybe_flitt_callback}
use chaospay.PayService.Webhooks.{Client}
use chaospay.PayService.Flitt.{
  FlittCheckoutInput, FlittDirectInput, FlittRecurringInput, flitt_checkout_url, flitt_direct,
  flitt_recurring_charge,
}
use chaospay.Scenario.{Scenario}
use chaospay.RequestLog.{Entry}
use chaospay.Http.{
  Outcome, replied, broken, Handler, invalid_json, names_payment, names_order, reply_with,
}
use chaospay.Flitt.Requests.{CheckoutRequest, DirectRequest, RecurringRequest}
use chaospay.Flitt.Bodies.{
  Envelope, DirectResponse, RecurringResponse, no_checkout_answer, no_direct_answer,
  no_recurring_answer, checkout_envelope, direct_envelope, recurring_envelope,
}
use chaospay.Flitt.Answers.{
  uint_from_int, build_direct_response, flitt_outcome_from_scenario, flitt_error_code,
}

-- `Config`, the client that the controller was given, and the arguments of the model: `send` is the
-- client, `read_order_id` and `read_signature` are what `json.Unmarshal` finds in a body.
pub record FlittConfig : Type 0 where
  pub service : ServiceConfig
  pub webhook : Bool
  pub auto_webhook : Bool
  pub hosted_form_url : String
  pub send : Client
  pub format : String → Time → String
  pub order : List Record → List Record
  pub read_order_id : String → Option String
  pub read_signature : String → Option String

-- The input of `handleCheckout`.
abbrev pub checkout_input : FlittConfig → CheckoutRequest → FlittCheckoutInput
checkout_input cfg req = record {
  order_id = lenient_uint req.order_id;
  merchant_id = to_uint req.merchant_id;
  terminal_id = pos 0;
  amount = uint_from_int req.amount;
  currency = req.currency;
  description = req.order_desc;
  email = req.sender_email;
  callback_url = req.server_callback_url;
  response_url = req.response_url;
  merchant_data = req.merchant_data;
  is_verify = str_eq req.verification "Y";
  need_rectoken = str_eq req.required_rectoken "Y";
  hosted_form_url = cfg.hosted_form_url;
}

-- `handleCheckout`
unfoldable pub handle_checkout : FlittConfig → Clock → Option CheckoutRequest → Handler Envelope
unfolding lenient_uint flitt_checkout_url
handle_checkout cfg clock none sc entry w = (broken invalid_json, entry, w)
handle_checkout cfg clock (some req) sc entry w =
    reply_with (flitt_checkout_url clock (checkout_input cfg req) w)
      (names_order req.order_id entry)
      λ rec entry' w'. (
        replied (pos 200) (
            checkout_envelope (record no_checkout_answer {
              response_status = "success";
              checkout_url = rec.flitt.checkout_url;
            })),
        names_payment rec.payment_id entry',
        w',
      )

-- The callback that follows an approved charge.
unfoldable pub auto_callback : FlittConfig → Record → World → World
unfolding status_eq maybe_flitt_callback
auto_callback cfg rec w =
    if cfg.auto_webhook && status_eq rec.status authorized
    then maybe_flitt_callback cfg.service rec true w
    else w

-- `rec, err := …; if err != nil && !errors.Is(err, ErrFlittDeclined) { return 0, nil, err }`; the last
-- argument is told whether the charge was declined. No other error comes with a record.
abbrev pub charge_with :
    Reply × World
    → Entry
    → (Bool → Record → Entry → World → Outcome Envelope × Entry × World)
    → Outcome Envelope × Entry × World
charge_with (ok rec, w) entry f = f false rec (names_payment rec.payment_id entry) w
charge_with (ok_err rec flitt_declined, w) entry f =
    f true rec (names_payment rec.payment_id entry) w
charge_with (ok_err rec e, w) entry f = (broken e, entry, w)
charge_with (err e, w) entry f = (broken e, entry, w)

-- The input of `handleDirect`.
abbrev pub direct_input : DirectRequest → Option Scenario → FlittDirectInput
direct_input req sc = record {
  order_id = lenient_uint req.order_id;
  merchant_id = to_uint req.merchant_id;
  terminal_id = pos 0;
  amount = uint_from_int req.amount;
  currency = req.currency;
  description = req.order_desc;
  container = req.container;
  is_apple_pay = true;
  is_google_pay = false;
  callback_url = req.server_callback_url;
  outcome = flitt_outcome_from_scenario sc;
}

-- The answer of `handleDirect`.
unfoldable pub direct_answer : Bool → Option Scenario → Record → DirectResponse
unfolding flitt_error_code build_direct_response
direct_answer true sc rec = record no_direct_answer {
  response_status = "failure";
  order_status = "declined";
  order_id = decimal rec.order_id;
  error_message = "payment declined";
  response_code = flitt_error_code sc;
}
direct_answer false sc rec = build_direct_response rec

-- `handleDirect`
unfoldable pub handle_direct : FlittConfig → Clock → Option DirectRequest → Handler Envelope
unfolding lenient_uint flitt_outcome_from_scenario flitt_direct direct_answer auto_callback
handle_direct cfg clock none sc entry w = (broken invalid_json, entry, w)
handle_direct cfg clock (some req) sc entry w =
    charge_with (flitt_direct clock (direct_input req sc) w) (names_order req.order_id entry)
      λ declined rec entry' w'. (
        replied (pos 200) (direct_envelope (direct_answer declined sc rec)),
        entry',
        auto_callback cfg rec w',
      )

-- The input of `handleRecurring`.
abbrev pub recurring_input : RecurringRequest → Option Scenario → FlittRecurringInput
recurring_input req sc = record {
  order_id = lenient_uint req.order_id;
  merchant_id = to_uint req.merchant_id;
  terminal_id = pos 0;
  amount = uint_from_int req.amount;
  currency = req.currency;
  description = req.order_desc;
  rectoken = req.rectoken;
  callback_url = req.server_callback_url;
  outcome = flitt_outcome_from_scenario sc;
}

-- The answer of `handleRecurring`.
unfoldable pub recurring_answer :
    Bool → Option Scenario → RecurringRequest → Record → RecurringResponse
unfolding flitt_error_code itoa
recurring_answer true sc req rec = record no_recurring_answer {
  response_status = "failure";
  order_status = "declined";
  order_id = req.order_id;
  amount = itoa req.amount;
  currency = req.currency;
  error_message = "payment declined";
  response_code = flitt_error_code sc;
}
recurring_answer false sc req rec = record no_recurring_answer {
  response_status = "success";
  order_status = "approved";
  order_id = req.order_id;
  amount = itoa req.amount;
  currency = req.currency;
  payment_id = some rec.flitt.payment_id;
  masked_card = rec.card.pan;
  approval_code = rec.flitt.approval_code;
  rrn = rec.flitt.rrn;
  card_type = rec.card.brand;
  rectoken = rec.flitt.rectoken;
}

-- `handleRecurring`
unfoldable pub handle_recurring : FlittConfig → Clock → Option RecurringRequest → Handler Envelope
unfolding lenient_uint flitt_outcome_from_scenario flitt_recurring_charge recurring_answer
    auto_callback
handle_recurring cfg clock none sc entry w = (broken invalid_json, entry, w)
handle_recurring cfg clock (some req) sc entry w =
    charge_with (flitt_recurring_charge clock (recurring_input req sc) w)
      (names_order req.order_id entry)
      λ declined rec entry' w'. (
        replied (pos 200) (recurring_envelope (recurring_answer declined sc req rec)),
        entry',
        if declined then w' else auto_callback cfg rec w',
      )
