-- ===== src/Http.antt =====
-- What the controllers of Freedom Pay (internal/ports/api/pay), Halyk Epay (internal/ports/api/epay) and
-- Flitt (internal/ports/api/flitt) share:
-- the outcome of a handler, a request on its way, and how an answer is sent and written into the journal.
-- `B` are the bodies that a handler answers.
use Prim.Native.String.{◌++◌ as str_append}
use chaospay.Prelude.{ℕ, String, Bool, false, Option, none, some, str_eq}
use chaospay.Prelude.Words.{ℤ, pos}
use chaospay.Prelude.Decimal.{decimal}
use chaospay.Bank.{Bank}
use chaospay.Payment.{Time, Record}
use chaospay.Payment.Repo.{
  PayError, payment_not_found, invalid_transition, already_authorized, invalid_state,
  flitt_declined, flitt_not_found, epay_webhook_not_configured, flitt_webhook_not_configured,
  message, wrapped, send_failed, Reply, ok, err, ok_err,
}
use chaospay.PayService.{World}
use chaospay.Scenario.{Scenario}
use chaospay.Scenario.Store.{ScenarioStore}
use chaospay.RequestLog.{Entry, RequestLog, add}
use chaospay.Transport.{Wire, answered, Ending, sent}

-- `(int, any, error)`
pub data Outcome (B : Type 0) : Type 0 where
  replied : ℤ → B → Outcome B
  broken : PayError → Outcome B

-- A handler that knows its request: it fills in the journal's entry on its way.
abbrev pub Handler : Type 0 → Type 0
Handler B = Option Scenario → Entry → World → Outcome B × Entry × World

-- `errInvalidJSON`; the parser's own words are left out.
abbrev pub invalid_json : PayError
invalid_json = message "invalid json: "

abbrev pub names_payment : ℕ → Entry → Entry
names_payment id entry = record entry { payment_id = decimal id }

abbrev pub names_order : String → Entry → Entry
names_order id entry = record entry { order_id = id }

-- `updated, err := …; if err != nil { return 0, nil, err }`
abbrev pub reply_with :
    {B : Type 0}
    → Reply × World
    → Entry
    → (Record → Entry → World → Outcome B × Entry × World)
    → Outcome B × Entry × World
reply_with (ok rec, w) entry f = f rec entry w
reply_with (err e, w) entry f = (broken e, entry, w)
reply_with (ok_err rec e, w) entry f = (broken e, entry, w)

abbrev pub has_action : String → Option Scenario → Bool
has_action action none = false
has_action action (some sc) = str_eq sc.action action

-- A request on its way through the wrapper: what the journal is told of it, and of the clock. `print`
-- stands for `json.Marshal`, `shorten` for `requestlog.Truncate`, which cuts a text between bytes.
-- `reads_at_once` says whether the goroutine of an early webhook runs before the handler does.
pub record Call (B : Type 0) : Type 0 where
  pub method : String
  pub url : String
  pub authorization : String
  pub body : String
  pub duration_ms : ℤ
  pub logged_at : Time
  pub print : B → String
  pub shorten : String → String
  pub reads_at_once : Bool

-- The entry that the wrapper starts with.
unfoldable pub new_entry : {B : Type 0} → Bank → String → Bool → Call B → Entry
new_entry bank endpoint signature_ok call = record {
  id = 0;
  at = 0;
  bank = bank;
  method = call.method;
  url = call.url;
  endpoint = endpoint;
  payment_id = "";
  order_id = "";
  merchant_id = "";
  signature_ok = signature_ok;
  scenario_hit = "";
  scenario_name = "";
  duration_ms = pos 0;
  status_code = pos 0;
  request_body = call.shorten call.body;
  response_body = "";
}

-- `entry.ScenarioHit = …; entry.ScenarioName = …`
abbrev pub hit_by : Scenario → Entry → Entry
hit_by sc entry = record entry { scenario_hit = sc.id; scenario_name = sc.action }

-- `entry.StatusCode = …; entry.ResponseBody = …; entry.DurationMS = …; log.Add(entry)`
unfoldable pub logged : {B : Type 0} → Call B → Entry → Ending B → RequestLog → RequestLog
unfolding add
logged call entry e journal =
    add call.logged_at
      (record entry {
        status_code = e.status_code;
        response_body = call.shorten e.shown;
        duration_ms = call.duration_ms;
      })
      journal

-- An answer with a body that `json.Marshal` prints.
abbrev pub json_ending : {B : Type 0} → Call B → ℤ → B → Ending B
json_ending call status body = record {
  wire = sent status (λ status'. answered status' body);
  status_code = status;
  shown = call.print body;
}

-- `err.Error()`
unfoldable pub error_text : PayError → String
error_text payment_not_found = "payment not found"
error_text invalid_transition = "invalid status transition"
error_text already_authorized = "payment already authorized"
error_text invalid_state = "invalid state for operation"
error_text flitt_declined = "flitt: payment declined"
error_text flitt_not_found = "flitt: order not found"
error_text epay_webhook_not_configured = "epay webhook is not configured"
error_text flitt_webhook_not_configured = "flitt webhook is not configured"
error_text (message s) = s
error_text (wrapped s e) = str_append s (str_append ": " (error_text e))
error_text (send_failed s) = s

-- What the calls of a controller change.
pub record Shared : Type 0 where
  pub world : World
  pub scenarios : ScenarioStore
  pub journal : RequestLog

-- The answer is sent, and the journal gets its entry.
unfoldable pub finish : {B : Type 0} → Call B → Entry → Ending B → Shared → Wire B × Shared
unfolding logged
finish call entry e s = (e.wire, record s { journal = logged call entry e s.journal })
