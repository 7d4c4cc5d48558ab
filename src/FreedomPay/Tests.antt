-- ===== src/FreedomPay/Tests.antt =====
-- The order of the keys in what is signed, and the theorems at small maps.
use Prim.Native.String.{◌++◌ as str_append}
use chaospay.Prelude.{
  ◌+◌, String, ◌≡◌, refl, ap, true, false, not, ◌&&◌, none, some, [], ◌∷◌, ◌==◌, ltb, inl,
  if◌then◌else◌,
}
use chaospay.Prelude.Words.{pos}
use chaospay.Prelude.Decimal.{decimal, parse_uint}
use chaospay.Prelude.Assoc.{lookup, nat_eq}
use chaospay.Bank.{Bank}
use chaospay.Payment.{Time, Status, authorized, captured, Record, zero_record}
use chaospay.Payment.Repo.{Clock, unix_epoch, next_payment_id}
use chaospay.PayService.{World}
use chaospay.PayService.Freedom.{is_refund_success, refund_delta}
use chaospay.PayService.Evolution.{find}
use chaospay.PayService.Answers.Sums.{refund_op}
use chaospay.Scenario.{Scenario}
use chaospay.FreedomPay.{OrdMap, text, child, end, pair, set, get, sign, verify, signed_fields}
use chaospay.FreedomPay.Signature.{verify-signed}
use chaospay.FreedomPay.Requests.{uint_from_req}
use chaospay.FreedomPay.Handlers.{
  HandlerConfig, hide_refunds, refund_outcome, pay_to_freedom_status, handle_hold,
  wrong_status_fields, ok_fields,
}
use chaospay.FreedomPay.Shown.{after_rule, shown_amount, shown_status}
use chaospay.FreedomPay.Statuses.{status_of_found}
use chaospay.FreedomPay.Operations.{handle_revoke}
use chaospay.FreedomPay.Answers.{status_reports, hidden_refunds}
use chaospay.FreedomPay.Incidents.{held_already, declined_refund}
use chaospay.FreedomPay.Forced.{IsDistinct}

abbrev fields : OrdMap
fields = pair "pg_status" (text "ok") (
    pair "pg_card" (child (pair "b" (text "2") (pair "a" (text "1") end)))
      (pair "pg_amount" (text "500") (pair "pg_empty" (text "") end)))

-- A digest that leaves the text as it is shows what is hashed.
abbrev shown : String → String
shown s = s

signed_text : sign shown "init" fields "secret" ≡ "init;500;1;2;ok;secret"
unfolding sign
signed_text = refl

unsigned : get "pg_sig" fields ≡ none
unfolding get
unsigned = refl

verify-signed_example :
    (signature : String) × (get "pg_sig" (signed_fields shown "salt" "init" fields "secret")
      ≡ some (text signature))
    × (verify shown "init" (signed_fields shown "salt" "init" fields "secret") "secret" signature
        ≡ (signature, true))
verify-signed_example = verify-signed shown "salt" "init" "secret" fields unsigned

abbrev clock : Clock
clock i = unix_epoch + i

abbrev format : Time → String
format t = "2026-01-01T00:00:00Z"

abbrev cfg : HandlerConfig
cfg = record {
  service = record {
    webhook = true;
    epay_webhook = false;
    flitt_webhook = false;
    auto_webhook = record { freedom = true; epay = false; flitt = false };
  };
  default_terminal_id = pos 1;
  hosted_form_url = "http://localhost/form?x=1";
  format = format;
}

abbrev payment_at : Status → Record
payment_at s = record zero_record {
  payment_id = 7;
  amount = 500;
  captured_amount = 300;
  refunded_amount = 100;
  status = s;
}

abbrev world_of : Record → World
world_of rec = record {
  repo = record { by_id = (7, rec) ∷ []; by_order = []; next_id = 7; ref_seed = 0 };
  spawned = [];
}

abbrev request : OrdMap
request = pair "pg_payment_id" (text "7") (pair "pg_refund_amount" (text "100") end)

asks_for_7 : uint_from_req request "pg_payment_id" 0 ≡ 7
unfolding uint_from_req get parse_uint
asks_for_7 = refl

nonzero : (uint_from_req request "pg_payment_id" 0 == 0) ≡ false
nonzero = ap (λ n. n == 0) asks_for_7

found : (rec : Record) → find (uint_from_req request "pg_payment_id" 0) (world_of rec) ≡ some rec
unfolding lookup
found rec = ap (λ n. find n (world_of rec)) asks_for_7

abbrev scenario_of : String → Scenario
scenario_of action = record {
  id = "sc-1";
  bank = Bank.freedom;
  endpoint = "*";
  payment_id = "";
  order_id = "";
  merchant_id = "";
  action = action;
  params = [];
  consume_once = false;
  hit_count = 0;
  created_at = 1;
}

-- A rule that forces a status.
abbrev forcing : Scenario
forcing = record (scenario_of "force_status") { params = ("payment_status", "process") ∷ [] }

status_reports_example :
    let sent =
      after_rule (some forcing) (status_of_found format (some forcing) 7 (payment_at captured)) in
    (get "pg_payment_status" sent
      ≡ some (text (shown_status (some forcing) (pay_to_freedom_status captured))))
    × (get "pg_amount" sent ≡ some (text (shown_amount (some forcing) (decimal 500))))
    × (get "pg_clearing_amount" sent ≡ some (text (shown_amount (some forcing) (decimal 300))))
    × (get "pg_revoked_amount" sent ≡ (
        if not (hide_refunds (some forcing)) && ltb 0 100
        then some (text (str_append "-" (decimal 100)))
        else none))
status_reports_example = status_reports format (some forcing) 7 (payment_at captured) refl refl

-- The status that is shown then.
forced_shown : shown_status (some forcing) (pay_to_freedom_status captured) ≡ "process"
unfolding shown_status lookup
forced_shown = refl

hides : hide_refunds (some (scenario_of "refund_invisible")) ≡ true
unfolding hide_refunds
hides = refl

hidden_refunds_example :
    (get "pg_revoked_amount"
        (status_of_found format (some (scenario_of "refund_invisible")) 0 (payment_at captured))
      ≡ none)
    × (get "pg_refund_payments"
          (status_of_found format (some (scenario_of "refund_invisible")) 0 (payment_at captured))
        ≡ none)
    × (get "pg_clearing_amount"
          (status_of_found format (some (scenario_of "refund_invisible")) 0 (payment_at captured))
        ≡ some (text (decimal 300)))
hidden_refunds_example =
    hidden_refunds format (some (scenario_of "refund_invisible")) 0 (payment_at captured) hides

held_already_example :
    handle_hold cfg clock request none (world_of (payment_at authorized))
    ≡ (inl wrong_status_fields, world_of (payment_at authorized))
held_already_example =
    held_already cfg clock request none (world_of (payment_at authorized)) (payment_at authorized)
      nonzero (found (payment_at authorized)) (inl refl)

declines : is_refund_success (refund_outcome (some (scenario_of "refund_declined"))) ≡ false
unfolding refund_outcome
declines = refl

declined_refund_example :
    ((handle_revoke cfg clock request
        (some (scenario_of "refund_declined"))
        (world_of (payment_at captured))).0
      ≡ inl (set "pg_revoke_payment_id" (text (decimal 7)) ok_fields))
    × (find
          (uint_from_req request "pg_payment_id" 0)
          (handle_revoke cfg clock request
            (some (scenario_of "refund_declined"))
            (world_of (payment_at captured))).1
        ≡ some (record (payment_at captured) {
          refunds =
              refund_op clock
                (next_payment_id (world_of (payment_at captured)).repo).0
                (refund_delta (uint_from_req request "pg_refund_amount" 0) (payment_at captured))
                (refund_outcome (some (scenario_of "refund_declined")))
              ∷ [];
        }))
declined_refund_example =
    declined_refund cfg clock request (some (scenario_of "refund_declined"))
      (world_of (payment_at captured)) (payment_at captured) nonzero (found (payment_at captured))
      refl declines

distinct : IsDistinct fields
unfolding get
distinct = (refl, (refl, (refl, (refl, tt))))
