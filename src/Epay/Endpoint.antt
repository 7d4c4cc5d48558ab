-- ===== src/Epay/Endpoint.antt =====
-- internal/ports/api/epay/handler.go: `jsonEndpoint`, what stands around a handler. A rule is matched, it
-- may end the request or change its answer, and the journal gets an entry.
use chaospay.Prelude.{
  String, Bool, false, ◌&&◌, ◌||◌, Option, none, some, [], ◌∷◌, str_eq, if◌then◌else◌,
}
use chaospay.Prelude.Words.{pos}
use chaospay.Bank.{Bank}
use chaospay.PayService.{World}
use chaospay.Scenario.{Scenario, MatchInput}
use chaospay.Scenario.Params.{param}
use chaospay.Scenario.Store.{ScenarioStore, match_}
use chaospay.RequestLog.{Entry}
use chaospay.Transport.{Wire, transport}
use chaospay.Http.{Call, Handler, Outcome, broken, hit_by, new_entry, replied}
use chaospay.Epay.Bodies.{Body, failure}
use chaospay.Epay.Handlers.{EpayConfig}
use chaospay.Epay.Server.{Server, has_bearer, finalize, respond_json}
use chaospay.Epay.Effects.{
  handles_decline, apply_scenario_before, early_postlink, apply_scenario_after,
}

-- What follows the handler: an error becomes a 400, an answer may be changed by the rule.
unfoldable pub after_handler :
    (Body → Body) → Call Body → Outcome Body × Entry × World → Server → Wire Body × Server
unfolding respond_json
after_handler change call (replied status body, entry, w) s =
    respond_json call entry status (change body) (record s { world = w })
after_handler change call (broken e, entry, w) s =
    respond_json call entry (pos 400) (failure e) (record s { world = w })

-- Where the bank works and its answer is lost: `lost` ends the request after the handler. `Transport`
-- ends it whenever it is called so.
unfoldable pub lose_answer :
    Scenario → Call Body → Outcome Body × Entry × World → Server → Wire Body × Server
unfolding respond_json finalize
lose_answer lost call (broken e, entry, w) s =
    respond_json call entry (pos 400) (failure e) (record s { world = w })
lose_answer lost call (replied status body, entry, w) s = elim (transport {B = Body} lost) [
  | some e ↦ finalize call entry e (record s { world = w })
  | none ↦ (Wire.empty_body, record s { world = w })
]

-- `confirmLost`
unfoldable pub is_confirm_lost : String → Scenario → Bool
is_confirm_lost endpoint sc =
    str_eq endpoint "epay_confirm"
    && (str_eq sc.action "timeout" || str_eq sc.action "connection_reset")

unfoldable pub is_late : String → Scenario → Bool
is_late endpoint sc = str_eq endpoint "epay_cryptopay" && str_eq sc.action "epay_late_operation"

-- The rule that stands for the error of a late operation.
unfoldable pub late_error : Scenario → Scenario
unfolding param
late_error sc = record {
  id = "";
  bank = Bank.any;
  endpoint = "";
  payment_id = "";
  order_id = "";
  merchant_id = "";
  action = "http_error";
  params = ("http_status", param (some sc) "http_status" "500") ∷ [];
  consume_once = false;
  hit_count = 0;
  created_at = 0;
}

-- The handler under a rule that leaves it its answer, with the early postlink before or after it.
unfoldable pub run_under :
    EpayConfig → Handler Body → Call Body → Scenario → Entry → Server → Wire Body × Server
unfolding early_postlink apply_scenario_after after_handler
run_under cfg fn call sc entry s =
    if call.reads_at_once
    then after_handler (apply_scenario_after sc) call
        (fn (some sc) entry (early_postlink cfg sc entry.payment_id s.world)) s
    else let (outcome, entry', w) = fn (some sc) entry s.world in
      after_handler (apply_scenario_after sc) call
        (outcome, entry', early_postlink cfg sc entry'.payment_id w) s

-- `jsonEndpoint` from the point where a rule has matched.
unfoldable pub serve_ruled :
    EpayConfig → String → Handler Body → Call Body → Scenario → Entry → Server → Wire Body × Server
unfolding is_confirm_lost is_late late_error finalize handles_decline apply_scenario_before
    respond_json run_under
serve_ruled cfg endpoint fn call sc entry s =
    if is_confirm_lost endpoint sc
    then lose_answer sc call (fn (some sc) entry s.world) s
    else if is_late endpoint sc
    then lose_answer (late_error sc) call (fn (some sc) entry s.world) s
    else elim (transport {B = Body} sc) [
      | some e ↦ finalize call entry e s
      | none ↦
          if handles_decline endpoint && str_eq sc.action "force_failure"
          then run_under cfg fn call sc entry s
          else elim (apply_scenario_before sc) [
            | some (status, body) ↦ respond_json call entry status body s
            | none ↦ run_under cfg fn call sc entry s
          ]
    ]

-- What `jsonEndpoint` matches the rules against.
unfoldable pub match_input : String → Entry → MatchInput
match_input endpoint entry = record {
  bank = Bank.epay;
  endpoint = endpoint;
  payment_id = entry.payment_id;
  order_id = entry.order_id;
  merchant_id = "";
}

unfoldable pub serve_matched :
    EpayConfig
    → String
    → Handler Body
    → Call Body
    → Entry
    → Option Scenario × ScenarioStore
    → Server
    → Wire Body × Server
unfolding serve_ruled after_handler
serve_matched cfg endpoint fn call entry (none, rules) s =
    after_handler (λ body. body) call (fn none entry s.world) (record s { scenarios = rules })
serve_matched cfg endpoint fn call entry (some sc, rules) s =
    serve_ruled cfg endpoint fn call sc (hit_by sc entry) (record s { scenarios = rules })

-- `jsonEndpoint`
unfoldable pub json_endpoint :
    EpayConfig → String → Handler Body → Call Body → Server → Wire Body × Server
unfolding match_input serve_matched
json_endpoint cfg endpoint fn call s =
    let entry = new_entry Bank.epay endpoint (has_bearer call.authorization) call in
    serve_matched cfg endpoint fn call entry (match_ (match_input endpoint entry) s.scenarios) s
