-- ===== src/Flitt/Endpoint.antt =====
-- internal/ports/api/flitt/handler.go: the controller's state, and `jsonEndpoint`, what stands around a
-- handler. Waiting is not modelled, and `json.Marshal` does not fail on these answers.
use chaospay.Prelude.{String, not, Option, none, some, str_eq}
use chaospay.Prelude.Words.{ℤ, pos}
use chaospay.Prelude.Trim.{trim_space}
use chaospay.Bank.{Bank}
use chaospay.PayService.{World}
use chaospay.Scenario.{Scenario, MatchInput}
use chaospay.Scenario.Store.{ScenarioStore, match_}
use chaospay.RequestLog.{Entry}
use chaospay.Transport.{Wire, transport}
use chaospay.Http.{
  Outcome, replied, broken, Handler, Call, new_entry, hit_by, finish, Shared, json_ending,
  error_text,
}
use chaospay.Flitt.Bodies.{Envelope, new_failure}
use chaospay.Flitt.Handlers.{FlittConfig}
use chaospay.Flitt.Effects.{apply_scenario_before, early_callback, apply_scenario_after}

-- `extractOrderID`, `extractSignature`: nothing of a body that is no JSON.
unfoldable pub extracted : Option String → String
unfolding trim_space
extracted none = ""
extracted (some s) = trim_space s

-- `respondJSON`
unfoldable pub respond : Call Envelope → Entry → ℤ → Envelope → Shared → Wire Envelope × Shared
unfolding finish
respond call entry status body s = finish call entry (json_ending call status body) s

-- What follows the handler: an error is told at status 200, an answer may be changed by the rule.
unfoldable pub after_handler :
    (Envelope → Envelope)
    → Call Envelope
    → Outcome Envelope × Entry × World
    → Shared
    → Wire Envelope × Shared
unfolding respond error_text
after_handler change call (replied status body, entry, w) s =
    respond call entry status (change body) (record s { world = w })
after_handler change call (broken e, entry, w) s =
    respond call entry (pos 200) (new_failure (pos 1000) (error_text e)) (record s { world = w })

-- The handler under a rule, unless the rule has an answer of its own.
unfoldable pub answer_or_run :
    FlittConfig
    → Handler Envelope
    → Call Envelope
    → Scenario
    → Entry
    → Option (ℤ × Envelope)
    → Shared
    → Wire Envelope × Shared
unfolding respond early_callback apply_scenario_after after_handler
answer_or_run cfg fn call sc entry (some (status, body)) s =
    respond call entry status body (record s { world = early_callback cfg sc entry s.world })
answer_or_run cfg fn call sc entry none s =
    after_handler (apply_scenario_after sc) call (fn (some sc) entry s.world) s

-- `jsonEndpoint` from the point where a rule has matched.
unfoldable pub serve_ruled :
    FlittConfig
    → Handler Envelope
    → Call Envelope
    → Scenario
    → Entry
    → Shared
    → Wire Envelope × Shared
unfolding finish apply_scenario_before answer_or_run
serve_ruled cfg fn call sc entry s = elim (transport {B = Envelope} sc) [
  | some e ↦ finish call entry e s
  | none ↦ answer_or_run cfg fn call sc entry (apply_scenario_before sc) s
]

-- The entry once the body has been looked at.
unfoldable pub opened_entry : FlittConfig → String → Call Envelope → Entry
unfolding new_entry extracted
opened_entry cfg endpoint call =
    record (new_entry Bank.flitt endpoint
      (not (str_eq (extracted (cfg.read_signature call.body)) "")) call) {
        order_id = extracted (cfg.read_order_id call.body);
      }

-- What `jsonEndpoint` matches the rules against.
unfoldable pub match_input : String → Entry → MatchInput
match_input endpoint entry = record {
  bank = Bank.flitt;
  endpoint = endpoint;
  payment_id = "";
  order_id = entry.order_id;
  merchant_id = "";
}

unfoldable pub serve_matched :
    FlittConfig
    → Handler Envelope
    → Call Envelope
    → Entry
    → Option Scenario × ScenarioStore
    → Shared
    → Wire Envelope × Shared
unfolding serve_ruled after_handler
serve_matched cfg fn call entry (none, rules) s =
    after_handler (λ body. body) call (fn none entry s.world) (record s { scenarios = rules })
serve_matched cfg fn call entry (some sc, rules) s =
    serve_ruled cfg fn call sc (hit_by sc entry) (record s { scenarios = rules })

-- `jsonEndpoint`
unfoldable pub json_endpoint :
    FlittConfig → String → Handler Envelope → Call Envelope → Shared → Wire Envelope × Shared
unfolding opened_entry match_input serve_matched match_
json_endpoint cfg endpoint fn call s =
    let entry = opened_entry cfg endpoint call in
    serve_matched cfg fn call entry (match_ (match_input endpoint entry) s.scenarios) s
