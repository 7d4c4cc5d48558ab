-- ===== src/Flitt/Rules.antt =====
-- What becomes of a request of Flitt that a rule answers, and what the journal gets of every request
-- (`jsonEndpoint` of internal/ports/api/flitt/handler.go).
use chaospay.Prelude.{String, ◌≡◌, refl, none, some, arith}
use chaospay.Prelude.Words.{pos}
use chaospay.Payment.Repo.{flitt_not_found, err}
use chaospay.PayService.{World}
use chaospay.PayService.Flitt.{flitt_status}
use chaospay.Scenario.{Scenario}
use chaospay.Scenario.Params.{param, param_int}
use chaospay.Scenario.Store.{ScenarioStore, match_}
use chaospay.RequestLog.{Entry}
use chaospay.Transport.{answered, sent, transport}
use chaospay.Http.{Shared, finish, Handler, Call, new_entry, hit_by}
use chaospay.Flitt.Bodies.{Envelope, new_failure}
use chaospay.Flitt.Handlers.{FlittConfig}
use chaospay.Flitt.Effects.{
  apply_scenario_before, callback_by_order, send_async_callback, early_callback,
}
use chaospay.Flitt.Endpoint.{
  respond, answer_or_run, serve_ruled, opened_entry, match_input, serve_matched, json_endpoint,
}

module _ (cfg : FlittConfig) (entry : Entry) (w : World) where
  unheard :
      (flitt_status cfg.order entry.order_id w).0 ≡ err flitt_not_found
      → callback_by_order cfg entry.order_id w ≡ w
  unfolding callback_by_order
  unheard unknown = rw unknown (ground arith)

  early_callback-unknown :
      (sc : Scenario)
      → entry.payment_id ≡ ""
      → (flitt_status cfg.order entry.order_id w).0 ≡ err flitt_not_found
      → early_callback cfg sc entry w ≡ w
  unfolding early_callback send_async_callback
  early_callback-unknown sc no_payment unknown = rw (no_payment, unheard unknown) (ground arith)

abbrev refusal : Scenario → Envelope
refusal sc =
    new_failure (param_int (some sc) "error_code" (pos 1001))
      (param (some sc) "message" "payment declined")

transport-silent :
    (sc : Scenario) → sc.action ≡ "sync_error_async_webhook" → transport {B = Envelope} sc ≡ none
unfolding transport
transport-silent sc h = rw h refl

before-silent :
    (sc : Scenario)
    → sc.action ≡ "sync_error_async_webhook"
    → apply_scenario_before sc ≡ some (pos 200, refusal sc)
unfolding apply_scenario_before
before-silent sc h = rw h refl

module _ (cfg : FlittConfig) (fn : Handler Envelope) (call : Call Envelope) (sc : Scenario)
    (entry : Entry) (s : Shared) where
  ruled-silent :
      sc.action ≡ "sync_error_async_webhook"
      → serve_ruled cfg fn call sc entry s
        ≡ respond call entry
            (pos 200)
            (refusal sc)
            (record s { world = early_callback cfg sc entry s.world })
  unfolding serve_ruled answer_or_run
  ruled-silent h = rw (transport-silent sc h, before-silent sc h, serve_ruled) refl

module _ (cfg : FlittConfig) (endpoint : String) (fn : Handler Envelope) (call : Call Envelope)
    (s : Shared) (sc : Scenario) (rules : ScenarioStore) where
  json_endpoint-ruled :
      match_ (match_input endpoint (opened_entry cfg endpoint call)) s.scenarios ≡ (some sc, rules)
      → json_endpoint cfg endpoint fn call s
        ≡ serve_ruled cfg fn call sc
            (hit_by sc (opened_entry cfg endpoint call))
            (record s { scenarios = rules })
  unfolding json_endpoint serve_matched
  json_endpoint-ruled found = rw found refl

  -- The rule of the preset for a silent hold, at an order that Flitt has no payment of: the client is told
  -- that the payment was declined, no payment is created, and no callback is sent, whatever the handler
  -- of the endpoint does.
  pub silent_hold_of_new_order :
      match_ (match_input endpoint (opened_entry cfg endpoint call)) s.scenarios ≡ (some sc, rules)
      → sc.action ≡ "sync_error_async_webhook"
      → (flitt_status cfg.order (opened_entry cfg endpoint call).order_id s.world).0
        ≡ err flitt_not_found
      → let r = json_endpoint cfg endpoint fn call s in
        (r.0
          ≡ answered (pos 200) (
              new_failure
                (param_int (some sc) "error_code" (pos 1001))
                (param (some sc) "message" "payment declined")))
        × (r.1.world ≡ s.world)
  unfolding respond finish opened_entry new_entry sent
  silent_hold_of_new_order found silent unknown =
      let entry = hit_by sc (opened_entry cfg endpoint call) in
      rw
        (
          json_endpoint-ruled found,
          ruled-silent cfg fn call sc entry (record s { scenarios = rules }) silent,
        )
        (refl, early_callback-unknown cfg entry s.world sc refl unknown)
