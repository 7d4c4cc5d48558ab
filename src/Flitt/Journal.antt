-- ===== src/Flitt/Journal.antt =====
-- What the journal gets of a request of Flitt (`jsonEndpoint` of internal/ports/api/flitt/handler.go).
use chaospay.Prelude.{Option-cases, String, ◌≡◌, refl, Option, none, some, inl, inr, arith}
use chaospay.Prelude.Words.{ℤ, pos}
use chaospay.PayService.{World}
use chaospay.Scenario.{Scenario}
use chaospay.Scenario.Store.{ScenarioStore, match_}
use chaospay.RequestLog.{Entry, RequestLog, add}
use chaospay.Scenario.Params.{param_int}
use chaospay.Transport.{
  Wire, answered, http_error, bare_status, Ending, transport, wire_status, client_status,
  wire_status-sent,
}
use chaospay.Http.{
  Shared, finish, Outcome, replied, broken, Handler, Call, logged, json_ending, hit_by,
}
use chaospay.Flitt.Bodies.{Envelope}
use chaospay.Flitt.Handlers.{FlittConfig}
use chaospay.Flitt.Effects.{apply_scenario_before, early_callback, apply_scenario_after}
use chaospay.Flitt.Endpoint.{
  respond, after_handler, answer_or_run, serve_ruled, opened_entry, match_input, serve_matched,
  json_endpoint,
}

-- The journal grew by one entry, and the client got the status that net/http makes of the entry's.
abbrev pub Told : Call Envelope → RequestLog → Wire Envelope × Shared → Type 0
Told call journal r =
    (entry : Entry) × (r.1.journal ≡ add call.logged_at entry journal)
    × (wire_status r.0 ≡ client_status entry.status_code)

finish-Told :
    (call : Call Envelope) (entry : Entry) (e : Ending Envelope) (s : Shared)
    → wire_status e.wire ≡ client_status e.status_code
    → Told call s.journal (finish call entry e s)
unfolding finish logged
finish-Told call entry e s h = (
  record entry {
    status_code = e.status_code;
    response_body = call.shorten e.shown;
    duration_ms = call.duration_ms;
  },
  refl,
  h,
)

respond-Told :
    (call : Call Envelope) (entry : Entry) (status : ℤ) (body : Envelope) (s : Shared)
    → Told call s.journal (respond call entry status body s)
unfolding respond
respond-Told call entry status body s =
    finish-Told call entry (json_ending call status body) s
      (wire_status-sent status (λ status'. answered status' body) (λ status'. refl))

after_handler-Told :
    (change : Envelope → Envelope) (call : Call Envelope) (ran : Outcome Envelope × Entry × World)
    (s : Shared)
    → Told call s.journal (after_handler change call ran s)
unfolding after_handler
after_handler-Told change call (replied status body, entry, w) s =
    respond-Told call entry _ _ (record s { world = w })
after_handler-Told change call (broken e, entry, w) s =
    respond-Told call entry _ _ (record s { world = w })

-- What ends a request tells the journal the code that the client's status comes from.
abbrev IsHonest : Option (Ending Envelope) → Type 0
IsHonest none = Unit
IsHonest (some e) = wire_status e.wire ≡ client_status e.status_code

transport-IsHonest : (sc : Scenario) → IsHonest (transport sc)
unfolding transport client_status
transport-IsHonest sc = ground (
  arith,
  wire_status-sent {B = Envelope} (param_int (some sc) "http_status" (pos 500))
      (λ status. http_error status (param_int (some sc) "http_status" (pos 500))) (λ status. refl),
  wire_status-sent {B = Envelope} (param_int (some sc) "http_status" (pos 418))
      (λ status. bare_status status) (λ status. refl),
)

module _ (cfg : FlittConfig) (fn : Handler Envelope) (call : Call Envelope) (sc : Scenario)
    (entry : Entry) (s : Shared) where
  answer_or_run-Told :
      (own : Option (ℤ × Envelope)) → Told call s.journal (answer_or_run cfg fn call sc entry own s)
  unfolding answer_or_run
  answer_or_run-Told (some (status, body)) =
      respond-Told call entry status body (record s { world = early_callback cfg sc entry s.world })
  answer_or_run-Told none =
      after_handler-Told (apply_scenario_after sc) call (fn (some sc) entry s.world) s

  serve_ruled-Told : Told call s.journal (serve_ruled cfg fn call sc entry s)
  unfolding serve_ruled
  serve_ruled-Told = elim (Option-cases (transport {B = Envelope} sc)) [
    | inl goes_on ↦ rw (goes_on, serve_ruled) (answer_or_run-Told (apply_scenario_before sc))
    | inr (e, ends) ↦
        rw (ends, serve_ruled) (finish-Told call entry e s (rw ends at (transport-IsHonest sc)))
  ]

module _ (cfg : FlittConfig) (endpoint : String) (fn : Handler Envelope) (call : Call Envelope)
    (s : Shared) where
  matched-Told :
      (entry : Entry) (found : Option Scenario × ScenarioStore)
      → Told call s.journal (serve_matched cfg fn call entry found s)
  unfolding serve_matched
  matched-Told entry (none, rules) =
      after_handler-Told (λ body. body) call (fn none entry s.world)
        (record s { scenarios = rules })
  matched-Told entry (some sc, rules) =
      serve_ruled-Told cfg fn call sc (hit_by sc entry) (record s { scenarios = rules })

  -- Every request of Flitt, whatever rule it meets and whatever the handler answers, adds one entry to the
  -- journal, and the code in that entry tells what the client got: that very status, if the code is 101 or
  -- one from 200 to 999; the status 200, if it is another one from 100 to 199; and a closed connection,
  -- for which 0 stands, if it is no such code, as the number that a rule asks for may be.
  pub journal_tells_status :
      (entry : Entry) × ((json_endpoint cfg endpoint fn call s).1.journal
        ≡ add call.logged_at entry s.journal)
      × (wire_status (json_endpoint cfg endpoint fn call s).0 ≡ client_status entry.status_code)
  unfolding json_endpoint
  journal_tells_status =
      let entry = opened_entry cfg endpoint call in
      matched-Told entry (match_ (match_input endpoint entry) s.scenarios)
