-- ===== src/Epay/Rules.antt =====
-- Which rules reach a request of Halyk Epay (`jsonEndpoint` of internal/ports/api/epay/handler.go), and
-- what becomes of the payment when a rule loses the answer.
use chaospay.Prelude.{
  String, ◌≡◌, refl, Bool, true, false, not, ◌&&◌, ◌||◌, none, some, List, [], ◌∷◌, inl, inr, ◌⊎◌,
  arith, str_eq, Bool-cases, if◌then◌else◌, All,
}
use chaospay.Prelude.Words.{ℤ}
use chaospay.Bank.{Bank}
use chaospay.PayService.{World}
use chaospay.Scenario.{Scenario, matches, match_value, wildcard}
use chaospay.Scenario.Store.{ScenarioStore, first_match, match_}
use chaospay.RequestLog.{Entry}
use chaospay.Transport.{Wire, answered, closed, Ending, sent, transport}
use chaospay.Http.{Call, Handler, Outcome, broken, hit_by, new_entry, replied}
use chaospay.Epay.Bodies.{Body, failure}
use chaospay.Epay.Handlers.{EpayConfig}
use chaospay.Epay.Server.{Server, has_bearer, finalize, respond_json}
use chaospay.Epay.Endpoint.{
  after_handler, lose_answer, is_confirm_lost, is_late, serve_ruled, serve_matched, match_input,
  json_endpoint,
}

-- A value of a rule that stands for one request only.
abbrev pub is_specific : String → Bool
is_specific v = not (str_eq v "" || str_eq v wildcard)

-- A rule for one payment, one order or one merchant.
abbrev pub names_one : Scenario → Bool
names_one sc = is_specific sc.payment_id || is_specific sc.order_id || is_specific sc.merchant_id

abbrev pub first_entry : String → Call Body → Entry
first_entry endpoint call = new_entry Bank.epay endpoint (has_bearer call.authorization) call

-- A specific value is no value of a request that has none.
match_value-specific : (v : String) → is_specific v ≡ true → match_value v "" ≡ false
unfolding match_value
match_value-specific v h = ground (arith, h)

named-matches :
    (sc : Scenario) (endpoint : String) (call : Call Body)
    → names_one sc ≡ true
    → matches sc (match_input endpoint (first_entry endpoint call)) ≡ false
unfolding matches match_input new_entry
named-matches sc endpoint call h = ground (
  arith,
  h,
  match_value-specific sc.payment_id,
  match_value-specific sc.order_id,
  match_value-specific sc.merchant_id,
)

first_match-named :
    (rules : List Scenario) (endpoint : String) (call : Call Body)
    → All (λ sc. names_one sc ≡ true) rules
    → first_match (match_input endpoint (first_entry endpoint call)) rules ≡ (none, rules)
unfolding first_match
first_match-named [] endpoint call h = refl
first_match-named (sc ∷ rules) endpoint call h =
    rw (named-matches sc endpoint call h.0, first_match-named rules endpoint call h.1) refl

-- Rules that are for one payment, one order or one merchant are never found for a request of Epay: the
-- wrapper asks for a rule before it knows whom the request is about. The answer, the payments and the
-- rules are what they are without any rule.
pub named_rules_never_hit :
    (cfg : EpayConfig) (endpoint : String) (fn : Handler Body) (call : Call Body) (s : Server)
    → All (λ sc. names_one sc ≡ true) s.scenarios.scenarios
    → json_endpoint cfg endpoint fn call s
      ≡ after_handler (λ body. body) call (fn none (first_entry endpoint call) s.world) s
unfolding json_endpoint match_ serve_matched
named_rules_never_hit cfg endpoint fn call s h =
    rw (first_match-named s.scenarios.scenarios endpoint call h) refl

abbrev Closes : Scenario → Type 0
Closes sc = (sc.action ≡ "timeout") ⊎ (sc.action ≡ "connection_reset")

-- How `Transport` ends the request under such a rule.
closing :
    (sc : Scenario) → Closes sc → (e : Ending Body) × (transport sc ≡ some e) × (e.wire ≡ closed)
unfolding transport
closing sc (inl e) =
    (record { wire = closed; status_code = ℤ.pos 0; shown = "(timeout)" }, rw e refl, refl)
closing sc (inr e) =
    (record { wire = closed; status_code = ℤ.pos 0; shown = "(connection reset)" }, rw e refl, refl)

is_closing :
    (sc : Scenario)
    → Closes sc
    → (str_eq sc.action "timeout" || str_eq sc.action "connection_reset") ≡ true
is_closing sc (inl e) = rw e refl
is_closing sc (inr e) = rw e refl

and_false : (b : Bool) → (b && false) ≡ false
and_false true = refl
and_false false = refl

not_late : (endpoint : String) (sc : Scenario) → Closes sc → is_late endpoint sc ≡ false
unfolding is_late
not_late endpoint sc (inl e) = rw e (and_false (str_eq endpoint "epay_cryptopay"))
not_late endpoint sc (inr e) = rw e (and_false (str_eq endpoint "epay_cryptopay"))

-- What a client gets whose answer is lost: an error is still told.
abbrev pub lost_wire : Outcome Body → Wire Body
lost_wire (broken e) = answered (ℤ.pos 400) (failure e)
lost_wire (replied status body) = closed

lose_answer-closing :
    (sc : Scenario) (call : Call Body) (ran : Outcome Body × Entry × World) (s : Server)
    → Closes sc
    → ((lose_answer sc call ran s).0 ≡ lost_wire ran.0)
      × ((lose_answer sc call ran s).1.world ≡ ran.2)
unfolding lose_answer finalize respond_json sent
lose_answer-closing sc call (broken e, entry, w) s closes = (refl, refl)
lose_answer-closing sc call (replied status body, entry, w) s closes =
    let (e, ends, wire) = closing sc closes in rw (ends, lose_answer) (wire, refl)

module _ (cfg : EpayConfig) (endpoint : String) (fn : Handler Body) (call : Call Body)
    (sc : Scenario) (entry : Entry) (s : Server) where
  abbrev Lost : Type 0
  Lost =
      let r = serve_ruled cfg endpoint fn call sc entry s in
      let ran = fn (some sc) entry s.world in
      (r.0 ≡ (if str_eq endpoint "epay_confirm" then lost_wire ran.0 else closed))
      × (r.1.world ≡ (if str_eq endpoint "epay_confirm" then ran.2 else s.world))

  lost : Closes sc → Lost
  unfolding serve_ruled
  lost closes = elim (Bool-cases (str_eq endpoint "epay_confirm")) [
    | inl here ↦
        rw (here, is_closing sc closes, serve_ruled, is_confirm_lost)
          (lose_answer-closing sc call (fn (some sc) entry s.world) s closes)
    | inr other ↦
        let (e, ends, wire) = closing sc closes in
        rw (other, not_late endpoint sc closes, ends, serve_ruled, is_confirm_lost) (wire, refl)
  ]

json_endpoint-ruled :
    (cfg : EpayConfig) (endpoint : String) (fn : Handler Body) (call : Call Body) (s : Server)
    (sc : Scenario) (rules : ScenarioStore)
    → match_ (match_input endpoint (first_entry endpoint call)) s.scenarios ≡ (some sc, rules)
    → json_endpoint cfg endpoint fn call s
      ≡ serve_ruled cfg endpoint fn call sc
          (hit_by sc (first_entry endpoint call))
          (record s { scenarios = rules })
unfolding json_endpoint serve_matched
json_endpoint-ruled cfg endpoint fn call s sc rules found = rw found refl

module _ (cfg : EpayConfig) (endpoint : String) (fn : Handler Body) (call : Call Body) (s : Server)
    (sc : Scenario) (rules : ScenarioStore) where
  -- A rule that closes the connection. At the confirmation of a 3DS check the handler runs first: what
  -- it does to the payments stays, though the client gets nothing, unless the handler fails, which it is
  -- told. At any other endpoint the client gets nothing, and the handler does not run: the payments are
  -- what they were.
  pub lost_answers :
      match_ (match_input endpoint (first_entry endpoint call)) s.scenarios ≡ (some sc, rules)
      → (sc.action ≡ "timeout") ⊎ (sc.action ≡ "connection_reset")
      → let r = json_endpoint cfg endpoint fn call s in
        let ran = fn (some sc) (hit_by sc (first_entry endpoint call)) s.world in
        (r.0 ≡ (if str_eq endpoint "epay_confirm" then lost_wire ran.0 else closed))
        × (r.1.world ≡ (if str_eq endpoint "epay_confirm" then ran.2 else s.world))
  lost_answers found action = rw (json_endpoint-ruled cfg endpoint fn call s sc rules found) (
      lost cfg endpoint fn call sc (hit_by sc (first_entry endpoint call))
        (record s { scenarios = rules }) action)
