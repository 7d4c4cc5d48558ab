-- ===== src/Epay/TokenEndpoint.antt =====
-- internal/ports/api/epay/token.go: the request for a token.
use chaospay.Prelude.{String, false, ◌||◌, Option, none, some, str_eq, if◌then◌else◌}
use chaospay.Prelude.Words.{pos}
use chaospay.Bank.{Bank}
use chaospay.Payment.{Time}
use chaospay.Scenario.{Scenario}
use chaospay.Scenario.Params.{param}
use chaospay.Scenario.Store.{ScenarioStore, match_}
use chaospay.RequestLog.{Entry}
use chaospay.Transport.{Wire, transport}
use chaospay.Http.{Call, hit_by, new_entry}
use chaospay.Epay.Tokens.{Client, issue}
use chaospay.Epay.Bodies.{Body, token_body}
use chaospay.Epay.Server.{Server, finalize, respond_json, respond_error}

-- The answer of `handleToken`, and the tokens from the random source.
abbrev token_answer : String → String → Body
token_answer access refresh = token_body (record {
  access_token = access;
  refresh_token = refresh;
  expires_in = "3600";
  scope = "webapi usermanagement email_send verification statement statistics payment";
  token_type = "Bearer";
})

abbrev pub issue_and_answer :
    Call Body → Time → String → String → Client → Entry → Server → Wire Body × Server
unfolding respond_json issue
issue_and_answer call now access refresh client entry s =
    let (info, tokens) = issue now access refresh client s.tokens in
    respond_json call entry (pos 200) (token_answer access refresh) (record s { tokens = tokens })

-- `handleToken` under a rule.
unfoldable pub token_ruled :
    Call Body → Time → String → String → Client → Scenario → Entry → Server → Wire Body × Server
unfolding transport finalize param respond_error issue_and_answer
token_ruled call now access refresh client sc entry s = elim (transport {B = Body} sc) [
  | some e ↦ finalize call entry e s
  | none ↦
      if str_eq sc.action "force_failure" || str_eq sc.action "force_unauthorized"
      then respond_error call entry (pos 401)
          (param (some sc) "message" "Invalid client credentials") s
      else if str_eq sc.action "force_forbidden"
      then respond_error call entry (pos 403) (param (some sc) "message" "Forbidden") s
      else issue_and_answer call now access refresh client entry s
]

abbrev token_matched :
    Call Body
    → Time
    → String
    → String
    → Client
    → Entry
    → Option Scenario × ScenarioStore
    → Server
    → Wire Body × Server
unfolding token_ruled issue_and_answer
token_matched call now access refresh client entry (none, rules) s =
    issue_and_answer call now access refresh client entry (record s { scenarios = rules })
token_matched call now access refresh client entry (some sc, rules) s =
    token_ruled call now access refresh client sc (hit_by sc entry) (record s { scenarios = rules })

-- `handleToken`, at the parsed form.
unfoldable pub handle_token :
    Call Body → Time → String → String → Client → Server → Wire Body × Server
unfolding new_entry match_ token_matched
handle_token call now access refresh client s =
    let entry = record (new_entry Bank.epay "epay_token" false call) {
      order_id = client.invoice_id;
    } in
    token_matched call now access refresh client entry
      (match_
        (record {
          bank = Bank.epay;
          endpoint = "epay_token";
          payment_id = "";
          order_id = client.invoice_id;
          merchant_id = "";
        })
        s.scenarios)
      s
