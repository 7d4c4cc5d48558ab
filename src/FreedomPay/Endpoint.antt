-- ===== src/FreedomPay/Endpoint.antt =====
-- internal/ports/api/pay/handler.go: `xmlEndpoint`, what stands around a handler. Waiting is not modelled.
use Prim.Native.String.{◌++◌ as str_append}
use chaospay.Prelude.{String, Bool, false, not, Option, none, some, inl, inr, if◌then◌else◌}
use chaospay.Prelude.Assoc.{nat_eq}
use chaospay.Bank.{Bank}
use chaospay.Payment.Repo.{Clock}
use chaospay.PayService.{World}
use chaospay.Scenario.{Scenario, MatchInput}
use chaospay.Scenario.Store.{ScenarioStore, match_}
use chaospay.RequestLog.{Entry}
use chaospay.Transport.{Wire, transport}
use chaospay.Http.{Call, new_entry, hit_by, finish, Shared, error_text}
use chaospay.FreedomPay.{OrdMap, verify}
use chaospay.FreedomPay.Requests.{request_get}
use chaospay.FreedomPay.Handlers.{Handler, Answer}
use chaospay.FreedomPay.Effects.{apply_scenario_after}
use chaospay.FreedomPay.Replies.{
  PayConfig, secret_for, Signing, signed_xml, xml_ending, respond_failure, respond_error,
  answer_before, silent_hold, change_text,
}

-- What follows the handler.
unfoldable pub after_handler :
    PayConfig
    → Signing
    → (OrdMap → OrdMap)
    → (String → String)
    → Call String
    → Entry
    → Answer × World
    → Shared
    → Wire String × Shared
unfolding finish respond_failure signed_xml error_text
after_handler cfg g change_fields change_body call entry (inl fields, w) s =
    finish call entry (xml_ending (change_body (signed_xml cfg g (change_fields fields))))
      (record s { world = w })
after_handler cfg g change_fields change_body call entry (inr e, w) s =
    respond_failure cfg g call entry "100" (error_text e) (record s { world = w })

-- The handler under a rule, unless the rule has an answer of its own.
unfoldable pub answer_or_run :
    PayConfig
    → Clock
    → Signing
    → Handler
    → Call String
    → Scenario
    → OrdMap
    → Entry
    → Option OrdMap
    → Shared
    → Wire String × Shared
unfolding finish signed_xml silent_hold apply_scenario_after change_text after_handler
answer_or_run cfg clock g fn call sc req entry (some fields) s =
    finish call entry (xml_ending (signed_xml cfg g fields))
      (record s { world = silent_hold cfg clock sc req s.world })
answer_or_run cfg clock g fn call sc req entry none s =
    after_handler cfg g (apply_scenario_after sc) (change_text sc) call entry
      (fn req (some sc) s.world) s

unfoldable pub serve_matched :
    PayConfig
    → Clock
    → Signing
    → Handler
    → Call String
    → OrdMap
    → Entry
    → Option Scenario × ScenarioStore
    → Shared
    → Wire String × Shared
unfolding after_handler finish answer_before answer_or_run
serve_matched cfg clock g fn call req entry (none, rules) s =
    after_handler cfg g (λ fields. fields) (λ body. body) call entry (fn req none s.world)
      (record s { scenarios = rules })
serve_matched cfg clock g fn call req entry (some sc, rules) s = elim (transport {B = String} sc) [
  | some e ↦ finish call (hit_by sc entry) e (record s { scenarios = rules })
  | none ↦
      answer_or_run cfg clock g fn call sc req (hit_by sc entry) (answer_before sc)
        (record s { scenarios = rules })
]

-- The entry once the fields are read.
unfoldable pub named_entry : OrdMap → Entry → Entry
unfolding request_get
named_entry req entry = record entry {
  payment_id = request_get req "pg_payment_id" "";
  order_id = request_get req "pg_order_id" "";
  merchant_id = request_get req "pg_merchant_id" "";
}

-- What `xmlEndpoint` matches the rules against.
unfoldable pub match_input : String → Entry → MatchInput
match_input endpoint entry = record {
  bank = Bank.freedom;
  endpoint = endpoint;
  payment_id = entry.payment_id;
  order_id = entry.order_id;
  merchant_id = entry.merchant_id;
}

-- Whether the signature of a request is the one that its fields ask for.
unfoldable pub is_signed : PayConfig → String → OrdMap → Bool
unfolding verify secret_for request_get
is_signed cfg endpoint req =
    (verify cfg.md5 endpoint req (secret_for cfg (request_get req "pg_merchant_id" ""))
      (request_get req "pg_sig" "")).1

-- `xmlEndpoint` once the fields are read.
unfoldable pub serve_request :
    PayConfig
    → Clock
    → String
    → Signing
    → Handler
    → Call String
    → OrdMap
    → Entry
    → Shared
    → Wire String × Shared
unfolding is_signed respond_failure request_get match_ match_input serve_matched
serve_request cfg clock endpoint g fn call req entry s =
    let signed_entry = record entry { signature_ok = is_signed cfg endpoint req } in
    if not (is_signed cfg endpoint req)
    then respond_failure cfg g call signed_entry "2000"
        (str_append "invalid signature: got " (request_get req "pg_sig" "")) s
    else serve_matched cfg clock g fn call req signed_entry
        (match_ (match_input endpoint signed_entry) s.scenarios) s

-- `xmlEndpoint`
unfoldable pub xml_endpoint :
    PayConfig
    → Clock
    → String
    → String
    → String
    → Handler
    → Call String
    → Shared
    → Wire String × Shared
unfolding new_entry respond_error named_entry secret_for serve_request
xml_endpoint cfg clock endpoint script_name salt fn call s =
    let opened = new_entry Bank.freedom endpoint false call in
    elim (cfg.read call.body) [
      | inr (kept, refusal) ↦ respond_error call (record opened { request_body = kept }) refusal s
      | inl (kept, req) ↦
          let entry = named_entry req (record opened { request_body = kept }) in
          serve_request cfg clock endpoint
            (record {
              script_name = script_name;
              secret = secret_for cfg entry.merchant_id;
              salt = salt;
            })
            fn call req entry s
    ]
