-- ===== src/Flitt/Tests.antt =====
-- Requests to Flitt for examples.
use mathlib.Core.Path.{subst}
use mathlib.Core.List.{Perm}
use mathlib.Core.List.Perm
use chaospay.Prelude.{
  eq_iff, String, str_eq, Bool-cases, inl, inr, ℕ, ◌≡◌, refl, true, false, none, some, [], ◌∷◌,
}
use chaospay.Prelude.Words.{pos}
use chaospay.Prelude.Decimal.{decimal, parse_uint}
use chaospay.Prelude.Assoc.{Assoc, lookup, string_eq}
use chaospay.Bank.{Bank}
use chaospay.Payment.{Time}
use chaospay.Payment.Repo.{new_pay_repo, list_records, get, err, flitt_not_found}
use chaospay.PayService.Flitt.{flitt_status}
use chaospay.Scenario.{Scenario, matches}
use chaospay.Scenario.Params.{param, param_int}
use chaospay.Scenario.Store.{match_, hit}
use chaospay.RequestLog.{Entry, add}
use chaospay.Transport.{answered, client_status, wire_status}
use chaospay.Http.{Shared, Handler, Call}
use chaospay.Flitt.Requests.{DirectRequest}
use chaospay.Flitt.Bodies.{Envelope, new_failure}
use chaospay.Flitt.Handlers.{FlittConfig, handle_direct}
use chaospay.Flitt.Endpoint.{opened_entry, match_input, json_endpoint}
use chaospay.Flitt.Rules.{silent_hold_of_new_order}
use chaospay.Flitt.Journal.{journal_tells_status}
use chaospay.Flitt.Signature.{text_param, int_param, bool_param, signed_keys, flitt_sign, Param}
use chaospay.Flitt.KeyOrder.{sign_ignores_order}

abbrev clock : ℕ → Time
clock n = 62135596800000000000

abbrev config : FlittConfig
config = record {
  service = record {
    webhook = false;
    epay_webhook = false;
    flitt_webhook = true;
    auto_webhook = record { freedom = false; epay = false; flitt = true };
  };
  webhook = true;
  auto_webhook = true;
  hosted_form_url = "";
  send = λ d. none;
  format = λ layout t. "";
  order = λ l. l;
  read_order_id = λ body. some " 100500 ";
  read_signature = λ body. none;
}

abbrev request : DirectRequest
request = record {
  order_id = "100500";
  merchant_id = pos 1549901;
  order_desc = "";
  amount = pos 5000;
  currency = "KZT";
  container = "";
  server_callback_url = "";
  client_ip = "";
  preauth = "";
  signature = "";
}

abbrev direct : Handler Envelope
direct = handle_direct config clock (some request)

abbrev call : Call Envelope
call = record {
  method = "POST";
  url = "/api/3dsecure_step1";
  authorization = "";
  body = "{}";
  duration_ms = pos 1;
  logged_at = 1;
  print = λ b. "";
  shorten = λ s. s;
  reads_at_once = true;
}

abbrev rule : Scenario
rule = record {
  id = "sc-1";
  bank = Bank.flitt;
  endpoint = "flitt_direct";
  payment_id = "*";
  order_id = "*";
  merchant_id = "*";
  action = "sync_error_async_webhook";
  params = [];
  consume_once = false;
  hit_count = 0;
  created_at = 1;
}

abbrev server : Shared
server = record {
  world = record { repo = new_pay_repo 62135596800000000000; spawned = [] };
  scenarios = record { scenarios = rule ∷ []; next_id = 1 };
  journal = record { entries = []; cap = 10; next_id = 0 };
}

-- The texts that are hashed, shown by a digest that leaves them as they are.
signed_samples :
    (flitt_sign (λ s. s) "test" [] ≡ "test|")
    × (flitt_sign
          (λ s. s)
          "test"
          (("order_id", text_param "1")
            ∷ ("amount", int_param (pos 100))
            ∷ ("signature", text_param "no")
            ∷ ("language", text_param "")
            ∷ ("preauth", bool_param true)
            ∷ [])
        ≡ "test|100|1|Y")
unfolding flitt_sign decimal
signed_samples = (refl, refl)

found :
    match_ (match_input "flitt_direct" (opened_entry config "flitt_direct" call)) server.scenarios
    ≡ (some (hit rule), record { scenarios = hit rule ∷ []; next_id = 1 })
unfolding match_ match_input matches opened_entry
found = refl

unknown :
    (flitt_status config.order (opened_entry config "flitt_direct" call).order_id server.world).0
    ≡ err flitt_not_found
unfolding flitt_status opened_entry new_pay_repo parse_uint list_records get lookup
unknown = refl

silent_hold_of_new_order_example :
    let r = json_endpoint config "flitt_direct" direct call server in
    (r.0
      ≡ answered (pos 200) (
          new_failure
            (param_int (some (hit rule)) "error_code" (pos 1001))
            (param (some (hit rule)) "message" "payment declined")))
    × (r.1.world ≡ server.world)
silent_hold_of_new_order_example =
    silent_hold_of_new_order config "flitt_direct" direct call server (hit rule)
      (record { scenarios = hit rule ∷ []; next_id = 1 }) found refl unknown

journal_tells_status_example :
    let r = json_endpoint config "flitt_direct" direct call server in
    (entry : Entry) × (r.1.journal ≡ add call.logged_at entry server.journal)
    × (wire_status r.0 ≡ client_status entry.status_code)
journal_tells_status_example = journal_tells_status config "flitt_direct" direct call server

-- The parameters of the program's own test, in two orders.
abbrev listing : Assoc String Param
listing = ("order_id", text_param "1") ∷ ("amount", int_param (pos 100)) ∷ []

abbrev other_listing : Assoc String Param
other_listing = ("amount", int_param (pos 100)) ∷ ("order_id", text_param "1") ∷ []

same_map : (key : String) → lookup key listing ≡ lookup key other_listing
unfolding lookup
same_map key = elim (Bool-cases (str_eq "order_id" key)) [
  | inl here ↦
      subst (λ k. lookup k listing ≡ lookup k other_listing) ((eq_iff "order_id" key).0 here) refl
  | inr miss ↦ rw miss refl
]

rearranged : Perm (signed_keys listing) (signed_keys other_listing)
unfolding signed_keys
rearranged = Perm.swap "amount" "order_id" []

sign_ignores_order_example :
    flitt_sign (λ s. s) "test" listing ≡ flitt_sign (λ s. s) "test" other_listing
sign_ignores_order_example =
    sign_ignores_order (λ s. s) "test" listing other_listing same_map rearranged
