-- ===== src/Epay/Tests.antt =====
-- Requests to Halyk Epay for examples.
use chaospay.Prelude.{
  ℕ, String, ◌≡◌, refl, true, false, none, some, [], ◌∷◌, arith, str_eq, inl, if◌then◌else◌,
}
use chaospay.Prelude.Words.{pos}
use chaospay.Prelude.Decimal.{decimal, parse_uint, digit_value}
use chaospay.Bank.{Bank}
use chaospay.Payment.{Time, Record, zero_record, no_epay}
use chaospay.PayService.{World}
use chaospay.Payment.Repo.{new_pay_repo, list_records}
use chaospay.Scenario.{Scenario, matches}
use chaospay.Scenario.Store.{match_, hit}
use chaospay.Transport.{closed}
use chaospay.Epay.Bodies.{Body}
use chaospay.Http.{Call, Handler, hit_by, new_entry}
use chaospay.Epay.Invoice.{format_invoice, parse_invoice, operation_id_from_path}
use chaospay.Epay.Invoice.Reading.{parse-format_invoice}
use chaospay.Epay.Reasons.{classify, insufficient_funds}
use chaospay.Epay.Handlers.{EpayConfig}
use chaospay.Epay.Operations.{handle_confirm, query_amount, payment_by_invoice}
use chaospay.Epay.Newest.{IsNewest, payment_by_invoice-IsNewest}
use chaospay.Epay.Server.{Server, has_bearer}
use chaospay.Epay.Endpoint.{json_endpoint, after_handler, match_input}
use chaospay.Epay.Rules.{named_rules_never_hit, lost_answers, lost_wire, first_entry}

abbrev clock : ℕ → Time
clock n = 62135596800000000000

abbrev config : EpayConfig
config = record {
  service = record {
    webhook = false;
    epay_webhook = false;
    flitt_webhook = false;
    auto_webhook = record { freedom = false; epay = false; flitt = false };
  };
  webhook = true;
  auto_webhook = true;
  terminal_uuid = "t";
  acs_url = "";
  format = λ t. "";
  order = λ l. l;
  quote = λ s. s;
}

abbrev call : Call Body
call = record {
  method = "POST";
  url = "/api/payment/confirm";
  authorization = "Bearer abc";
  body = "";
  duration_ms = pos 1;
  logged_at = 1;
  print = λ b. "";
  shorten = λ s. s;
  reads_at_once = true;
}

abbrev rule : String → String → Scenario
rule action order = record {
  id = "sc-1";
  bank = Bank.epay;
  endpoint = "epay_confirm";
  payment_id = "*";
  order_id = order;
  merchant_id = "*";
  action = action;
  params = [];
  consume_once = false;
  hit_count = 0;
  created_at = 1;
}

abbrev server : Scenario → Server
server sc = record {
  world = record { repo = new_pay_repo 62135596800000000000; spawned = [] };
  scenarios = record { scenarios = sc ∷ []; next_id = 1 };
  journal = record { entries = []; cap = 10; next_id = 0 };
  tokens = record { tokens = [] };
}

abbrev confirm : Handler Body
confirm = handle_confirm config clock (some (record { id = "mock-epay-1"; pa_res = "p"; md = "m" }))

invoice_sample : format_invoice 123 ≡ "000123"
unfolding format_invoice decimal
invoice_sample = refl

operation_sample : operation_id_from_path "mock-epay-42" ≡ 42
unfolding operation_id_from_path parse_uint
operation_sample = refl

reason_sample : classify (pos 484) ≡ insufficient_funds
unfolding classify
reason_sample = refl

amount_samples :
    (query_amount "12" ≡ pos 12)
    × (query_amount "x" ≡ pos 0)
    × (query_amount "99999999999999999999" ≡ pos 9223372036854775807)
unfolding query_amount digit_value
amount_samples = (refl, refl, refl)

bearer_samples : (has_bearer "Bearer abc" ≡ true) × (has_bearer "Bearer  " ≡ false)
unfolding has_bearer
bearer_samples = (refl, refl)

parse-format_invoice_example : parse_invoice (format_invoice 123) ≡ 123
parse-format_invoice_example = parse-format_invoice 123 (omega arith)

named_rules_never_hit_example :
    json_endpoint config "epay_confirm" confirm call (server (rule "timeout" "123"))
    ≡ after_handler
        (λ body. body)
        call
        (confirm none (first_entry "epay_confirm" call) (server (rule "timeout" "123")).world)
        (server (rule "timeout" "123"))
named_rules_never_hit_example =
    named_rules_never_hit config "epay_confirm" confirm call (server (rule "timeout" "123"))
      (refl, tt)

found :
    match_
      (match_input "epay_confirm" (first_entry "epay_confirm" call))
      (server (rule "timeout" "*")).scenarios
    ≡ (
      some (hit (rule "timeout" "*")),
      record { scenarios = hit (rule "timeout" "*") ∷ []; next_id = 1 },
    )
unfolding match_ match_input matches new_entry
found = refl

lost_answers_example :
    let sc = hit (rule "timeout" "*") in
    let ran =
      confirm
        (some sc)
        (hit_by sc (first_entry "epay_confirm" call))
        (server (rule "timeout" "*")).world in
    let r = json_endpoint config "epay_confirm" confirm call (server (rule "timeout" "*")) in
    (r.0 ≡ (if str_eq "epay_confirm" "epay_confirm" then lost_wire ran.0 else closed))
    × (r.1.world ≡ (
        if str_eq "epay_confirm" "epay_confirm"
        then ran.2
        else (server (rule "timeout" "*")).world))
lost_answers_example =
    lost_answers config "epay_confirm" confirm call (server (rule "timeout" "*"))
      (hit (rule "timeout" "*")) (record { scenarios = hit (rule "timeout" "*") ∷ []; next_id = 1 })
      found (inl refl)

-- Two payments of one invoice.
abbrev paid_as : ℕ → Record
paid_as id = record zero_record {
  bank = Bank.epay;
  payment_id = id;
  epay = record no_epay { invoice_id = "000123" };
}

abbrev paid_twice : World
paid_twice = record {
  repo = record {
    by_id = (7, paid_as 7) ∷ (9, paid_as 9) ∷ [];
    by_order = [];
    next_id = 9;
    ref_seed = 0;
  };
  spawned = [];
}

payment_by_invoice-IsNewest_example :
    IsNewest 1 "000123"
      (list_records config.order paid_twice.repo)
      (payment_by_invoice config 1 "000123" paid_twice)
payment_by_invoice-IsNewest_example = payment_by_invoice-IsNewest config 1 "000123" paid_twice

newest_sample : payment_by_invoice config 1 "000123" paid_twice ≡ some (paid_as 9)
unfolding payment_by_invoice list_records
newest_sample = refl
