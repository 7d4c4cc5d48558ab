-- ===== src/FreedomPay/EndpointTests.antt =====
-- A request of Freedom Pay on its way, for examples.
use chaospay.Prelude.{String, ◌≡◌, refl, inl, inr, [], ◌∷◌, false, true}
use chaospay.Prelude.Words.{pos}
use chaospay.Prelude.Assoc.{lookup, nat_eq}
use chaospay.Prelude.Decimal.{parse_uint, decimal}
use chaospay.Payment.{Record, zero_record}
use chaospay.Payment.Repo.{new_pay_repo, Clock}
use chaospay.Http.{Call, Shared}
use chaospay.FreedomPay.{OrdMap, text, child, end, pair, get, verify}
use chaospay.FreedomPay.Handlers.{handle_hold}
use chaospay.FreedomPay.Rendering.{render_response, replace_tag_value, remove_tag}
use chaospay.FreedomPay.Replies.{PayConfig, secret_for}
use chaospay.FreedomPay.Endpoint.{is_signed, xml_endpoint}
use chaospay.FreedomPay.Webhooks.{build_pay_form, sign_pay_form, card_webhook_fields}
use chaospay.FreedomPay.Accepted.{IsAccepted, webhooks-IsAccepted}
use chaospay.FreedomPay.Refusals.{refused_changes_nothing}

abbrev clock : Clock
clock n = 62135596800000000000

abbrev fields : OrdMap
fields = pair "pg_payment_id" (text "7") (pair "pg_sig" (text "forged") end)

-- A digest that answers the same for every text.
abbrev config : PayConfig
config = record {
  handlers = record {
    service = record {
      webhook = false;
      epay_webhook = false;
      flitt_webhook = false;
      auto_webhook = record { freedom = false; epay = false; flitt = false };
    };
    default_terminal_id = pos 1;
    hosted_form_url = "";
    format = λ t. "";
  };
  secret = "default";
  secrets = (554415, "own") ∷ [];
  md5 = λ s. "digest";
  read = λ body. inl (body, fields);
}

abbrev call : Call String
call = record {
  method = "POST";
  url = "/v1/merchant/1/card/direct";
  authorization = "";
  body = "";
  duration_ms = pos 1;
  logged_at = 1;
  print = λ s. s;
  shorten = λ s. s;
  reads_at_once = true;
}

abbrev server : Shared
server = record {
  world = record { repo = new_pay_repo 62135596800000000000; spawned = [] };
  scenarios = record { scenarios = []; next_id = 0 };
  journal = record { entries = []; cap = 10; next_id = 0 };
}

rendered :
    render_response "response"
      (pair "pg_status" (text "a<b") (pair "p" (child (pair "q" (text "1") end)) end))
    ≡ "<?xml version=\"1.0\" encoding=\"utf-8\"?><response><pg_status>a&lt;b</pg_status><p><q>1</q></p></response>"
unfolding render_response
rendered = refl

changed_texts :
    (replace_tag_value "<r><pg_sig>abc</pg_sig></r>" "pg_sig" "0" ≡ "<r><pg_sig>0</pg_sig></r>")
    × (remove_tag "<r><pg_sig>abc</pg_sig><x>1</x></r>" "pg_sig" ≡ "<r><x>1</x></r>")
    × (remove_tag "<r><x>1</x></r>" "pg_sig" ≡ "<r><x>1</x></r>")
unfolding replace_tag_value remove_tag
changed_texts = (refl, refl, refl)

secrets_of_cabinets :
    (secret_for config "554415" ≡ "own")
    × (secret_for config "1" ≡ "default")
    × (secret_for config "x" ≡ "default")
unfolding secret_for parse_uint lookup
secrets_of_cabinets = (refl, refl, refl)

forged : is_signed config "direct" fields ≡ false
unfolding is_signed verify get
forged = refl

refused_changes_nothing_example :
    let s' =
      (xml_endpoint config clock "direct" "direct" "salt"
        (handle_hold config.handlers clock)
        call
        server).1 in
    (s'.world ≡ server.world) × (s'.scenarios ≡ server.scenarios)
refused_changes_nothing_example =
    refused_changes_nothing config clock "direct" "direct" "salt"
      (handle_hold config.handlers clock) call server (inr ("", fields, refl, forged))

abbrev paid : Record
paid = record zero_record { payment_id = 7; order_id = 3; merchant_id = 554415; amount = 500 }

webhooks-IsAccepted_example :
    IsAccepted
      (λ s. s)
      "freedompay"
      "own"
      (sign_pay_form (λ s. s) "salt" (build_pay_form decimal "" paid true false) "own")
    × IsAccepted (λ s. s) "card" "own" (card_webhook_fields (λ s. s) (λ id. "own") "salt" paid)
webhooks-IsAccepted_example =
    webhooks-IsAccepted (λ s. s) (λ id. "own") "salt" decimal "" paid true false
