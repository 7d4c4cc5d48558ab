-- ===== src/RequestLog/Tests.antt =====
-- A journal for an example.
use chaospay.Prelude.{String, ◌≡◌, true, List, [], ◌∷◌}
use chaospay.Prelude.Words.{pos}
use chaospay.Bank.{Bank}
use chaospay.RequestLog.{new_request_log}
use chaospay.RequestLog.Ring.{Arrival, add_all, stamped, keep_last, journal_keeps_last}

abbrev arrival : String → Arrival
arrival url = (
  5,
  record {
    id = 0;
    at = 0;
    bank = Bank.any;
    method = "GET";
    url = url;
    endpoint = "";
    payment_id = "";
    order_id = "";
    merchant_id = "";
    signature_ok = true;
    scenario_hit = "";
    scenario_name = "";
    duration_ms = pos 0;
    status_code = pos 200;
    request_body = "";
    response_body = "";
  },
)

abbrev arrivals : List Arrival
arrivals = arrival "/a" ∷ arrival "/b" ∷ arrival "/c" ∷ []

journal_keeps_last_example :
    (add_all arrivals (new_request_log (pos 2))).entries
    ≡ keep_last (new_request_log (pos 2)).cap (stamped 0 arrivals)
journal_keeps_last_example = journal_keeps_last (pos 2) arrivals
