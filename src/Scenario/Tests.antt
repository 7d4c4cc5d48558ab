-- ===== src/Scenario/Tests.antt =====
-- Rules and requests for examples, and the theorems of the rules at them.
use chaospay.Prelude.{String, ◌≡◌, refl, Bool, true, false, some, [], ◌∷◌, ◌++◌}
use mathlib.Core.List.{Perm, map}
use chaospay.Bank.{Bank}
use chaospay.Scenario.{Scenario, MatchInput, matches}
use chaospay.Scenario.Store.{ScenarioStore, hit, first_match, match_, remove, add}
use chaospay.Scenario.Matching.{bare, Found, match-Found, serve, serve_once, match-add}

abbrev rule : String → Bool → Scenario
rule id once = record {
  id = id;
  bank = Bank.any;
  endpoint = "*";
  payment_id = "";
  order_id = "";
  merchant_id = "";
  action = "timeout";
  params = [];
  consume_once = once;
  hit_count = 0;
  created_at = 1;
}

abbrev request : MatchInput
request = record {
  bank = Bank.freedom;
  endpoint = "init";
  payment_id = "1";
  order_id = "2";
  merchant_id = "3";
}

-- A rule for one use in front of one for every use.
abbrev rules : ScenarioStore
rules = record { scenarios = rule "sc-1" true ∷ rule "sc-2" false ∷ []; next_id = 2 }

-- The rule for one use answers first.
picks_first : (match_ request rules).0 ≡ some (hit (rule "sc-1" true))
unfolding match_ first_match matches
picks_first = refl

-- Without it, the other one does.
picks_second : (match_ request (remove "sc-1" rules)).0 ≡ some (hit (rule "sc-2" false))
unfolding match_ first_match matches remove
picks_second = refl

match-Found_example :
    Found request rules.scenarios ((match_ request rules).0, (match_ request rules).1.scenarios)
match-Found_example = match-Found request rules

serve_once_example :
    Perm
      (map bare (
        (serve (request ∷ request ∷ []) rules).0
        ++ (serve (request ∷ request ∷ []) rules).1.scenarios))
      (map bare (rule "sc-1" true ∷ rule "sc-2" false ∷ []))
serve_once_example = serve_once (request ∷ request ∷ []) rules

match-add_example :
    match_ request (add 5 (rule "" false) rules)
    ≡ (some (hit (rule "sc-1" true)), add 5 (rule "" false) (match_ request rules).1)
match-add_example = match-add 5 (rule "" false) request rules (hit (rule "sc-1" true)) picks_first
