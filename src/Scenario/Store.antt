-- ===== src/Scenario/Store.antt =====
-- internal/infrastructure/memstore/scenario.go: the list of rules, in the order in which they were
-- added. A method takes the list and returns the new one; what Go mutates through a pointer is
-- written out.
use Prim.Native.String.{◌++◌ as str_append}
use chaospay.Prelude.{
  ℕ, String, not, Option, none, some, List, [], ◌∷◌, ◌++◌, str_eq, select, if◌then◌else◌, ltb,
}
use chaospay.Prelude.Words.{add64}
use chaospay.Prelude.Decimal.{decimal}
use chaospay.Payment.{Time, is_zero_time}
use chaospay.Scenario.{Scenario, MatchInput, matches}

-- `ScenarioStore`
pub record ScenarioStore : Type 0 where
  pub scenarios : List Scenario
  pub next_id : ℕ

-- `NewScenarioStore`
unfoldable pub new_scenario_store : ScenarioStore
new_scenario_store = record { scenarios = []; next_id = 0 }

-- What `Add` fills in, under the number it draws.
unfoldable pub filled_in : Time → ℕ → Scenario → Scenario
filled_in now number sc = record sc {
  id = if str_eq sc.id "" then str_append "sc-" (decimal number) else sc.id;
  created_at = if is_zero_time sc.created_at then now else sc.created_at;
}

-- `Add`
unfoldable pub add : Time → Scenario → ScenarioStore → ScenarioStore
unfolding filled_in
add now sc s =
    let number = add64 s.next_id 1 in
    record {
      scenarios = s.scenarios ++ filled_in now number sc ∷ [];
      next_id = if str_eq sc.id "" then number else s.next_id;
    }

-- `Remove`
unfoldable pub remove : String → ScenarioStore → ScenarioStore
remove id s = record s { scenarios = select (λ sc. not (str_eq sc.id id)) s.scenarios }

-- `Reset`
unfoldable pub reset : ScenarioStore → ScenarioStore
reset s = record s { scenarios = [] }

-- A stable sort by `CreatedAt`, oldest first: `x` goes in front of what is not older.
insert_oldest : Scenario → List Scenario → List Scenario
insert_oldest x [] = x ∷ []
insert_oldest x (y ∷ ys) =
    let rest = insert_oldest x ys in if ltb y.created_at x.created_at then y ∷ rest else x ∷ y ∷ ys

sort_oldest : List Scenario → List Scenario
unfolding insert_oldest
sort_oldest [] = []
sort_oldest (x ∷ xs) = insert_oldest x (sort_oldest xs)

-- `List`
unfoldable pub list_scenarios : ScenarioStore → List Scenario
unfolding sort_oldest
list_scenarios s = sort_oldest s.scenarios

-- `sc.HitCount++`
abbrev pub hit : Scenario → Scenario
hit sc = record sc { hit_count = add64 sc.hit_count 1 }

abbrev pub behind : Scenario → Option Scenario × List Scenario → Option Scenario × List Scenario
behind sc (found, rest) = (found, sc ∷ rest)

-- The loop of `Match`: the first rule that matches is counted, and leaves the list if it is for one use.
unfoldable pub first_match : MatchInput → List Scenario → Option Scenario × List Scenario
first_match in_ [] = (none, [])
first_match in_ (sc ∷ rest) =
    let later = first_match in_ rest in
    if matches sc in_
    then (some (hit sc), if sc.consume_once then rest else hit sc ∷ rest)
    else behind sc later

-- `Match`
unfoldable pub match_ : MatchInput → ScenarioStore → Option Scenario × ScenarioStore
unfolding first_match
match_ in_ s =
    let (found, scenarios) = first_match in_ s.scenarios in
    (found, record s { scenarios = scenarios })
