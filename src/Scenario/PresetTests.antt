-- ===== src/Scenario/PresetTests.antt =====
-- Presets for examples.
use chaospay.Prelude.{
  ℕ, ◌+◌, ◌<◌, String, ◌≡◌, refl, none, some, List, [], ◌∷◌, ◌++◌, str_eq, length, All, find_first,
  map,
}
use chaospay.Prelude.Assoc.{lookup, insert, string_eq}
use chaospay.Prelude.Decimal.{parse_uint}
use chaospay.Scenario.Params.{atoi}
use chaospay.Bank.{Bank}
use chaospay.Payment.{Time}
use chaospay.Scenario.{Scenario}
use chaospay.Scenario.Store.{ScenarioStore, new_scenario_store, add, filled_in}
use chaospay.Scenario.Presets.{
  PresetInfo, Params, all_presets, late_operation_params, is_non_negative_int, preset_overrides,
  overrides_of, declared_overrides, rule_scenario, merge, add_rules, rules_of,
  apply_preset_with_params,
}
use chaospay.Scenario.Offered.{Answers, preset_takes_effect}

abbrev clock : ℕ → Time
clock n = n + 1

abbrev late : PresetInfo
late = record {
  name = "epay_late_auth_postlink_lost";
  bank = Bank.epay;
  params = late_operation_params;
}

abbrev delay : String → Params
delay seconds = ("visible_after", seconds) ∷ []

late_is_listed :
    find_first (λ q. str_eq q.name "epay_late_auth_postlink_lost") all_presets ≡ some late
unfolding all_presets
late_is_listed = refl

abbrev with_late : ScenarioStore
with_late =
    add_rules clock 0 (delay "30") (rules_of "epay_late_auth_postlink_lost") new_scenario_store

is_applied :
    apply_preset_with_params clock "epay_late_auth_postlink_lost" (delay "30") new_scenario_store
    ≡ some with_late
unfolding apply_preset_with_params preset_overrides overrides_of declared_overrides lookup insert
    all_presets late_operation_params is_non_negative_int atoi parse_uint
is_applied = refl

-- The parameter reaches the rule.
late_params : map (λ sc. lookup "visible_after" sc.params) with_late.scenarios ≡ some "30" ∷ []
unfolding new_scenario_store add_rules add filled_in rule_scenario merge rules_of lookup insert
late_params = refl

-- A delay that is no number is refused.
refuses_delay :
    apply_preset_with_params clock "epay_late_auth_postlink_lost" (delay "soon") new_scenario_store
    ≡ none
unfolding apply_preset_with_params preset_overrides overrides_of declared_overrides lookup insert
    all_presets late_operation_params is_non_negative_int atoi parse_uint
refuses_delay = refl

preset_takes_effect_example :
    (added : List Scenario) × (with_late.scenarios ≡ new_scenario_store.scenarios ++ added)
    × (0 < length added)
    × All (Answers Bank.epay) added
preset_takes_effect_example =
    preset_takes_effect clock "epay_late_auth_postlink_lost" (delay "30") late new_scenario_store
      with_late late_is_listed is_applied
