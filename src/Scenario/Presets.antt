-- ===== src/Scenario/Presets.antt =====
-- internal/application/scenario/service.go: the presets of the panel, named groups of rules. The service's
-- other methods pass their calls on to the store.
mod Rules
mod Freedom
mod Epay
mod Flitt
mod Listed
unfoldable pub use Rules.*
unfoldable pub use Freedom.*
unfoldable pub use Epay.*
unfoldable pub use Flitt.*
unfoldable pub use Listed.*
use chaospay.Prelude.{
  ℕ, zero, suc, String, Bool, true, false, ◌||◌, Option, none, some, List, [], ◌∷◌, ◌++◌, str_eq,
  select, if◌then◌else◌,
}
use chaospay.Prelude.Assoc.{Assoc, lookup, insert, string_eq}
use chaospay.Bank.{Bank, any, bank_eq}
use chaospay.Payment.{Time}
use chaospay.Scenario.{Scenario, wildcard}
use chaospay.Scenario.Store.{ScenarioStore, add}

-- `PresetsFor`
unfoldable pub presets_for : Bank → List PresetInfo
unfolding bank_eq all_presets
presets_for b =
    if bank_eq b any
    then all_presets
    else select (λ p. bank_eq p.bank b || bank_eq p.bank any) all_presets

abbrev pub or_empty : Option String → String
or_empty none = ""
or_empty (some v) = v

abbrev pub accepts : Option (String → Bool) → String → Bool
accepts none v = true
accepts (some validate) v = validate v

-- The inner loop of `presetOverrides`; `none` is the error of a parameter.
unfoldable pub declared_overrides : Params → List PresetParam → Params → Option Params
unfolding lookup insert
declared_overrides overrides [] out = some out
declared_overrides overrides (p ∷ ps) out =
    let v = or_empty (lookup p.key overrides) in
    let skipped = declared_overrides overrides ps out in
    let taken = declared_overrides overrides ps (insert p.key v out) in
    if str_eq v "" then skipped else if accepts p.validate v then taken else none

-- The outer loop.
unfoldable pub overrides_of : String → Params → List PresetInfo → Params → Option Params
unfolding declared_overrides
overrides_of name overrides [] out = some out
overrides_of name overrides (p ∷ ps) out =
    let rest = overrides_of name overrides ps in
    if str_eq p.name name
    then elim (declared_overrides overrides p.params out) [ none ↦ none | some out' ↦ rest out' ]
    else rest out

abbrev is_empty : Params → Bool
is_empty [] = true
is_empty (p ∷ ps) = false

-- `presetOverrides`
unfoldable pub preset_overrides : String → Params → Option Params
unfolding overrides_of all_presets
preset_overrides name overrides =
    if is_empty overrides then some [] else overrides_of name overrides all_presets []

-- `for k, v := range allowed { merged[k] = v }`
unfoldable pub merge : Params → Params → Params
unfolding insert
merge params [] = params
merge params ((k, v) ∷ allowed) = insert k v (merge params allowed)

-- The rule that `addFor` stores.
unfoldable pub rule_scenario : Time → Params → Rule → Scenario
unfolding merge
rule_scenario now allowed r = record {
  id = "";
  bank = r.bank;
  endpoint = r.endpoint;
  payment_id = wildcard;
  order_id = wildcard;
  merchant_id = wildcard;
  action = r.action;
  params = merge r.params allowed;
  consume_once = r.consume_once;
  hit_count = 0;
  created_at = now;
}

-- The calls of `addFor`, the first one at the first reading of the clock.
unfoldable pub add_rules : (ℕ → Time) → ℕ → Params → List Rule → ScenarioStore → ScenarioStore
unfolding add rule_scenario
add_rules clock n allowed [] s = s
add_rules clock n allowed (r ∷ rs) s =
    add_rules clock (suc n) allowed rs (add (clock n) (rule_scenario (clock n) allowed r) s)

-- The `switch`: an unknown name adds nothing.
unfoldable pub rules_of : String → List Rule
unfolding lookup incident_rules error_rules epay_rules flitt_rules
rules_of name = elim (lookup name (incident_rules ++ error_rules ++ epay_rules ++ flitt_rules)) [
  | none ↦ []
  | some rules ↦ rules
]

abbrev pub is_non_empty : List Rule → Bool
is_non_empty [] = false
is_non_empty (r ∷ rs) = true

-- `ApplyPresetWithParams`; `none` is its error.
unfoldable pub apply_preset_with_params :
    (ℕ → Time) → String → Params → ScenarioStore → Option ScenarioStore
unfolding preset_overrides add_rules rules_of
apply_preset_with_params clock name overrides s = elim (preset_overrides name overrides) [
  | none ↦ none
  | some allowed ↦ some (add_rules clock 0 allowed (rules_of name) s)
]

-- `ApplyPreset`
unfoldable pub apply_preset : (ℕ → Time) → String → ScenarioStore → ScenarioStore
unfolding apply_preset_with_params
apply_preset clock name s = elim (apply_preset_with_params clock name [] s) [
  | none ↦ s
  | some s' ↦ s'
]
