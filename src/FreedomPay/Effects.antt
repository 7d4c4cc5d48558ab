-- ===== src/FreedomPay/Effects.antt =====
-- internal/ports/api/pay/scenario.go: what a scenario does to the fields of a valid answer
-- (`applyScenarioAfter`).
use Prim.Native.String.{◌++◌ as str_append}
use chaospay.Prelude.{ℕ, zero, suc, String, ◌||◌, some, str_eq, if◌then◌else◌}
use chaospay.Prelude.Words.{ℤ, pos, negsuc}
use chaospay.Prelude.Decimal.{decimal}
use chaospay.Scenario.{Scenario}
use chaospay.Scenario.Params.{param, param_int}
use chaospay.FreedomPay.{OrdMap, text, set, delete}

-- `stripTerminalFieldsIfNonTerminal`
unfoldable pub strip_terminal_fields : OrdMap → String → OrdMap
unfolding set delete
strip_terminal_fields fields payment_status =
    if str_eq payment_status "waiting"
      || str_eq payment_status "process"
      || str_eq payment_status "new"
    then (let fields1 = set "pg_payment_method" (text "none") fields in
        let fields2 = delete "pg_order_id" fields1 in
        let fields3 = delete "pg_auth_code" fields2 in
        let fields4 = delete "pg_reference" fields3 in
        let fields5 = delete "pg_card_pan" fields4 in
        let fields6 = delete "pg_card_token" fields5 in
        let fields7 = delete "pg_captured" fields6 in delete "pg_payment_date" fields7)
    else fields

-- The loop of `extra_garbage`: `done` fields are set already, `todo` are left.
unfoldable pub add_garbage : ℕ → ℕ → OrdMap → OrdMap
unfolding set
add_garbage done zero fields = fields
add_garbage done (suc todo) fields = add_garbage (suc done) todo (
    set (str_append "pg_garbage_" (decimal done)) (text (str_append "noise-" (decimal done)))
      fields)

abbrev count_of : ℤ → ℕ
count_of (pos n) = n
count_of (negsuc n) = 0

-- The amounts of `partial_amount` and `wrong_amount`.
unfoldable pub set_amounts : String → OrdMap → OrdMap
unfolding set
set_amounts v fields =
    if str_eq v ""
    then fields
    else set "pg_clearing_amount" (text v) (set "pg_amount" (text v) fields)

-- `applyScenarioAfter`
unfoldable pub apply_scenario_after : Scenario → OrdMap → OrdMap
unfolding param param_int set delete strip_terminal_fields add_garbage set_amounts
apply_scenario_after sc fields =
    if str_eq sc.action "force_status"
    then (let v = param (some sc) "payment_status" "" in
        if str_eq v ""
        then fields
        else strip_terminal_fields (set "pg_payment_status" (text v) fields) v)
    else if str_eq sc.action "partial_amount"
    then set_amounts (param (some sc) "amount" "") fields
    else if str_eq sc.action "wrong_payment_id"
    then set "pg_payment_id" (text (param (some sc) "payment_id" "9999999999")) fields
    else if str_eq sc.action "wrong_amount"
    then set_amounts (param (some sc) "amount" "") fields
    else if str_eq sc.action "missing_field"
    then (let v = param (some sc) "field" "" in if str_eq v "" then fields else delete v fields)
    else if str_eq sc.action "extra_garbage"
    then add_garbage 0 (count_of (param_int (some sc) "count" (pos 5))) fields
    else fields
