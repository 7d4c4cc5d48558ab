-- ===== src/FreedomPay/Requests.antt =====
-- The fields of a request and of an answer: internal/infrastructure/freedompay/xml.go (`Get`, `Has`) and
-- the helpers of internal/ports/api/pay/handler.go.
use chaospay.Prelude.{ℕ, String, Bool, true, false, not, Option, none, some, str_eq, if◌then◌else◌}
use chaospay.Prelude.Words.{ℤ}
use chaospay.Prelude.Decimal.{parse_uint}
use chaospay.Scenario.Params.{atoi}
use chaospay.FreedomPay
use chaospay.FreedomPay.{Value, OrdMap, text, child, children, set}

-- The text of a value, if it is one.
abbrev pub text_or : String → Option Value → String
text_or def none = def
text_or def (some (text s)) = s
text_or def (some (child m)) = def
text_or def (some (children ms)) = def

-- `ParsedRequest.Get`
unfoldable pub request_get : OrdMap → String → String → String
request_get req key def = text_or def (FreedomPay.get key req)

-- `ParsedRequest.Has`
unfoldable pub has : OrdMap → String → Bool
has req key = elim (FreedomPay.get key req) [
  | none ↦ false
  | some (text s) ↦ not (str_eq s "")
  | some _ ↦ true
]

-- `uintFromReq`
unfoldable pub uint_from_req : OrdMap → String → ℕ → ℕ
unfolding request_get
uint_from_req req key def =
    if str_eq (request_get req key "") ""
    then def
    else elim (parse_uint (request_get req key "")) [ none ↦ def | some n ↦ n ]

-- The value under `merchant_params`, where it is there and is a number.
abbrev nested_int : String → Option Value → Option ℤ
nested_int key none = none
nested_int key (some (text s)) = none
nested_int key (some (children ms)) = none
nested_int key (some (child m)) = elim (FreedomPay.get key m) [ some (text s) ↦ atoi s | _ ↦ none ]

-- `merchantParamInt`
unfoldable pub merchant_param_int : OrdMap → String → ℤ → ℤ
unfolding request_get
merchant_param_int req key default_value =
    elim (nested_int key (FreedomPay.get "merchant_params" req)) [
      | some n ↦ n
      | none ↦
          if str_eq (request_get req key "") ""
          then default_value
          else elim (atoi (request_get req key "")) [ none ↦ default_value | some n ↦ n ]
    ]

-- `if test { out = out.Set(key, value) }`
unfoldable pub set_if : Bool → String → Value → OrdMap → OrdMap
unfolding set
set_if test key value m = if test then set key value m else m
