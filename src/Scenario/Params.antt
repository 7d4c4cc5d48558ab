-- ===== src/Scenario/Params.antt =====
-- internal/domain/scenario/params.go: the parameters of a rule. A nil rule is `none`, an error is
-- `none`, too.
use chaospay.Prelude.{
  ℕ, String, Bool, true, false, Option, none, some, str_eq, leb, ltb, if◌then◌else◌,
}
use chaospay.Prelude.Words.{ℤ, pos, neg, half_word, is_neg}
use chaospay.Prelude.Assoc.{lookup, string_eq}
use chaospay.Prelude.Decimal.{parse_uint}
use chaospay.Scenario.{Scenario}

-- `strconv.Atoi`: an optional sign, digits, and the bounds of an `int`.
signed : Bool → Option ℕ → Option ℤ
signed negative none = none
signed true (some n) = if leb n half_word then some (neg n) else none
signed false (some n) = if ltb n half_word then some (pos n) else none

unfoldable pub atoi : String → Option ℤ
unfolding signed
atoi String.[] = none
atoi (String.◌∷◌ c s) =
    if str_eq (String.◌∷◌ c "") "-"
    then signed true (parse_uint s)
    else if str_eq (String.◌∷◌ c "") "+"
    then signed false (parse_uint s)
    else signed false (parse_uint (String.◌∷◌ c s))

-- `Param`
unfoldable pub param : Option Scenario → String → String → String
param none key def = def
param (some s) key def = elim (lookup key s.params) [
  | none ↦ def
  | some v ↦ if str_eq v "" then def else v
]

-- `ParamInt`
unfoldable pub param_int : Option Scenario → String → ℤ → ℤ
unfolding param
param_int s key def =
    if str_eq (param s key "") ""
    then def
    else elim (atoi (param s key "")) [ none ↦ def | some n ↦ n ]

-- `ParseNonNegativeInt`; `none` is its error.
unfoldable pub parse_non_negative_int : String → Option ℤ
parse_non_negative_int value = elim (atoi value) [
  | none ↦ none
  | some n ↦ if is_neg n then none else some n
]

-- `ParamNonNegativeInt`; `none` is its error.
unfoldable pub param_non_negative_int : Option Scenario → String → ℤ → Option ℤ
unfolding param parse_non_negative_int
param_non_negative_int s key def =
    if str_eq (param s key "") "" then some def else parse_non_negative_int (param s key "")
