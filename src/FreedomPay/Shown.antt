-- ===== src/FreedomPay/Shown.antt =====
-- What `applyScenarioAfter` of internal/ports/api/pay/scenario.go leaves of the status and the amounts of an
-- answer.
use chaospay.Prelude.{
  String, ◌≡◌, refl, ◌∙◌, Bool, true, false, not, Option, none, some, ◌||◌, arith, inl, inr, str_eq,
  eq_iff, Bool-cases, if◌then◌else◌,
}
use chaospay.Scenario.{Scenario, is_one_of}
use chaospay.Scenario.Params.{param}
use chaospay.FreedomPay.{OrdMap, text, set, get}
use chaospay.FreedomPay.Signature.{get-set}
use chaospay.FreedomPay.Forced.{terminal_keys, strip_other, or_false}
use chaospay.FreedomPay.Effects.{strip_terminal_fields, set_amounts, apply_scenario_after}

-- What a rule puts in place of a text, if it names one.
abbrev pub instead : String → String → String
instead v own = if str_eq v "" then own else v

-- The status and the amounts that an answer has under a rule, or without one.
unfoldable pub shown_status : Option Scenario → String → String
unfolding param
shown_status none own = own
shown_status (some sc) own =
    if str_eq sc.action "force_status"
    then instead (param (some sc) "payment_status" "") own
    else own

unfoldable pub shown_amount : Option Scenario → String → String
unfolding param
shown_amount none own = own
shown_amount (some sc) own =
    if str_eq sc.action "partial_amount" || str_eq sc.action "wrong_amount"
    then instead (param (some sc) "amount" "") own
    else own

-- A rule that neither takes a field out nor adds any.
abbrev pub keeps_fields : Option Scenario → Bool
keeps_fields none = true
keeps_fields (some sc) = not (str_eq sc.action "missing_field" || str_eq sc.action "extra_garbage")

-- The fields as the endpoint sends them: `applyScenarioAfter`, where a rule has matched.
abbrev pub after_rule : Option Scenario → OrdMap → OrdMap
after_rule none m = m
after_rule (some sc) m = apply_scenario_after sc m

set_amounts_other :
    (v other : String) (m : OrdMap)
    → str_eq "pg_amount" other ≡ false
    → str_eq "pg_clearing_amount" other ≡ false
    → get other (set_amounts v m) ≡ get other m
unfolding set_amounts
set_amounts_other v other m h k = elim (Bool-cases (str_eq v "")) [
  | inl no_value ↦ rw no_value refl
  | inr value ↦ rw value (
      get-set "pg_clearing_amount" other (text v) (set "pg_amount" (text v) m)
      ∙ rw k (get-set "pg_amount" other (text v) m ∙ rw h refl))
]

set_amounts_amount :
    (v own : String) (m : OrdMap)
    → get "pg_amount" m ≡ some (text own)
    → get "pg_amount" (set_amounts v m) ≡ some (text (instead v own))
unfolding set_amounts
set_amounts_amount v own m h = elim (Bool-cases (str_eq v "")) [
  | inl no_value ↦ rw no_value h
  | inr value ↦ rw value (simp get-set)
]

set_amounts_clearing :
    (v own : String) (m : OrdMap)
    → get "pg_clearing_amount" m ≡ some (text own)
    → get "pg_clearing_amount" (set_amounts v m) ≡ some (text (instead v own))
unfolding set_amounts
set_amounts_clearing v own m h = elim (Bool-cases (str_eq v "")) [
  | inl no_value ↦ rw no_value h
  | inr value ↦ rw value (simp get-set)
]

forced :
    (v own : String) (m : OrdMap)
    → get "pg_payment_status" m ≡ some (text own)
    → get "pg_payment_status"
        (if str_eq v "" then m else strip_terminal_fields (set "pg_payment_status" (text v) m) v)
      ≡ some (text (instead v own))
unfolding is_one_of
forced v own m h = elim (Bool-cases (str_eq v "")) [
  | inl no_value ↦ rw no_value h
  | inr value ↦ rw value (
      strip_other (set "pg_payment_status" (text v) m) v "pg_payment_status" refl refl
      ∙ simp get-set)
]

forced_other :
    (v other : String) (m : OrdMap)
    → str_eq "pg_payment_method" other ≡ false
    → is_one_of terminal_keys other ≡ false
    → str_eq "pg_payment_status" other ≡ false
    → get other
        (if str_eq v "" then m else strip_terminal_fields (set "pg_payment_status" (text v) m) v)
      ≡ get other m
forced_other v other m h k l = elim (Bool-cases (str_eq v "")) [
  | inl no_value ↦ rw no_value refl
  | inr value ↦ rw value (
      strip_other (set "pg_payment_status" (text v) m) v other h k
      ∙ get-set "pg_payment_status" other (text v) m
      ∙ rw l refl)
]

abbrev is_forcing : Scenario → Bool
is_forcing sc = str_eq sc.action "force_status"

abbrev is_mispricing : Scenario → Bool
is_mispricing sc = str_eq sc.action "partial_amount" || str_eq sc.action "wrong_amount"

-- The four ways of a rule that keeps the fields.
data Way (sc : Scenario) (m : OrdMap) : Type 0 where
  forces :
      is_forcing sc ≡ true
      → is_mispricing sc ≡ false
      → apply_scenario_after sc m ≡ (
          let v = param (some sc) "payment_status" "" in
          if str_eq v "" then m else strip_terminal_fields (set "pg_payment_status" (text v) m) v)
      → Way sc m
  misprices :
      is_forcing sc ≡ false
      → is_mispricing sc ≡ true
      → apply_scenario_after sc m ≡ set_amounts (param (some sc) "amount" "") m
      → Way sc m
  renumbers :
      is_forcing sc ≡ false
      → is_mispricing sc ≡ false
      → apply_scenario_after sc m
        ≡ set "pg_payment_id" (text (param (some sc) "payment_id" "9999999999")) m
      → Way sc m
  passes :
      is_forcing sc ≡ false → is_mispricing sc ≡ false → apply_scenario_after sc m ≡ m → Way sc m

way : (sc : Scenario) (m : OrdMap) → keeps_fields (some sc) ≡ true → Way sc m
unfolding apply_scenario_after
way sc m keeps = elim (Bool-cases (str_eq sc.action "force_status")) [
  | inl a ↦ let e = (eq_iff sc.action "force_status").0 a in forces a (rw e refl) (rw a refl)
  | inr a ↦ elim (Bool-cases (str_eq sc.action "partial_amount")) [
    | inl b ↦ misprices a (rw b refl) (rw (a, b) refl)
    | inr b ↦ elim (Bool-cases (str_eq sc.action "wrong_payment_id")) [
      | inl c ↦
          let e = (eq_iff sc.action "wrong_payment_id").0 c in
          renumbers a (rw e refl) (rw (a, b, c) refl)
      | inr c ↦ elim (Bool-cases (str_eq sc.action "wrong_amount")) [
        | inl d ↦ misprices a (rw (b, d) refl) (rw (a, b, c, d) refl)
        | inr d ↦
            let k =
              or_false {a = str_eq sc.action "missing_field"} {b = str_eq sc.action "extra_garbage"}
                (not_true keeps) in
            passes a (rw (b, d) refl) (rw (a, b, c, d, k.0, k.1) refl)
      ]
    ]
  ]
]
  where
    not_true : {b : Bool} → not b ≡ true → b ≡ false
    not_true {b} h = ground arith

module _ (sc : Scenario) (own : String) (m : OrdMap) (keeps : keeps_fields (some sc) ≡ true) where
  rule_status :
      get "pg_payment_status" m ≡ some (text own)
      → get "pg_payment_status" (apply_scenario_after sc m)
        ≡ some (text (shown_status (some sc) own))
  unfolding shown_status
  rule_status h = elim (way sc m keeps) [
    | forces a b e ↦ rw (e, a) (forced (param (some sc) "payment_status" "") own m h)
    | misprices a b e ↦
        rw (e, a)
          (set_amounts_other (param (some sc) "amount" "") "pg_payment_status" m refl refl ∙ h)
    | renumbers a b e ↦
        rw (e, a)
          (get-set "pg_payment_id" "pg_payment_status"
              (text (param (some sc) "payment_id" "9999999999")) m
            ∙ h)
    | passes a b e ↦ rw (e, a) h
  ]

  rule_amount :
      get "pg_amount" m ≡ some (text own)
      → get "pg_amount" (apply_scenario_after sc m) ≡ some (text (shown_amount (some sc) own))
  unfolding shown_amount is_one_of
  rule_amount h = elim (way sc m keeps) [
    | forces a b e ↦
        rw (e, b)
          (forced_other (param (some sc) "payment_status" "") "pg_amount" m refl refl refl ∙ h)
    | misprices a b e ↦ rw (e, b) (set_amounts_amount (param (some sc) "amount" "") own m h)
    | renumbers a b e ↦
        rw (e, b)
          (get-set "pg_payment_id" "pg_amount" (text (param (some sc) "payment_id" "9999999999")) m
            ∙ h)
    | passes a b e ↦ rw (e, b) h
  ]

  rule_clearing :
      get "pg_clearing_amount" m ≡ some (text own)
      → get "pg_clearing_amount" (apply_scenario_after sc m)
        ≡ some (text (shown_amount (some sc) own))
  unfolding shown_amount is_one_of
  rule_clearing h = elim (way sc m keeps) [
    | forces a b e ↦
        rw (e, b)
          (forced_other (param (some sc) "payment_status" "") "pg_clearing_amount" m refl refl refl
            ∙ h)
    | misprices a b e ↦ rw (e, b) (set_amounts_clearing (param (some sc) "amount" "") own m h)
    | renumbers a b e ↦
        rw (e, b)
          (get-set "pg_payment_id" "pg_clearing_amount"
              (text (param (some sc) "payment_id" "9999999999")) m
            ∙ h)
    | passes a b e ↦ rw (e, b) h
  ]

  rule_revoked : get "pg_revoked_amount" (apply_scenario_after sc m) ≡ get "pg_revoked_amount" m
  unfolding is_one_of
  rule_revoked = elim (way sc m keeps) [
    | forces a b e ↦
        rw e
          (forced_other (param (some sc) "payment_status" "") "pg_revoked_amount" m refl refl refl)
    | misprices a b e ↦
        rw e (set_amounts_other (param (some sc) "amount" "") "pg_revoked_amount" m refl refl)
    | renumbers a b e ↦ rw e (
        get-set "pg_payment_id" "pg_revoked_amount"
          (text (param (some sc) "payment_id" "9999999999")) m)
    | passes a b e ↦ rw e refl
  ]

-- What is sent of the fields, under a rule that keeps them or without one.
pub sent_fields :
    (sc : Option Scenario) (status amount clearing : String) (m : OrdMap)
    → keeps_fields sc ≡ true
    → get "pg_payment_status" m ≡ some (text status)
    → get "pg_amount" m ≡ some (text amount)
    → get "pg_clearing_amount" m ≡ some (text clearing)
    → (get "pg_payment_status" (after_rule sc m) ≡ some (text (shown_status sc status)))
      × (get "pg_amount" (after_rule sc m) ≡ some (text (shown_amount sc amount)))
      × (get "pg_clearing_amount" (after_rule sc m) ≡ some (text (shown_amount sc clearing)))
      × (get "pg_revoked_amount" (after_rule sc m) ≡ get "pg_revoked_amount" m)
unfolding shown_status shown_amount
sent_fields none status amount clearing m keeps s a c = (s, a, c, refl)
sent_fields (some sc) status amount clearing m keeps s a c = (
  rule_status sc status m keeps s,
  rule_amount sc amount m keeps a,
  rule_clearing sc clearing m keeps c,
  rule_revoked sc "" m keeps,
)
