-- ===== src/Scenario/Presets/Rules.antt =====
-- internal/application/scenario/service.go: what `addFor` is called with, and the helpers of
-- `ApplyPresetWithParams`.
use chaospay.Prelude.{String, Bool, true, List, [], ◌∷◌}
use chaospay.Prelude.Assoc.{Assoc}
use chaospay.Bank.{Bank, freedom, epay, flitt}

-- The arguments of `addFor`.
pub record Rule : Type 0 where
  pub bank : Bank
  pub endpoint : String
  pub action : String
  pub params : Assoc String String
  pub consume_once : Bool

abbrev pub Params : Type 0
Params = Assoc String String

-- `add`, `addEpay`, `addFlitt`
abbrev pub on_freedom : String → String → Params → Bool → Rule
on_freedom endpoint action params once = record {
  bank = freedom;
  endpoint = endpoint;
  action = action;
  params = params;
  consume_once = once;
}

abbrev pub on_epay : String → String → Params → Bool → Rule
on_epay endpoint action params once = record {
  bank = epay;
  endpoint = endpoint;
  action = action;
  params = params;
  consume_once = once;
}

abbrev pub on_flitt : String → String → Params → Bool → Rule
on_flitt endpoint action params once = record {
  bank = flitt;
  endpoint = endpoint;
  action = action;
  params = params;
  consume_once = once;
}

-- `addEpayDecline`
abbrev pub decline_rules : String → String → List Rule
decline_rules reason_code message =
    on_epay "epay_card_auth" "force_failure"
      (("reason_code", reason_code) ∷ ("message", message) ∷ []) true
    ∷ on_epay "epay_cryptopay" "force_failure"
        (("reason_code", reason_code) ∷ ("message", message) ∷ []) true
    ∷ []
