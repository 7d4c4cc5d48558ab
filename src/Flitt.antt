-- ===== src/Flitt.antt =====
-- internal/infrastructure/flitt/testcards.go: the test cards of Flitt.
pub mod Requests
pub mod Bodies
pub mod Answers
pub mod Handlers
pub mod Operations
pub mod Effects
pub mod Endpoint
pub mod Rules
pub mod Journal
pub mod Signature
pub mod KeyOrder
pub mod Callback
mod Tests
use chaospay.Prelude.{String, Bool, true, false, List, [], ◌∷◌, str_eq, if◌then◌else◌}

-- `CardOutcome`; `unset` is the empty text, `other` a text that is no constant.
pub data CardOutcome : Type 0 where
  unset approved approved_3ds declined declined_3ds insufficient_funds unknown_card : CardOutcome
  other : String → CardOutcome

abbrev pub outcome_text : CardOutcome → String
outcome_text unset = ""
outcome_text approved = "approved"
outcome_text approved_3ds = "approved_3ds"
outcome_text declined = "declined"
outcome_text declined_3ds = "declined_3ds"
outcome_text insufficient_funds = "insufficient_funds"
outcome_text unknown_card = "unknown"
outcome_text (other s) = s

-- `TestCards`, without the descriptions.
abbrev pub test_cards : List (String × CardOutcome)
test_cards =
    ("4444555566661111", approved_3ds)
    ∷ ("4444111166665555", declined_3ds)
    ∷ ("4444555511116666", approved)
    ∷ ("5555666644441111", approved_3ds)
    ∷ ("4444555566669999", approved)
    ∷ ("4444666655559999", approved_3ds)
    ∷ ("4444999966665555", declined)
    ∷ ("4444666699995555", declined_3ds)
    ∷ []

abbrev pub needs_3ds : CardOutcome → Bool
needs_3ds approved_3ds = true
needs_3ds declined_3ds = true
needs_3ds _ = false

-- The loop of `CardBehavior`.
unfoldable pub behavior_in : List (String × CardOutcome) → String → CardOutcome × Bool
behavior_in [] pan = (unknown_card, false)
behavior_in ((p, outcome) ∷ rest) pan =
    let later = behavior_in rest pan in if str_eq p pan then (outcome, needs_3ds outcome) else later

-- `CardBehavior`
unfoldable pub card_behavior : String → CardOutcome × Bool
unfolding behavior_in
card_behavior pan = behavior_in test_cards pan

-- `CardOutcome(s)`
unfoldable pub outcome_of_text : String → CardOutcome
outcome_of_text s =
    if str_eq s ""
    then unset
    else if str_eq s "approved"
    then approved
    else if str_eq s "approved_3ds"
    then approved_3ds
    else if str_eq s "declined"
    then declined
    else if str_eq s "declined_3ds"
    then declined_3ds
    else if str_eq s "insufficient_funds"
    then insufficient_funds
    else if str_eq s "unknown"
    then unknown_card
    else other s
