-- ===== src/Scenario.antt =====
-- internal/domain/scenario/scenario.go: the rules that say how the mock misbehaves, and which requests
-- a rule is for. An action and an endpoint are texts, as in Go; the constants are the texts of the panel.
pub mod Params
pub mod Store
pub mod Matching
pub mod Presets
pub mod Offered
mod Tests
mod PresetTests
use chaospay.Prelude.{
  ℕ, String, Bool, true, false, ◌&&◌, ◌||◌, List, [], ◌∷◌, ◌++◌, str_eq, not, select, if◌then◌else◌,
}
use chaospay.Prelude.Assoc.{Assoc}
use chaospay.Bank.{Bank, any, freedom, epay, flitt, bank_eq}
use chaospay.Payment.{Time}

-- `Scenario`. `hit_count` is the word of a Go `int`; a nil map of parameters reads as an empty one.
pub record Scenario : Type 0 where
  pub id : String
  pub bank : Bank
  pub endpoint : String
  pub payment_id : String
  pub order_id : String
  pub merchant_id : String
  pub action : String
  pub params : Assoc String String
  pub consume_once : Bool
  pub hit_count : ℕ
  pub created_at : Time

-- `MatchInput`
pub record MatchInput : Type 0 where
  pub bank : Bank
  pub endpoint : String
  pub payment_id : String
  pub order_id : String
  pub merchant_id : String

-- `Wildcard`
abbrev pub wildcard : String
wildcard = "*"

-- `matchBank`
unfoldable pub match_bank : Bank → Bank → Bool
unfolding bank_eq
match_bank rule actual =
    if bank_eq rule any || bank_eq actual any then true else bank_eq rule actual

-- `matchValue`
unfoldable pub match_value : String → String → Bool
match_value rule actual =
    if str_eq rule "" || str_eq rule wildcard then true else str_eq rule actual

-- `Scenario.Matches`
unfoldable pub matches : Scenario → MatchInput → Bool
unfolding match_bank match_value
matches s in_ =
    match_bank s.bank in_.bank
    && match_value s.endpoint in_.endpoint
    && match_value s.payment_id in_.payment_id
    && match_value s.order_id in_.order_id
    && match_value s.merchant_id in_.merchant_id

-- The endpoints of each bank, in the order of `AllEndpoints`.
abbrev pub freedom_endpoints : List String
freedom_endpoints =
    "init" ∷ "direct" ∷ "get_status3.php" ∷ "do_capture.php" ∷ "cancel.php" ∷ "revoke.php"
    ∷ "init_payment.php" ∷ "add2" ∷ "remove" ∷ "applepay" ∷ "googlepay" ∷ []

abbrev pub epay_endpoints : List String
epay_endpoints =
    "epay_token" ∷ "epay_cryptopay" ∷ "epay_card_auth" ∷ "epay_charge" ∷ "epay_cancel"
    ∷ "epay_refund" ∷ "epay_status" ∷ "epay_confirm" ∷ []

abbrev pub flitt_endpoints : List String
flitt_endpoints =
    "flitt_checkout" ∷ "flitt_direct" ∷ "flitt_recurring" ∷ "flitt_capture" ∷ "flitt_reverse"
    ∷ "flitt_status" ∷ "flitt_3ds_step2" ∷ []

-- A `case` with several constants.
unfoldable pub is_one_of : List String → String → Bool
is_one_of [] s = false
is_one_of (t ∷ ts) s = str_eq t s || is_one_of ts s

-- `EndpointBank`
unfoldable pub endpoint_bank : String → Bank
unfolding is_one_of
endpoint_bank ep =
    if is_one_of freedom_endpoints ep
    then freedom
    else if is_one_of epay_endpoints ep
    then epay
    else if is_one_of flitt_endpoints ep
    then flitt
    else any

-- `AllEndpoints`
abbrev pub all_endpoints : List String
all_endpoints = wildcard ∷ freedom_endpoints ++ epay_endpoints ++ flitt_endpoints

-- `EndpointsFor`
unfoldable pub endpoints_for : Bank → List String
unfolding bank_eq endpoint_bank
endpoints_for b =
    if bank_eq b any
    then all_endpoints
    else wildcard
      ∷ select (λ ep. not (str_eq ep wildcard) && bank_eq (endpoint_bank ep) b) all_endpoints
