-- ===== src/Scenario/Presets/Listed.antt =====
-- internal/application/scenario/service.go: `AllPresets`. The titles, descriptions and samples are texts
-- for the panel, and left out.
use chaospay.Prelude.{String, Bool, true, false, Option, none, some, List, [], ◌∷◌}
use chaospay.Bank.{Bank, freedom, epay, flitt}
use chaospay.Scenario.Params.{parse_non_negative_int}

-- `PresetParam`; `validate` tells whether a value is accepted.
pub record PresetParam : Type 0 where
  pub key : String
  pub validate : Option (String → Bool)

-- `PresetInfo`
pub record PresetInfo : Type 0 where
  pub name : String
  pub bank : Bank
  pub params : List PresetParam

-- `validateNonNegativeInt`
unfoldable pub is_non_negative_int : String → Bool
unfolding parse_non_negative_int
is_non_negative_int value = elim (parse_non_negative_int value) [ none ↦ false | some n ↦ true ]

-- `lateOperationParams`
unfoldable pub late_operation_params : List PresetParam
late_operation_params = record { key = "visible_after"; validate = some is_non_negative_int } ∷ []

abbrev offer : Bank → String → PresetInfo
offer bank name = record { name = name; bank = bank; params = [] }

-- `AllPresets`
unfoldable pub all_presets : List PresetInfo
unfolding late_operation_params
all_presets =
    offer freedom "ex1001"
    ∷ offer freedom "ex1001_silent_hold"
    ∷ offer freedom "ex1001_wallet_silent_hold"
    ∷ offer freedom "hold_pending_recovery"
    ∷ offer freedom "capture_failed_status_approved"
    ∷ offer freedom "cancel_failed_status_revoked"
    ∷ offer freedom "revoke_failed_status_revoked"
    ∷ offer freedom "hold_timeout"
    ∷ offer freedom "desync"
    ∷ offer freedom "init_retry_exhausted"
    ∷ offer freedom "hold_init_retry_exhausted"
    ∷ offer freedom "wallet_retry_exhausted"
    ∷ offer freedom "wallet_3ds_challenge"
    ∷ offer freedom "context_deadline"
    ∷ offer freedom "insufficient_funds"
    ∷ offer freedom "card_declined"
    ∷ offer freedom "card_data_input"
    ∷ offer freedom "expired_card"
    ∷ offer freedom "3ds_failed"
    ∷ offer freedom "limit_exceeded"
    ∷ offer freedom "code_limit_exceeded"
    ∷ offer freedom "emitter_error"
    ∷ offer freedom "country_not_supported"
    ∷ offer freedom "transaction_amount_zero"
    ∷ offer freedom "unknown_bank_error"
    ∷ offer freedom "default_bank_error"
    ∷ offer freedom "wallet_empty_response"
    ∷ offer freedom "wallet_malformed"
    ∷ offer freedom "init_malformed_xml"
    ∷ offer freedom "slow_body_capture"
    ∷ offer freedom "wrong_payment_id"
    ∷ offer freedom "missing_signature"
    ∷ offer epay "epay_insufficient_funds"
    ∷ offer epay "epay_card_expired"
    ∷ offer epay "epay_invalid_card"
    ∷ offer epay "epay_declined_by_issuer"
    ∷ offer epay "epay_secure3d_failed"
    ∷ offer epay "epay_limit_exceeded"
    ∷ offer epay "epay_3ds_required"
    ∷ offer epay "epay_3ds_confirm_declined"
    ∷ offer epay "epay_3ds_confirm_timeout"
    ∷ offer epay "epay_oauth_timeout"
    ∷ offer epay "epay_charge_timeout"
    ∷ offer epay "epay_cryptopay_500"
    ∷ record { name = "epay_late_auth_postlink_lost"; bank = epay; params = late_operation_params }
    ∷ record {
      name = "epay_late_charge_postlink_lost";
      bank = epay;
      params = late_operation_params;
    }
    ∷ offer epay "epay_postlink_lost"
    ∷ offer epay "epay_postlink_double"
    ∷ offer epay "epay_postlink_before_ack"
    ∷ offer epay "epay_wrong_invoice_id"
    ∷ offer epay "epay_unknown_error"
    ∷ offer epay "epay_ambiguous_charge_recovery"
    ∷ offer epay "epay_ambiguous_authorize_recovery"
    ∷ offer epay "epay_unauthorized_401"
    ∷ offer epay "epay_forbidden_403"
    ∷ offer epay "epay_transient_500_then_ok"
    ∷ offer epay "epay_double_charge_rejected"
    ∷ offer epay "epay_double_cancel_rejected"
    ∷ offer epay "epay_oauth_unauthorized"
    ∷ offer epay "epay_bind_failure"
    ∷ offer epay "epay_webhook_unknown_order"
    ∷ offer epay "epay_webhook_missing_fields"
    ∷ offer epay "epay_3ds_missing_action_url"
    ∷ offer flitt "flitt_insufficient_funds"
    ∷ offer flitt "flitt_card_declined"
    ∷ offer flitt "flitt_3ds_decline"
    ∷ offer flitt "flitt_capture_timeout"
    ∷ offer flitt "flitt_recurring_timeout"
    ∷ offer flitt "flitt_checkout_500"
    ∷ offer flitt "flitt_ex1001_silent_hold"
    ∷ offer flitt "flitt_ambiguous_capture_recovery"
    ∷ offer flitt "flitt_webhook_lost"
    ∷ offer flitt "flitt_malformed"
    ∷ offer flitt "flitt_wrong_amount"
    ∷ offer flitt "flitt_invalid_signature"
    ∷ offer freedom "wrong_amount"
    ∷ offer freedom "status_waiting"
    ∷ []
