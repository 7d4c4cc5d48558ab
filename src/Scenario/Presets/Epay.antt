-- ===== src/Scenario/Presets/Epay.antt =====
-- internal/application/scenario/service.go: the cases of `ApplyPresetWithParams` for Halyk Epay.
use chaospay.Prelude.{String, true, false, List, [], ◌∷◌}
use chaospay.Prelude.Assoc.{Assoc}
use chaospay.Scenario.Presets.Rules.{Rule, on_epay, decline_rules}

unfoldable pub epay_rules : Assoc String (List Rule)
epay_rules =
    ("epay_insufficient_funds", decline_rules "484" "Insufficient funds")
    ∷ ("epay_card_expired", decline_rules "478" "Card expired")
    ∷ ("epay_invalid_card", decline_rules "457" "Invalid card data")
    ∷ ("epay_declined_by_issuer", decline_rules "462" "Declined by issuer")
    ∷ ("epay_secure3d_failed", decline_rules "455" "3D Secure verification failed")
    ∷ ("epay_limit_exceeded", decline_rules "486" "Card limitations exceeded")
    ∷ ("epay_unknown_error", decline_rules "477" "Unknown bank error")
    ∷ ("epay_3ds_required", on_epay "epay_cryptopay" "force_3ds" [] true ∷ [])
    ∷ (
      "epay_3ds_confirm_declined",
      on_epay "epay_cryptopay" "force_3ds" [] true
          ∷ on_epay "epay_confirm" "force_failure"
              (("error_code", "455") ∷ ("message", "3D Secure verification failed") ∷ []) true
          ∷ [],
    )
    ∷ (
      "epay_3ds_confirm_timeout",
      on_epay "epay_cryptopay" "force_3ds" [] true
          ∷ on_epay "epay_confirm" "timeout" (("seconds", "20") ∷ []) true
          ∷ [],
    )
    ∷ ("epay_oauth_timeout", on_epay "epay_token" "timeout" (("seconds", "15") ∷ []) false ∷ [])
    ∷ ("epay_charge_timeout", on_epay "epay_charge" "timeout" (("seconds", "20") ∷ []) true ∷ [])
    ∷ (
      "epay_cryptopay_500",
      on_epay "epay_cryptopay" "http_error" (("http_status", "500") ∷ []) true ∷ [],
    )
    ∷ (
      "epay_late_auth_postlink_lost",
      on_epay "epay_cryptopay" "epay_late_operation"
            (("http_status", "500") ∷ ("status", "AUTH") ∷ ("visible_after", "0") ∷ []) true
          ∷ [],
    )
    ∷ (
      "epay_late_charge_postlink_lost",
      on_epay "epay_cryptopay" "epay_late_operation"
            (("http_status", "500") ∷ ("status", "CHARGE") ∷ ("visible_after", "0") ∷ []) true
          ∷ [],
    )
    ∷ ("epay_postlink_lost", on_epay "epay_charge" "postlink_lost" [] true ∷ [])
    ∷ ("epay_postlink_double", on_epay "epay_charge" "postlink_double" [] true ∷ [])
    ∷ ("epay_postlink_before_ack", on_epay "epay_charge" "postlink_before_ack" [] true ∷ [])
    ∷ (
      "epay_wrong_invoice_id",
      on_epay "epay_cryptopay" "missing_field" (("field", "invoiceId") ∷ []) true ∷ [],
    )
    ∷ (
      "epay_ambiguous_charge_recovery",
      on_epay "epay_charge" "epay_ambiguous"
            (("reason_code", "477") ∷ ("message", "Operation already exists") ∷ []) true
          ∷ [],
    )
    ∷ (
      "epay_ambiguous_authorize_recovery",
      on_epay "epay_cryptopay" "epay_ambiguous"
            (("reason_code", "477") ∷ ("message", "Operation already exists") ∷ []) true
          ∷ [],
    )
    ∷ ("epay_unauthorized_401", on_epay "*" "force_unauthorized" [] true ∷ [])
    ∷ ("epay_forbidden_403", on_epay "*" "force_forbidden" [] true ∷ [])
    ∷ (
      "epay_oauth_unauthorized",
      on_epay "epay_token" "force_unauthorized" (("message", "Invalid client credentials") ∷ [])
            true
          ∷ [],
    )
    ∷ (
      "epay_transient_500_then_ok",
      on_epay "epay_charge" "transient_failure"
            (("http_status", "500") ∷ ("message", "Service temporarily unavailable") ∷ []) false
          ∷ [],
    )
    ∷ (
      "epay_double_charge_rejected",
      on_epay "epay_charge" "force_failure"
            (("reason_code", "477") ∷ ("message", "Operation already charged") ∷ []) true
          ∷ [],
    )
    ∷ (
      "epay_double_cancel_rejected",
      on_epay "epay_cancel" "force_failure"
            (("reason_code", "477") ∷ ("message", "Operation already cancelled") ∷ []) true
          ∷ [],
    )
    ∷ (
      "epay_bind_failure",
      on_epay "epay_cryptopay" "force_failure"
            (("reason_code", "457") ∷ ("message", "Card binding failed") ∷ []) true
          ∷ [],
    )
    ∷ ("epay_webhook_unknown_order", on_epay "*" "delay" (("seconds", "0") ∷ []) true ∷ [])
    ∷ ("epay_webhook_missing_fields", on_epay "*" "delay" (("seconds", "0") ∷ []) true ∷ [])
    ∷ (
      "epay_3ds_missing_action_url",
      on_epay "epay_cryptopay" "force_3ds" (("action", "") ∷ ("pa_req", "mock-pareq") ∷ []) true
          ∷ [],
    )
    ∷ []
