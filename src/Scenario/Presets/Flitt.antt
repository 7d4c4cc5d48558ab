-- ===== src/Scenario/Presets/Flitt.antt =====
-- internal/application/scenario/service.go: the cases of `ApplyPresetWithParams` for Flitt.
use chaospay.Prelude.{String, true, false, List, [], ◌∷◌}
use chaospay.Prelude.Assoc.{Assoc}
use chaospay.Scenario.Presets.Rules.{Rule, on_flitt}

unfoldable pub flitt_rules : Assoc String (List Rule)
flitt_rules =
    (
      "flitt_insufficient_funds",
      on_flitt "*" "force_failure"
            (("error_code", "1037")
              ∷ ("message", "Insufficient funds")
              ∷ ("outcome", "insufficient_funds")
              ∷ [])
            true
          ∷ [],
    )
    ∷ (
      "flitt_card_declined",
      on_flitt "*" "force_failure"
            (("error_code", "1004")
              ∷ ("message", "Card declined by issuer")
              ∷ ("outcome", "declined")
              ∷ [])
            true
          ∷ [],
    )
    ∷ (
      "flitt_3ds_decline",
      on_flitt "flitt_direct" "force_3ds" (("outcome", "declined_3ds") ∷ []) true
          ∷ on_flitt "flitt_recurring" "force_3ds" (("outcome", "declined_3ds") ∷ []) true
          ∷ on_flitt "flitt_3ds_step2" "force_failure"
              (("error_code", "1004") ∷ ("message", "3DS authentication failed") ∷ []) true
          ∷ [],
    )
    ∷ (
      "flitt_capture_timeout",
      on_flitt "flitt_capture" "timeout" (("seconds", "20") ∷ []) true ∷ [],
    )
    ∷ (
      "flitt_recurring_timeout",
      on_flitt "flitt_recurring" "timeout" (("seconds", "15") ∷ []) false ∷ [],
    )
    ∷ (
      "flitt_checkout_500",
      on_flitt "flitt_checkout" "http_error" (("http_status", "500") ∷ []) true ∷ [],
    )
    ∷ (
      "flitt_ex1001_silent_hold",
      on_flitt "flitt_direct" "sync_error_async_webhook"
            (("error_code", "1001") ∷ ("message", "Неверный статус платежа") ∷ []) true
          ∷ on_flitt "flitt_recurring" "sync_error_async_webhook"
              (("error_code", "1001") ∷ ("message", "Неверный статус платежа") ∷ []) true
          ∷ [],
    )
    ∷ (
      "flitt_ambiguous_capture_recovery",
      on_flitt "flitt_capture" "ambiguous_error"
            (("error_code", "1001") ∷ ("message", "Operation already exists") ∷ []) true
          ∷ on_flitt "flitt_status" "force_status" (("order_status", "approved") ∷ []) true
          ∷ [],
    )
    ∷ ("flitt_webhook_lost", on_flitt "flitt_direct" "delay" (("seconds", "0") ∷ []) true ∷ [])
    ∷ (
      "flitt_malformed",
      on_flitt "flitt_checkout" "malformed_body"
            (("body", "{\"response\":{") ∷ ("content_type", "application/json") ∷ []) true
          ∷ on_flitt "flitt_direct" "malformed_body"
              (("body", "{\"response\":{") ∷ ("content_type", "application/json") ∷ []) true
          ∷ on_flitt "flitt_recurring" "malformed_body"
              (("body", "{\"response\":{") ∷ ("content_type", "application/json") ∷ []) true
          ∷ [],
    )
    ∷ (
      "flitt_wrong_amount",
      on_flitt "flitt_status" "wrong_amount" (("amount", "1") ∷ []) true ∷ [],
    )
    ∷ (
      "flitt_invalid_signature",
      on_flitt "flitt_status" "missing_field" (("field", "signature") ∷ []) true ∷ [],
    )
    ∷ []
