-- ===== src/Scenario/Presets/Freedom.antt =====
-- internal/application/scenario/service.go: the cases of `ApplyPresetWithParams` for Freedom Pay.
use chaospay.Prelude.{String, true, false, List, [], ◌∷◌}
use chaospay.Prelude.Assoc.{Assoc}
use chaospay.Bank.{any}
use chaospay.Scenario.Presets.Rules.{Rule, on_freedom}

unfoldable pub incident_rules : Assoc String (List Rule)
incident_rules =
    (
      "ex1001",
      on_freedom "direct" "ambiguous_error"
            (("message", "Неверный статус платежа") ∷ ("error_code", "120") ∷ []) true
          ∷ on_freedom "get_status3.php" "force_status" (("payment_status", "success") ∷ []) true
          ∷ [],
    )
    ∷ (
      "ex1001_silent_hold",
      on_freedom "direct" "sync_error_async_webhook"
            (("message", "Неверный статус платежа") ∷ ("error_code", "120") ∷ []) true
          ∷ [],
    )
    ∷ (
      "ex1001_wallet_silent_hold",
      on_freedom "applepay" "sync_error_async_webhook" (("message", "Неверный статус платежа") ∷ [])
            true
          ∷ on_freedom "googlepay" "sync_error_async_webhook"
              (("message", "Неверный статус платежа") ∷ []) true
          ∷ [],
    )
    ∷ (
      "hold_pending_recovery",
      on_freedom "direct" "force_status" (("payment_status", "process") ∷ []) true
          ∷ on_freedom "get_status3.php" "force_status" (("payment_status", "success") ∷ []) true
          ∷ [],
    )
    ∷ (
      "capture_failed_status_approved",
      on_freedom "do_capture.php" "force_failure"
            (("message", "technical bank error") ∷ ("error_code", "100") ∷ []) true
          ∷ on_freedom "get_status3.php" "force_status" (("payment_status", "success") ∷ []) true
          ∷ [],
    )
    ∷ (
      "cancel_failed_status_revoked",
      on_freedom "cancel.php" "force_failure"
            (("message", "technical bank error") ∷ ("error_code", "100") ∷ []) true
          ∷ on_freedom "get_status3.php" "force_status" (("payment_status", "revoked") ∷ []) true
          ∷ [],
    )
    ∷ (
      "revoke_failed_status_revoked",
      on_freedom "revoke.php" "force_failure"
            (("message", "technical bank error") ∷ ("error_code", "100") ∷ []) true
          ∷ on_freedom "get_status3.php" "force_status" (("payment_status", "revoked") ∷ []) true
          ∷ [],
    )
    ∷ ("hold_timeout", on_freedom "direct" "timeout" (("seconds", "20") ∷ []) true ∷ [])
    ∷ (
      "desync",
      on_freedom "direct" "force_failure"
            (("message", "технический сбой банка") ∷ ("error_code", "100") ∷ []) true
          ∷ [],
    )
    ∷ (
      "init_retry_exhausted",
      on_freedom "init_payment.php" "timeout" (("seconds", "15") ∷ []) false ∷ [],
    )
    ∷ ("hold_init_retry_exhausted", on_freedom "init" "timeout" (("seconds", "15") ∷ []) false ∷ [])
    ∷ (
      "wallet_retry_exhausted",
      on_freedom "applepay" "timeout" (("seconds", "15") ∷ []) false
          ∷ on_freedom "googlepay" "timeout" (("seconds", "15") ∷ []) false
          ∷ [],
    )
    ∷ ("wallet_3ds_challenge", on_freedom "googlepay" "wallet_3ds_challenge" [] true ∷ [])
    ∷ (
      "context_deadline",
      record {
        bank = any;
        endpoint = "*";
        action = "timeout";
        params = (("seconds", "60") ∷ []);
        consume_once = false;
      }
          ∷ [],
    )
    ∷ []

unfoldable pub error_rules : Assoc String (List Rule)
error_rules =
    (
      "insufficient_funds",
      on_freedom "*" "force_failure"
            (("error_code", "10009") ∷ ("message", "Insufficient funds on card") ∷ []) true
          ∷ [],
    )
    ∷ (
      "card_declined",
      on_freedom "*" "force_failure"
            (("error_code", "10007") ∷ ("message", "Declined by issuer") ∷ []) true
          ∷ [],
    )
    ∷ (
      "card_data_input",
      on_freedom "*" "force_failure"
            (("error_code", "10005") ∷ ("message", "Wrong card data input") ∷ []) true
          ∷ [],
    )
    ∷ (
      "expired_card",
      on_freedom "*" "force_failure" (("error_code", "10017") ∷ ("message", "Card expired") ∷ [])
            true
          ∷ [],
    )
    ∷ (
      "3ds_failed",
      on_freedom "*" "force_failure"
            (("error_code", "10004") ∷ ("message", "3D Secure authentication failed") ∷ []) true
          ∷ [],
    )
    ∷ (
      "limit_exceeded",
      on_freedom "*" "force_failure"
            (("error_code", "10006") ∷ ("message", "Card limitations exceeded") ∷ []) true
          ∷ [],
    )
    ∷ (
      "code_limit_exceeded",
      on_freedom "*" "force_failure"
            (("error_code", "10003") ∷ ("message", "PIN code attempts exceeded") ∷ []) true
          ∷ [],
    )
    ∷ (
      "emitter_error",
      on_freedom "*" "force_failure"
            (("error_code", "10001") ∷ ("message", "Emitter bank connection error") ∷ []) true
          ∷ [],
    )
    ∷ (
      "country_not_supported",
      on_freedom "*" "force_failure"
            (("error_code", "10013") ∷ ("message", "Card country not supported") ∷ []) true
          ∷ [],
    )
    ∷ (
      "transaction_amount_zero",
      on_freedom "*" "force_failure"
            (("error_code", "11016") ∷ ("message", "Transaction amount is zero") ∷ []) true
          ∷ [],
    )
    ∷ (
      "unknown_bank_error",
      on_freedom "*" "force_failure"
            (("error_code", "9992") ∷ ("message", "Unknown bank error") ∷ []) true
          ∷ [],
    )
    ∷ (
      "default_bank_error",
      on_freedom "*" "force_failure"
            (("error_code", "99999")
              ∷ ("message", "Unmapped error code (PG fallback to ErrDefault)")
              ∷ [])
            true
          ∷ [],
    )
    ∷ (
      "wallet_empty_response",
      on_freedom "applepay" "empty_response" [] true
          ∷ on_freedom "googlepay" "empty_response" [] true
          ∷ [],
    )
    ∷ (
      "wallet_malformed",
      on_freedom "applepay" "malformed_body"
            (("body", "{\"data\":{") ∷ ("content_type", "application/json") ∷ []) true
          ∷ on_freedom "googlepay" "malformed_body"
              (("body", "{\"data\":{") ∷ ("content_type", "application/json") ∷ []) true
          ∷ [],
    )
    ∷ (
      "init_malformed_xml",
      on_freedom "init_payment.php" "malformed_body" (("body", "<<<NOT_XML>>>") ∷ []) true ∷ [],
    )
    ∷ (
      "slow_body_capture",
      on_freedom "do_capture.php" "slow_body" (("chunk_delay_ms", "1000") ∷ []) true ∷ [],
    )
    ∷ (
      "wrong_payment_id",
      on_freedom "direct" "wrong_payment_id" (("payment_id", "9999999999") ∷ []) true ∷ [],
    )
    ∷ (
      "missing_signature",
      on_freedom "direct" "missing_field" (("field", "pg_sig") ∷ []) true ∷ [],
    )
    ∷ ("wrong_amount", on_freedom "get_status3.php" "wrong_amount" (("amount", "1") ∷ []) true ∷ [])
    ∷ (
      "status_waiting",
      on_freedom "get_status3.php" "force_status" (("payment_status", "waiting") ∷ []) false ∷ [],
    )
    ∷ []
