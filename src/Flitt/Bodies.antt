-- ===== src/Flitt/Bodies.antt =====
-- internal/infrastructure/flitt/types.go: the envelopes of the answers.
mod Charges
mod Orders
unfoldable pub use Charges.*
unfoldable pub use Orders.*
use chaospay.Prelude.{String, Option, some}
use chaospay.Prelude.Words.{ℤ}

-- `ErrorPayload`
pub record ErrorPayload : Type 0 where
  pub response_status : String
  pub error_message : String
  pub error_code : Option ℤ
  pub request_id : String

-- The envelopes.
pub data Envelope : Type 0 where
  checkout_envelope : CheckoutResponse → Envelope
  direct_envelope : DirectResponse → Envelope
  recurring_envelope : RecurringResponse → Envelope
  capture_envelope : CaptureResponse → Envelope
  reverse_envelope : ReverseResponse → Envelope
  status_envelope : StatusResponse → Envelope
  step2_envelope : Step2Response → Envelope
  error_response : ErrorPayload → Envelope

-- `NewFailure`
abbrev pub new_failure : ℤ → String → Envelope
new_failure code msg = error_response (record {
  response_status = "failure";
  error_message = msg;
  error_code = some code;
  request_id = "";
})
