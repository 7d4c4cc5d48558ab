-- ===== src/Epay/Reasons.antt =====
-- internal/infrastructure/epay/errors.go: the reason codes of Halyk Epay, and what class of error the
-- gateway makes of each.
use Prim.Native.String.{◌++◌ as str_append}
use chaospay.Prelude.{ℕ, String, none, some, [], ◌∷◌}
use chaospay.Prelude.Words.{ℤ, pos, negsuc}
use chaospay.Prelude.Assoc.{Assoc, lookup, nat_eq}
use chaospay.Prelude.Decimal.{itoa}

-- `ErrorClass`: `unmapped` is `ErrDefault`, `acquirer_failure` is `ErrUnknown`.
pub data ErrorClass : Type 0 where
  card_data_input declined_by_issuer acquirer_failure insufficient_funds : ErrorClass
  card_expired card_limits_exceeded transaction_amount_zero emitter_error : ErrorClass
  secure3d_failed fraud_suspected attempt_limit_exceeded country_not_supported : ErrorClass
  acquirer_timeout unmapped : ErrorClass

-- `reasonCodeMap`
unfoldable pub reason_code_map : Assoc ℕ ErrorClass
reason_code_map =
    (457, card_data_input)
    ∷ (459, card_data_input)
    ∷ (469, card_data_input)
    ∷ (471, card_data_input)
    ∷ (472, card_data_input)
    ∷ (501, card_data_input)
    ∷ (3339, card_data_input)
    ∷ (455, secure3d_failed)
    ∷ (473, secure3d_failed)
    ∷ (499, secure3d_failed)
    ∷ (500, secure3d_failed)
    ∷ (503, secure3d_failed)
    ∷ (877, secure3d_failed)
    ∷ (462, declined_by_issuer)
    ∷ (463, declined_by_issuer)
    ∷ (464, declined_by_issuer)
    ∷ (465, declined_by_issuer)
    ∷ (466, declined_by_issuer)
    ∷ (467, declined_by_issuer)
    ∷ (468, declined_by_issuer)
    ∷ (479, declined_by_issuer)
    ∷ (480, declined_by_issuer)
    ∷ (481, declined_by_issuer)
    ∷ (482, declined_by_issuer)
    ∷ (487, declined_by_issuer)
    ∷ (489, declined_by_issuer)
    ∷ (490, declined_by_issuer)
    ∷ (495, declined_by_issuer)
    ∷ (498, declined_by_issuer)
    ∷ (521, declined_by_issuer)
    ∷ (523, declined_by_issuer)
    ∷ (524, declined_by_issuer)
    ∷ (525, declined_by_issuer)
    ∷ (527, declined_by_issuer)
    ∷ (483, fraud_suspected)
    ∷ (484, insufficient_funds)
    ∷ (478, card_expired)
    ∷ (485, card_expired)
    ∷ (486, card_limits_exceeded)
    ∷ (488, card_limits_exceeded)
    ∷ (491, card_limits_exceeded)
    ∷ (528, card_limits_exceeded)
    ∷ (529, card_limits_exceeded)
    ∷ (2678, card_limits_exceeded)
    ∷ (476, attempt_limit_exceeded)
    ∷ (492, attempt_limit_exceeded)
    ∷ (2740, attempt_limit_exceeded)
    ∷ (1612, country_not_supported)
    ∷ (470, transaction_amount_zero)
    ∷ (493, emitter_error)
    ∷ (494, emitter_error)
    ∷ (1267, emitter_error)
    ∷ (1563, emitter_error)
    ∷ (1611, emitter_error)
    ∷ (458, acquirer_timeout)
    ∷ (497, acquirer_timeout)
    ∷ (502, acquirer_timeout)
    ∷ (456, acquirer_failure)
    ∷ (460, acquirer_failure)
    ∷ (461, acquirer_failure)
    ∷ (477, acquirer_failure)
    ∷ (496, acquirer_failure)
    ∷ (522, acquirer_failure)
    ∷ (526, acquirer_failure)
    ∷ []

-- `Classify`. A negative code is in no entry.
unfoldable pub classify : ℤ → ErrorClass
unfolding reason_code_map lookup
classify (pos n) = elim (lookup n reason_code_map) [ none ↦ unmapped | some c ↦ c ]
classify (negsuc n) = unmapped

-- The cases of `DefaultMessage`.
unfoldable pub class_message : ErrorClass → ℤ → String
class_message card_data_input code = "Invalid card data"
class_message declined_by_issuer code = "Declined by issuer"
class_message insufficient_funds code = "Insufficient funds"
class_message card_expired code = "Card expired"
class_message card_limits_exceeded code = "Card limitations exceeded"
class_message transaction_amount_zero code = "Transaction amount is zero"
class_message emitter_error code = "Emitter bank connection error"
class_message secure3d_failed code = "3D Secure verification failed"
class_message fraud_suspected code = "Declined by security service"
class_message attempt_limit_exceeded code = "Payment attempt limit exceeded"
class_message country_not_supported code = "Card country is not supported"
class_message acquirer_timeout code = "Payment system timeout"
class_message acquirer_failure code = "Unknown bank error"
class_message unmapped code = str_append "code=" (itoa code)

-- `DefaultMessage`
unfoldable pub default_message : ℤ → String
unfolding classify class_message
default_message code = class_message (classify code) code
