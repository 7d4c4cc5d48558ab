-- ===== src/Epay/Bodies.antt =====
-- internal/infrastructure/epay/types.go: the bodies of requests and answers. Of an answer, the fields that
-- the program never sets are left out.
use chaospay.Prelude.{String, Bool, false, not, Option, none, some, str_eq}
use chaospay.Prelude.Words.{ℤ}
use chaospay.Payment.Repo.{PayError}

-- `AuthorizeRequest`. Of the Google token the text is read, of `cardId` its `id`.
pub record AuthorizeRequest : Type 0 where
  pub amount : ℤ
  pub terminal_id : String
  pub invoice_id : String
  pub currency : String
  pub name : String
  pub cryptogram : String
  pub cryptogram_apple_pay : String
  pub eci : String
  pub description : String
  pub card_id : Option String
  pub account_id : String
  pub payment_type : String
  pub postlink : String
  pub google_pay : Option String
  pub failure_postlink : String
  pub backlink : String
  pub failure_backlink : String
  pub email : String
  pub phone : String
  pub card_save : Bool

-- `HasToken`
unfoldable pub has_token : Option String → Bool
has_token none = false
has_token (some token) = not (str_eq token "")

-- `ConfirmRequest`
pub record ConfirmRequest : Type 0 where
  pub id : String
  pub pa_res : String
  pub md : String

-- `Secure3D`
pub record Secure3d : Type 0 where
  pub pa_req : String
  pub md : String
  pub action : String

-- `AuthorizeResponse`
pub record AuthorizeResponse : Type 0 where
  pub id : String
  pub amount : ℤ
  pub currency : String
  pub invoice_id : String
  pub account_id : String
  pub description : String
  pub reference : String
  pub int_reference : String
  pub language : String
  pub secure_3d : Option Secure3d
  pub card_id : String
  pub fee : ℤ
  pub card_mask : String
  pub card_type : String
  pub name : String
  pub terminal : String

-- `OperationResponse`
pub record OperationResponse : Type 0 where
  pub code : ℤ
  pub message : String
  pub external_id : String

-- `StatusResponse`
pub record StatusResponse : Type 0 where
  pub id : String
  pub invoice_id : String
  pub amount : ℤ
  pub currency : String
  pub status : String
  pub status_name : String
  pub reference : String
  pub int_reference : String
  pub date_time : String
  pub card_mask : String
  pub reason : String
  pub reason_code : ℤ

-- `ErrorResponse`
pub record ErrorResponse : Type 0 where
  pub code : ℤ
  pub message : String
  pub result_code : ℤ

-- `TokenResponse`
pub record TokenResponse : Type 0 where
  pub access_token : String
  pub refresh_token : String
  pub expires_in : String
  pub scope : String
  pub token_type : String

-- What is printed as JSON. `failure` is the `ErrorResponse` whose message is the text of an error.
pub data Body : Type 0 where
  authorize_body : AuthorizeResponse → Body
  operation_body : OperationResponse → Body
  status_body : StatusResponse → Body
  error_body : ErrorResponse → Body
  token_body : TokenResponse → Body
  failure : PayError → Body
