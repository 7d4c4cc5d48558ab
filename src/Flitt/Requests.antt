-- ===== src/Flitt/Requests.antt =====
-- internal/infrastructure/flitt/types.go: the requests of Flitt, as they are parsed.
use chaospay.Prelude.{String}
use chaospay.Prelude.Words.{ℤ}

-- `CheckoutRequest`
pub record CheckoutRequest : Type 0 where
  pub order_id : String
  pub amount : ℤ
  pub currency : String
  pub order_desc : String
  pub response_url : String
  pub server_callback_url : String
  pub sender_email : String
  pub language : String
  pub lifetime : ℤ
  pub merchant_data : String
  pub required_rectoken : String
  pub preauth : String
  pub verification : String
  pub merchant_id : ℤ
  pub signature : String

-- `DirectRequest`
pub record DirectRequest : Type 0 where
  pub order_id : String
  pub merchant_id : ℤ
  pub order_desc : String
  pub amount : ℤ
  pub currency : String
  pub container : String
  pub server_callback_url : String
  pub client_ip : String
  pub preauth : String
  pub signature : String

-- `RecurringRequest`
pub record RecurringRequest : Type 0 where
  pub version : String
  pub order_id : String
  pub amount : ℤ
  pub currency : String
  pub order_desc : String
  pub rectoken : String
  pub server_callback_url : String
  pub preauth : String
  pub cvv2 : String
  pub client_ip : String
  pub lifetime : ℤ
  pub sender_email : String
  pub product_id : String
  pub merchant_data : String
  pub merchant_id : ℤ
  pub signature : String

-- `CaptureRequest`
pub record CaptureRequest : Type 0 where
  pub version : String
  pub order_id : String
  pub amount : ℤ
  pub currency : String
  pub merchant_id : ℤ
  pub signature : String

-- `ReverseRequest`
pub record ReverseRequest : Type 0 where
  pub version : String
  pub order_id : String
  pub amount : ℤ
  pub currency : String
  pub merchant_id : ℤ
  pub email : String
  pub comment : String
  pub reverse_id : String
  pub signature : String

-- `StatusRequest`
pub record StatusRequest : Type 0 where
  pub version : String
  pub order_id : String
  pub merchant_id : ℤ
  pub signature : String

-- `Step2Request`
pub record Step2Request : Type 0 where
  pub merchant_id : String
  pub order_id : String
  pub pares : String
  pub md : String
  pub version : String
  pub signature : String
