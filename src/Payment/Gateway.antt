-- ===== src/Payment/Gateway.antt =====
-- The client of the payment gateway, as the handlers see it (backend/internal/payment/zarinpal.go). What
-- the gateway answers is a parameter.
use plant_shop.Base.{Option, Result}
use plant_shop.Base.Int.{ℤ}
use plant_shop.Text.{Text}

pub record RequestPaymentInput : Type 0 where
  pub amount : ℤ
  pub description : Text
  pub callback_url : Text

pub record RequestPaymentOutput : Type 0 where
  pub authority : Text
  pub redirect_url : Text
  pub code : ℤ

pub record VerifyPaymentInput : Type 0 where
  pub authority : Text
  pub amount : ℤ

pub record VerifyPaymentOutput : Type 0 where
  pub code : ℤ
  pub ref_id : ℤ

-- `*ProviderError` with its code, or any other error.
pub data ClientError : Type 0 where
  rejected : ℤ → ClientError
  unavailable : ClientError

-- `Client`.
pub record Client : Type 0 where
  pub request_payment : RequestPaymentInput → Result ClientError RequestPaymentOutput
  pub verify_payment : VerifyPaymentInput → Result ClientError VerifyPaymentOutput

-- What the handlers are built with: `client` may be nil.
pub record Gateway : Type 0 where
  pub client : Option Client
  pub callback_url : Text
