-- ===== src/Payment/Errors.antt =====
-- The errors of the payment repository (backend/internal/payment/model.go).
use plant_shop.Store.{DbError}

pub data Error : Type 0 where
  payment_in_progress provider_mismatch invalid_authority invalid_verification : Error
  order_not_found order_already_paid order_not_payable : Error
  attempt_not_found already_processed : Error
  db : DbError → Error
