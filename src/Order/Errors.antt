-- ===== src/Order/Errors.antt =====
-- The errors of the order repository (backend/internal/order/model.go).
use plant_shop.Order.Input.{ErrValidation}
use plant_shop.Coupon.Model.{Reason}
use plant_shop.Store.{DbError}

pub data Error : Type 0 where
  empty_cart insufficient_stock order_not_found invalid_transition refund_required : Error
  payment_required order_not_eligible_for_cancel : Error
  validation : ErrValidation → Error
  coupon_eligibility : Reason → Error
  db : DbError → Error
