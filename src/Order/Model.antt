-- ===== src/Order/Model.antt =====
-- The order's statuses and their machine (backend/internal/order/model.go). A status or method that
-- the source holds as a string is a data type with its constants, and `other` for any other string.
pub mod Machine
use plant_shop.Base.{ℕ, Bool, true, false, ◌&&◌, Option, List}
use plant_shop.Base.Int.{ℤ}
use plant_shop.Text.{Text}

pub data Status : Type 0 where
  pending processing shipped delivered cancelled : Status
  other : Text → Status

pub data PaymentStatus : Type 0 where
  pending paid failed refunded : PaymentStatus

pub data PaymentMethod : Type 0 where
  manual zarinpal : PaymentMethod

unfoldable pub is_valid_status : Status → Bool
is_valid_status (Status.other s) = false
is_valid_status _ = true

-- `allowedTransitions` and `CanTransition`.
unfoldable pub can_transition : Status → Status → Bool
can_transition Status.pending Status.processing = true
can_transition Status.pending Status.cancelled = true
can_transition Status.processing Status.shipped = true
can_transition Status.processing Status.cancelled = true
can_transition Status.shipped Status.delivered = true
can_transition _ _ = false

-- `fulfillmentStatuses`.
unfoldable pub is_fulfillment : Status → Bool
is_fulfillment Status.processing = true
is_fulfillment Status.shipped = true
is_fulfillment Status.delivered = true
is_fulfillment _ = false

unfoldable pub is_zarinpal : PaymentMethod → Bool
is_zarinpal PaymentMethod.zarinpal = true
is_zarinpal PaymentMethod.manual = false

unfoldable pub requires_paid_payment : PaymentMethod → Status → Bool
unfolding is_zarinpal is_fulfillment
requires_paid_payment m s = is_zarinpal m && is_fulfillment s

-- Comparisons of a status with a constant.
unfoldable pub is_paid : PaymentStatus → Bool
is_paid PaymentStatus.paid = true
is_paid _ = false

unfoldable pub is_refunded : PaymentStatus → Bool
is_refunded PaymentStatus.refunded = true
is_refunded _ = false

unfoldable pub is_unpaid : PaymentStatus → Bool
is_unpaid PaymentStatus.pending = true
is_unpaid PaymentStatus.failed = true
is_unpaid _ = false

unfoldable pub is_pending : Status → Bool
is_pending Status.pending = true
is_pending _ = false

unfoldable pub is_cancelled : Status → Bool
is_cancelled Status.cancelled = true
is_cancelled _ = false

unfoldable pub is_delivered : Status → Bool
is_delivered Status.delivered = true
is_delivered _ = false

-- A row of order_items, less the columns that only repeat the product's name and slug.
pub record Item : Type 0 where
  pub product_id : ℕ
  pub unit_price : ℤ
  pub quantity : ℕ
  pub subtotal : ℤ

-- A row of orders with its order_items. The delivery snapshot is `delivery`; times are in seconds.
pub record Delivery : Type 0 where
  pub recipient_name : Text
  pub phone : Text
  pub address_line1 : Text
  pub address_line2 : Option Text
  pub city : Text
  pub postal_code : Text
  pub country : Text

pub record Order : Type 0 where
  pub id : ℕ
  pub user_id : ℕ
  pub status : Status
  pub total : ℤ
  pub created_at : ℕ
  pub delivery : Delivery
  pub shipping_method : Text
  pub shipping_fee : ℤ
  pub items_subtotal : ℤ
  pub payment_status : PaymentStatus
  pub payment_method : PaymentMethod
  pub coupon_id : Option ℕ
  pub coupon_code : Option Text
  pub discount_amount : ℤ
  pub currency : Text
  pub items : List Item
