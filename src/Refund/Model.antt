-- ===== src/Refund/Model.antt =====
-- Refunds and their status machine (backend/internal/refund/model.go).
use plant_shop.Order.Model.{PaymentMethod}
use plant_shop.Base.{ℕ, Bool, true, false, Option}
use plant_shop.Base.Int.{ℤ}
use plant_shop.Text.{Text}

pub data RefundStatus : Type 0 where
  pending processing succeeded failed manual_review : RefundStatus
  other : Text → RefundStatus

-- A row of refunds.
pub record Refund : Type 0 where
  pub id : ℕ
  pub order_id : ℕ
  pub return_request_id : Option ℕ
  pub amount : ℤ
  pub payment_method : PaymentMethod
  pub status : RefundStatus
  pub provider_refund_id : Option Text
  pub provider_response : Option Text
  pub requested_by_admin_id : Option ℕ
  pub last_error : Option Text
  pub completed_at : Option ℕ

unfoldable pub is_valid_status : RefundStatus → Bool
is_valid_status (RefundStatus.other s) = false
is_valid_status _ = true

-- `allowedRefundTransitions` and `CanTransition`.
unfoldable pub can_transition : RefundStatus → RefundStatus → Bool
can_transition RefundStatus.pending RefundStatus.processing = true
can_transition RefundStatus.pending RefundStatus.failed = true
can_transition RefundStatus.pending RefundStatus.manual_review = true
can_transition RefundStatus.processing RefundStatus.succeeded = true
can_transition RefundStatus.processing RefundStatus.failed = true
can_transition RefundStatus.processing RefundStatus.manual_review = true
can_transition RefundStatus.manual_review RefundStatus.succeeded = true
can_transition RefundStatus.manual_review RefundStatus.failed = true
can_transition _ _ = false

abbrev pub is_succeeded : RefundStatus → Bool
is_succeeded RefundStatus.succeeded = true
is_succeeded _ = false

abbrev pub is_pending : RefundStatus → Bool
is_pending RefundStatus.pending = true
is_pending _ = false
