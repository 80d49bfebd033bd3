-- ===== src/Returns/Model.antt =====
-- Return requests and their status machine (backend/internal/return/model.go).
use Prim.Native.String.{String}
use plant_shop.Base.{ℕ, Bool, true, false, Option, none, some, ltb, ◌==◌, if◌then◌else◌}
use plant_shop.Text.{Text, byte_len}

pub data ReturnStatus : Type 0 where
  requested approved rejected received refund_pending refunded refund_failed : ReturnStatus
  other : Text → ReturnStatus

-- A row of return_requests.
pub record ReturnRequest : Type 0 where
  pub id : ℕ
  pub order_id : ℕ
  pub user_id : ℕ
  pub status : ReturnStatus
  pub reason : Text
  pub customer_note : Option Text
  pub admin_note : Option Text
  pub requested_at : ℕ
  pub reviewed_at : Option ℕ
  pub received_at : Option ℕ

unfoldable pub is_valid_status : ReturnStatus → Bool
is_valid_status (ReturnStatus.other s) = false
is_valid_status _ = true

-- `allowedTransitions` and `CanTransition`.
unfoldable pub can_transition : ReturnStatus → ReturnStatus → Bool
can_transition ReturnStatus.requested ReturnStatus.approved = true
can_transition ReturnStatus.requested ReturnStatus.rejected = true
can_transition ReturnStatus.approved ReturnStatus.received = true
can_transition ReturnStatus.received ReturnStatus.refund_pending = true
can_transition ReturnStatus.refund_pending ReturnStatus.refunded = true
can_transition ReturnStatus.refund_pending ReturnStatus.refund_failed = true
can_transition _ _ = false

abbrev pub is_refunded : ReturnStatus → Bool
is_refunded ReturnStatus.refunded = true
is_refunded _ = false

pub record RequestInput : Type 0 where
  pub reason : Text
  pub customer_note : Text

pub record ErrValidation : Type 0 where
  pub field : String
  pub message : String

-- `RequestInput.Validate`; `none` is a nil error.
unfoldable pub validate : RequestInput → Option ErrValidation
validate i =
    if byte_len i.reason == 0
    then some (record { field = "reason"; message = "is required" })
    else if ltb 1024 (byte_len i.reason)
    then some (record { field = "reason"; message = "is too long (max 1024 characters)" })
    else if ltb 2048 (byte_len i.customer_note)
    then some (record { field = "customer_note"; message = "is too long (max 2048 characters)" })
    else none
