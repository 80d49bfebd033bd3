-- ===== src/Notification/Model.antt =====
-- Rows of the outbox and their keys (backend/internal/notification/model.go). The recipient and the
-- JSON payload of a row are not modelled.
use plant_shop.Base.{ℕ, zero, suc, ◌+◌, ◌/◌, ◌%◌, Option, [], ◌∷◌, ◌++◌, ltb, if◌then◌else◌}
use plant_shop.Text.{Text, codes}

pub data OutboxStatus : Type 0 where
  pending processing sent failed : OutboxStatus

-- A row of notification_outbox.
pub record Notification : Type 0 where
  pub id : ℕ
  pub event_key : Text
  pub user_id : Option ℕ
  pub event_type : Text
  pub status : OutboxStatus
  pub attempts : ℕ
  pub next_attempt_at : ℕ
  pub last_error : Option Text
  pub sent_at : Option ℕ
  pub updated_at : ℕ

-- `fmt.Sprintf("%d", n)`: the digits of n, read on fuel above n.
unfoldable pub decimal_from : ℕ → ℕ → Text
decimal_from zero n = []
decimal_from (suc f) n =
    let rest = decimal_from f (n / 10) in
    if ltb n 10 then (b'0' + n) ∷ [] else rest ++ (b'0' + n % 10) ∷ []

unfoldable pub decimal : ℕ → Text
unfolding decimal_from
decimal n = decimal_from (suc n) n

-- `EventKey`, `EventKeyForOrderStatus`, `EventKeyForReturnRequest`, `EventKeyForRefund`.
unfoldable pub event_key : ℕ → Text → Text
unfolding decimal
event_key id kind = codes "order:" ++ (decimal id ++ (codes ":" ++ kind))

unfoldable pub event_key_for_order_status : ℕ → Text → Text
unfolding decimal
event_key_for_order_status id status =
    codes "order:" ++ (decimal id ++ (codes ":status:" ++ status))

unfoldable pub event_key_for_return_request : ℕ → Text → Text
unfolding decimal
event_key_for_return_request id status =
    codes "return_request:" ++ (decimal id ++ (codes ":" ++ status))

unfoldable pub event_key_for_refund : ℕ → Text → Text
unfolding decimal
event_key_for_refund id status = codes "refund:" ++ (decimal id ++ (codes ":" ++ status))
