-- ===== src/Examples/Outbox.antt =====
-- The worker finds one message to send, and the mail server refuses it.
use plant_shop.Notification.Model.{Notification}
use plant_shop.Notification.Outbox.{new_row}
use plant_shop.Notification.Worker.{Sender, process_batch, next_attempt}
use plant_shop.Notification.Worker.Claimed.{work}
use plant_shop.Notification.Worker.Progress.{process_batch-progress}
use plant_shop.Notification.Worker.Backoff.{next_attempt-doubles}
use plant_shop.Base.{List, [], ◌∷◌, some, true, refl, ◌<◌, ◌≡◌, ◌+◌, ◌^◌, min, arith}
use plant_shop.Base.Int.{pos}
use plant_shop.Text.{codes}

abbrev rows : List Notification
rows =
    new_row 1 (codes "order:1:created") (some 7) (codes "order_created") 1000
    ∷ new_row 2 (codes "order:2:created") (some 7) (codes "order_created") 1000
    ∷ []

abbrev refusing : Sender
refusing = record {
  send = λ n. record { error = some (codes "refused"); at = 1010 };
  running = λ n. true;
}

process_batch-progress_example :
    work (pos 5) (process_batch (pos 5) refusing 1000 rows) < work (pos 5) rows
process_batch-progress_example =
    process_batch-progress (pos 5) refusing 1000 rows (refl, (refl, tt))
      (omega arith, (omega arith, tt)) (λ n. refl) refl

next_attempt-doubles_example : next_attempt 3 1000 ≡ 1000 + min (2 ^ 3) 3600
next_attempt-doubles_example = next_attempt-doubles 3 1000 (omega arith)
