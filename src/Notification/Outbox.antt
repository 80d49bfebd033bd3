-- ===== src/Notification/Outbox.antt =====
-- Writing to the outbox (backend/internal/notification/repository.go and order_events.go).
use plant_shop.Order.Model.{Status}
use plant_shop.Store.{Store, DbError, no_rows, find_order}
use plant_shop.Notification.Model.{
  Notification, OutboxStatus, event_key, event_key_for_order_status,
}
use plant_shop.Base.{
  ℕ, suc, ◌≡◌, Bool, Option, none, some, List, [], ◌∷◌, ◌++◌, arith, ◌==◌, if◌then◌else◌, Result,
  ok, err,
}
use plant_shop.Base.Table.{exists?}
use plant_shop.Text.{Text, codes, text_eq}

-- A new row, as the columns' defaults make it.
abbrev pub new_row : ℕ → Text → Option ℕ → Text → ℕ → Notification
new_row id key user event_type now = record {
  id = id;
  event_key = key;
  user_id = user;
  event_type = event_type;
  status = OutboxStatus.pending;
  attempts = 0;
  next_attempt_at = now;
  last_error = none;
  sent_at = none;
  updated_at = now;
}

abbrev pub has_key : Text → List Notification → Bool
has_key key = exists? (λ (n : Notification). text_eq n.event_key key)

-- `EnqueueTx`: `ON CONFLICT (event_key) DO NOTHING`; user 0 is stored as NULL.
unfoldable pub enqueue_tx : Text → ℕ → Text → ℕ → Store → Store
enqueue_tx key user event_type now s = if has_key key s.outbox then s else record s {
  outbox =
      s.outbox
      ++ new_row s.next_notification key (if user == 0 then none else some user) event_type now
        ∷ [];
  next_notification = suc s.next_notification;
}

-- The kinds that `OrderEventTx` is called with, by their strings.
pub data Kind : Type 0 where
  created cancelled payment_succeeded payment_failed processing shipped delivered : Kind
  unknown : Text → Kind

unfoldable pub kind_of_status : Status → Kind
kind_of_status Status.pending = Kind.unknown (codes "pending")
kind_of_status Status.processing = Kind.processing
kind_of_status Status.shipped = Kind.shipped
kind_of_status Status.delivered = Kind.delivered
kind_of_status Status.cancelled = Kind.cancelled
kind_of_status (Status.other s) = Kind.unknown s

-- The key and event type of each kind; `none` where the `switch` falls to its default.
unfoldable pub event_of : ℕ → Kind → Option (Text × Text)
event_of id Kind.created = some (event_key id (codes "created"), codes "order_created")
event_of id Kind.cancelled = some (event_key id (codes "cancelled"), codes "order_cancelled")
event_of id Kind.payment_succeeded =
    some (event_key id (codes "payment_succeeded"), codes "payment_succeeded")
event_of id Kind.payment_failed =
    some (event_key id (codes "payment_failed"), codes "payment_failed")
event_of id Kind.processing =
    some (event_key_for_order_status id (codes "processing"), codes "order_processing")
event_of id Kind.shipped =
    some (event_key_for_order_status id (codes "shipped"), codes "order_shipped")
event_of id Kind.delivered =
    some (event_key_for_order_status id (codes "delivered"), codes "order_delivered")
event_of id (Kind.unknown s) = none

-- `OrderEventTx`; every order has its user, by the foreign key.
unfoldable pub order_event_tx : ℕ → Kind → ℕ → Store → Result DbError Store
unfolding enqueue_tx event_of
order_event_tx id kind now s = elim (find_order id s.orders) [
  | none ↦ err no_rows
  | some o ↦ elim (event_of id kind) [
    | none ↦ ok s
    | some (key, event_type) ↦ ok (enqueue_tx key o.user_id event_type now s)
  ]
]

-- `if r.notifications != nil { ... }`.
unfoldable pub notify : Bool → ℕ → Kind → ℕ → Store → Result DbError Store
unfolding order_event_tx
notify enabled id kind now s = if enabled then order_event_tx id kind now s else ok s

-- Every other table is as it was.
pub record SameButOutbox (s t : Store) : Type 0 where
  pub same_products : t.products ≡ s.products
  pub same_carts : t.carts ≡ s.carts
  pub same_orders : t.orders ≡ s.orders
  pub same_coupons : t.coupons ≡ s.coupons
  pub same_redemptions : t.redemptions ≡ s.redemptions
  pub same_attempts : t.attempts ≡ s.attempts
  pub same_returns : t.returns ≡ s.returns
  pub same_refunds : t.refunds ≡ s.refunds
  pub same_next_order : t.next_order ≡ s.next_order
  pub same_next_attempt : t.next_attempt ≡ s.next_attempt

pub enqueue_tx-SameButOutbox :
    (key : Text) (user : ℕ) (event_type : Text) (now : ℕ) (s : Store)
    → SameButOutbox s (enqueue_tx key user event_type now s)
unfolding enqueue_tx
enqueue_tx-SameButOutbox key user event_type now s = ground arith

pub notify-SameButOutbox :
    (enabled : Bool) (id : ℕ) (kind : Kind) (now : ℕ) (s t : Store)
    → notify enabled id kind now s ≡ ok t
    → SameButOutbox s t
unfolding notify
notify-SameButOutbox enabled id kind now s t h = ground arith
