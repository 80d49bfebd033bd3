-- ===== src/Order/Cancel.antt =====
-- Advancing, cancelling and expiring orders (backend/internal/order/repository.go and expiry.go).
use plant_shop.Order.Model.{
  Item, Order, Status, PaymentStatus, can_transition, requires_paid_payment, is_paid, is_refunded,
  is_unpaid, is_pending, is_cancelled,
}
use plant_shop.Order.Errors.{Error}
use plant_shop.Order.Inventory.{restore_stock}
use plant_shop.Coupon.Repository.{release_redemption_for_order}
use plant_shop.Payment.Model.{Attempt, is_active}
use plant_shop.Notification.Outbox.{kind_of_status, notify}
use plant_shop.Store.{Store, Env, DbError, lift, find_order, modify_order}
use plant_shop.Base.{
  ℕ, ◌+◌, Bool, true, not, ◌&&◌, ◌||◌, none, some, List, [], ◌∷◌, map, ltb, ◌==◌, if◌then◌else◌,
  take, Result, ok, err, ◌>>=◌, ◌>>◌, fail_if,
}
use plant_shop.Base.Sort.{sort_by}
use plant_shop.Base.Table.{exists?, select}

-- The attempts of an order that may still take the customer's money.
abbrev pub blocks : ℕ → Attempt → Bool
blocks order a = a.order_id == order && is_active a

-- `paymentBlocksCancellation`.
unfoldable pub payment_blocks_cancellation : ℕ → PaymentStatus → List Attempt → Bool
payment_blocks_cancellation order p attempts =
    if is_paid p || is_refunded p then true else exists? (blocks order) attempts

abbrev pub set_status : Status → Order → Order
set_status t o = record o { status = t }

-- `SELECT product_id, quantity FROM order_items WHERE order_id = $1`.
unfoldable pub items_of : ℕ → List Order → List Item
items_of id os = elim (find_order id os) [ none ↦ [] | some o ↦ o.items ]

-- Stock and coupon of a cancelled order: `restoreOrderStock` and `ReleaseRedemptionForOrder`.
unfoldable pub give_back : ℕ → Store → Result DbError Store
give_back id s = do
  ps ← restore_stock (items_of id s.orders) s.products
  ok (record s { products = ps; redemptions = (release_redemption_for_order id s.redemptions).0 })

-- `UPDATE orders SET status = t WHERE id = id`, and the notification of it.
unfoldable pub move : Env → ℕ → Status → Store → Result DbError Store
move env id t s =
    notify env.notifications id (kind_of_status t) env.now
      (record s { orders = modify_order id (set_status t) s.orders })

-- The checks and writes of a transition to cancelled within `UpdateStatus`.
unfoldable pub cancel_part : ℕ → PaymentStatus → Store → Result Error Store
cancel_part id p s = do
  let blocked = payment_blocks_cancellation id p s.attempts
  fail_if (blocked && is_paid p) Error.refund_required
  fail_if blocked Error.invalid_transition
  lift Error.db (give_back id s)

-- Only a transition to cancelled gives anything back.
unfoldable pub settle : ℕ → Status → Order → Store → Result Error Store
unfolding cancel_part
settle id t o s = if is_cancelled t then cancel_part id o.payment_status s else ok s

-- `UpdateStatus` on the order that it has read and locked.
unfoldable pub advance : Env → ℕ → Status → Order → Store → Result Error Store
advance env id t o s = do
  fail_if (not (can_transition o.status t)) Error.invalid_transition
  fail_if (requires_paid_payment o.payment_method t && not (is_paid o.payment_status))
      Error.payment_required
  s' ← settle id t o s
  lift Error.db (move env id t s')

-- `UpdateStatus`; what it reads again at the end is the order of the new store.
unfoldable pub update_status : Env → ℕ → Status → Store → Result Error Store
update_status env id t s = elim (find_order id s.orders) [
  | none ↦ err Error.order_not_found
  | some o ↦ advance env id t o s
]

-- `CancelOwnOrder` on the order that it has read and locked.
unfoldable pub cancel_own : Env → ℕ → ℕ → Order → Store → Result Error Store
cancel_own env user id o s = do
  fail_if (not (o.user_id == user)) Error.order_not_found
  fail_if (payment_blocks_cancellation id o.payment_status s.attempts)
      Error.order_not_eligible_for_cancel
  fail_if (not (can_transition o.status Status.cancelled)) Error.invalid_transition
  s' ← lift Error.db (give_back id s)
  lift Error.db (move env id Status.cancelled s')

unfoldable pub cancel_own_order : Env → ℕ → ℕ → Store → Result Error Store
cancel_own_order env user id s = elim (find_order id s.orders) [
  | none ↦ err Error.order_not_found
  | some o ↦ cancel_own env user id o s
]

-- The rows that the expiry selects: pending, unpaid, created before the cutoff, with no attempt that
-- may still take money.
unfoldable pub is_expirable : ℕ → List Attempt → Order → Bool
is_expirable cutoff attempts o =
    is_pending o.status
    && is_unpaid o.payment_status
    && ltb o.created_at cutoff
    && not (exists? (blocks o.id) attempts)

-- `entry`: what the loop keeps of a selected row.
pub record Entry : Type 0 where
  pub id : ℕ
  pub payment_status : PaymentStatus

abbrev pub entry_of : Order → Entry
entry_of o = record { id = o.id; payment_status = o.payment_status }

-- One round of the loop.
unfoldable pub expire_one : Env → Entry → Store → Result DbError (Store × ℕ)
expire_one env i s =
    if payment_blocks_cancellation i.id i.payment_status s.attempts
    then ok (s, 0)
    else do s' ← give_back i.id s; t ← move env i.id Status.cancelled s'; ok (t, 1)

unfoldable pub expire_all : Env → List Entry → Store → ℕ → Result DbError (Store × ℕ)
expire_all env [] s n = ok (s, n)
expire_all env (i ∷ is) s n = expire_one env i s >>= λ r. expire_all env is r.0 (n + r.1)

abbrev pub is_earlier : Order → Order → Bool
is_earlier o p = ltb o.id p.id

-- The rows that one run selects, by their ids: at most twenty, without the rows that another transaction has locked.
unfoldable pub expiring : (Order → Bool) → ℕ → Store → List Order
expiring is_locked cutoff s = take 20 (
    sort_by is_earlier
      (select (λ (o : Order). is_expirable cutoff s.attempts o && not (is_locked o)) s.orders))

-- `ExpireReservations`: one transaction, and how many orders it cancelled.
unfoldable pub expire_reservations : Env → (Order → Bool) → ℕ → Store → Result DbError (Store × ℕ)
expire_reservations env is_locked cutoff s =
    expire_all env (map entry_of (expiring is_locked cutoff s)) s 0
