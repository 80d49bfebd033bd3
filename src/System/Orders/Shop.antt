-- ===== src/System/Orders/Shop.antt =====
-- The calls on orders and refunds change orders soundly.
use mathlib.Core.Path.{subst}
use plant_shop.Order.Model.{Order, Status, is_cancelled, is_paid, is_refunded}
use plant_shop.Order.Input.{CheckoutInput}
use plant_shop.Order.Checkout.{Priced, order_of, place, price, create_from_cart}
use plant_shop.Order.Cancel.{
  set_status, payment_blocks_cancellation, give_back, move, cancel_part, settle, advance,
  update_status, cancel_own, cancel_own_order,
}
use plant_shop.Refund.Model.{Refund, RefundStatus, is_succeeded}
use plant_shop.Refund.Repository as RefundRepository
use plant_shop.Refund.Repository.{Json, set_refunded, write_status, refund_order, enqueue_status}
use plant_shop.Refund.Repository.Once.{update_status-steps, write_status-tables}
use plant_shop.Notification.Outbox.{enqueue_tx}
use plant_shop.Notification.Outbox.{notify-SameButOutbox}
use plant_shop.Store.{Store, Env, find_order, modify_order}
use plant_shop.System.Orders.{IsSound, Change, kept, added, changed, both}
use plant_shop.Base.{
  ℕ, ◌≡◌, refl, inl, inr, true, false, ◌||◌, Option, some, arith, Bool-cases, Option-cases, ok,
  >>=-eq-ok, Result-cases,
}
use plant_shop.Text.{Text}

-- A checkout adds a pending order.
place-Change :
    (env : Env) (user : ℕ) (i : CheckoutInput) (p : Priced) (s : Store) (o : Order) (t : Store)
    → place env user i p s ≡ ok (o, t)
    → Change s t
unfolding place order_of is_cancelled
place-Change env user i p s o t h =
    added o (ground arith) (λ c. ground arith) (grind (arith, notify-SameButOutbox))
      (grind (arith, notify-SameButOutbox))

pub create_from_cart-Change :
    (env : Env) (user : ℕ) (i : CheckoutInput) (s : Store) (o : Order) (t : Store)
    → create_from_cart env user i s ≡ ok (o, t)
    → Change s t
unfolding create_from_cart
create_from_cart-Change env user i s o t h =
    let (p, e, q) = >>=-eq-ok (price env user i s) (λ p. place env user i p s) h in
    place-Change env user i p s o t q

pub give_back-same :
    (id : ℕ) (s t : Store)
    → give_back id s ≡ ok t
    → (t.orders ≡ s.orders) × (t.next_order ≡ s.next_order)
unfolding give_back
give_back-same id s t h = ground arith

pub move-tables :
    (env : Env) (id : ℕ) (st : Status) (s t : Store)
    → move env id st s ≡ ok t
    → (t.orders ≡ modify_order id (set_status st) s.orders) × (t.next_order ≡ s.next_order)
unfolding move
move-tables env id st s t h =
    (grind (arith, notify-SameButOutbox), grind (arith, notify-SameButOutbox))

-- Marking an order that has the payment status p.
pub move-Change :
    (env : Env) (id : ℕ) (st : Status) (o : Order) (s t : Store)
    → find_order id s.orders ≡ some o
    → (is_cancelled st ≡ true → is_paid o.payment_status || is_refunded o.payment_status ≡ false)
    → move env id st s ≡ ok t
    → Change s t
move-Change env id st o s t f free h =
    let (os, n) = move-tables env id st s t h in
    changed id (set_status st) (λ r. refl)
      (λ r (e : find_order id s.orders ≡ some r) g c.
        let same : o ≡ r = ground arith in
        subst (λ (x : Order). is_paid x.payment_status || is_refunded x.payment_status ≡ false) same
          (free c))
      os n

unblocked :
    (id : ℕ) (o : Order) (s : Store)
    → payment_blocks_cancellation id o.payment_status s.attempts ≡ false
    → is_paid o.payment_status || is_refunded o.payment_status ≡ false
unfolding payment_blocks_cancellation
unblocked id o s h = ground arith

settle-same :
    (id : ℕ) (st : Status) (o : Order) (s u : Store)
    → settle id st o s ≡ ok u
    → (u.orders ≡ s.orders)
      × (u.next_order ≡ s.next_order)
      × (is_cancelled st ≡ true → is_paid o.payment_status || is_refunded o.payment_status ≡ false)
unfolding settle cancel_part
settle-same id st o s u h = elim (Bool-cases (is_cancelled st)) [
  | inr c ↦ (ground arith, ground arith, λ d. cc)
  | inl c ↦ elim (Bool-cases (payment_blocks_cancellation id o.payment_status s.attempts)) [
    | inl b ↦ absurd (ground arith)
    | inr b ↦
        let given : give_back id s ≡ ok u = ground arith in
        let (os, n) = give_back-same id s u given in (os, n, λ d. unblocked id o s b)
  ]
]

advance-Change :
    (env : Env) (id : ℕ) (st : Status) (o : Order) (s t : Store)
    → find_order id s.orders ≡ some o
    → advance env id st o s ≡ ok t
    → Change s t
unfolding advance
advance-Change env id st o s t f h = elim (Result-cases (settle id st o s)) [
  | inr (x, e) ↦ absurd (ground arith)
  | inl (u, e) ↦
      let (os, n, free) = settle-same id st o s u e in
      both (kept os n) (move-Change env id st o u t (rw os f) free (ground arith))
]

pub update_status-Change :
    (env : Env) (id : ℕ) (st : Status) (s t : Store) → update_status env id st s ≡ ok t → Change s t
unfolding update_status
update_status-Change env id st s t h = elim (Option-cases (find_order id s.orders)) [
  | inl n ↦ absurd (ground arith)
  | inr (o, e) ↦ advance-Change env id st o s t e (ground arith)
]

cancel_own-Change :
    (env : Env) (user id : ℕ) (o : Order) (s t : Store)
    → find_order id s.orders ≡ some o
    → cancel_own env user id o s ≡ ok t
    → Change s t
unfolding cancel_own
cancel_own-Change env user id o s t f h = elim (Result-cases (give_back id s)) [
  | inr (x, e) ↦ absurd (ground arith)
  | inl (u, e) ↦
      let (os, n) = give_back-same id s u e in
      let free : payment_blocks_cancellation id o.payment_status s.attempts ≡ false =
        ground arith in
      both (kept os n) (
        move-Change env id Status.cancelled o u t (rw os f) (λ c. unblocked id o s free)
          (ground arith))
]

pub cancel_own_order-Change :
    (env : Env) (user id : ℕ) (s t : Store) → cancel_own_order env user id s ≡ ok t → Change s t
unfolding cancel_own_order
cancel_own_order-Change env user id s t h = elim (Option-cases (find_order id s.orders)) [
  | inl n ↦ absurd (ground arith)
  | inr (o, e) ↦ cancel_own-Change env user id o s t e (ground arith)
]

set_refunded-IsSound : (o : Order) → IsSound o → IsSound (set_refunded o)
unfolding is_paid is_refunded is_cancelled
set_refunded-IsSound o g = elim (Bool-cases (is_paid o.payment_status)) [
  | inr e ↦ rw e g
  | inl e ↦ rw e (λ c. let x = g c in ground arith)
]

write_status-next :
    (env : Env) (st : RefundStatus) (provider_id v last : Option Text) (r : Refund) (s t : Store)
    → write_status env st provider_id v last r s ≡ ok t
    → t.next_order ≡ s.next_order
unfolding write_status refund_order enqueue_status enqueue_tx
write_status-next env st provider_id v last r s t h = ground arith

pub refund-Change :
    (env : Env) (json : Json) (id : ℕ) (st : RefundStatus) (provider_id : Option Text) (raw : Text)
    (last : Option Text) (s t : Store)
    → RefundRepository.update_status env json id st provider_id raw last s ≡ ok t
    → Change s t
refund-Change env json id st provider_id raw last s t h =
    let (r, e, c, v, w) = update_status-steps env json id st provider_id raw last s t h in
    let n = write_status-next env st provider_id v last r s t w in
    let (rs, os) = write_status-tables env st provider_id v last r s t w in
    elim (Bool-cases (is_succeeded st)) [
      | inr b ↦ kept (ground arith) n
      | inl b ↦
          changed r.order_id set_refunded (λ o. ground arith) (λ o e. set_refunded-IsSound o)
            (ground arith) n
    ]
