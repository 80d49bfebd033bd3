-- ===== src/Order/Checkout/Effects.antt =====
-- What a checkout does beside the stock: the cart, the order's row and the coupon's limits.
use plant_shop.Order.Model.{Order, Status, PaymentStatus}
use plant_shop.Order.Input.{CheckoutInput}
use plant_shop.Order.Errors.{Error}
use plant_shop.Order.Checkout.{
  Discount, Priced, resolve_coupon, price, place, order_of, create_from_cart,
}
use plant_shop.Coupon.Model.{Coupon, normalize_code}
use plant_shop.Coupon.Repository.{eligible, insert_redemption}
use plant_shop.Coupon.Repository.Limits.{
  LimitsHold, Keyed, Passed, eligible-Passed, insert_redemption-LimitsHold,
}
use plant_shop.Base.Keys.{Below, Below-none}
use plant_shop.Cart.Model.{CartItem}
use plant_shop.Notification.Outbox.{notify-SameButOutbox}
use plant_shop.Store.{Store, Env, find_order}
use plant_shop.Base.{
  ℕ, suc, ◌≡◌, ap, inl, inr, Bool, true, false, not, none, some, List, [], ◌∷◌, ◌++◌, arith, ◌==◌,
  if◌then◌else◌, Option-cases, ok, err, >>=-eq-ok, Result-cases,
}
use plant_shop.Base.Int.{ℤ, pos}
use plant_shop.Base.Table.{count, select, find-append_none}
use plant_shop.Text.{Text, is_empty}

-- The writes of `place`, table by table.
record Placed (env : Env) (user : ℕ) (i : CheckoutInput) (p : Priced) (s : Store) (o : Order)
    (t : Store) : Type 0 where
  the_order : o ≡ order_of env user i p s.next_order
  carts : t.carts ≡ select (λ (c : CartItem). not (c.user_id == user)) s.carts
  orders : t.orders ≡ s.orders ++ o ∷ []
  coupons : t.coupons ≡ s.coupons
  attempts : t.attempts ≡ s.attempts
  sequence : t.next_order ≡ suc s.next_order

place-Placed :
    (env : Env) (user : ℕ) (i : CheckoutInput) (p : Priced) (s : Store) (o : Order) (t : Store)
    → place env user i p s ≡ ok (o, t)
    → Placed env user i p s o t
unfolding place
place-Placed env user i p s o t h = grind (arith, notify-SameButOutbox)

resolved-Passed :
    (env : Env) (code : Text) (user : ℕ) (subtotal : ℤ) (s : Store) (d : Discount) (c : Coupon)
    (b : Bool)
    → (if b
        then ok (record { amount = pos 0; coupon = none })
        else elim (eligible env code user subtotal s) [
          | err r ↦ err (Error.coupon_eligibility r)
          | ok (c, d) ↦ ok (record { amount = d; coupon = some c })
        ])
      ≡ ok d
    → d.coupon ≡ some c
    → Passed env code user s c
resolved-Passed env code user subtotal s d c true h e = ground arith
resolved-Passed env code user subtotal s d c false h e =
    elim (Result-cases (eligible env code user subtotal s)) [
      | inl ((c', x), q) ↦ eligible-Passed env code user subtotal x s c (ground arith)
      | inr (r, q) ↦ ground arith
    ]

resolve_coupon-Passed :
    (env : Env) (raw : Text) (user : ℕ) (subtotal : ℤ) (s : Store) (d : Discount) (c : Coupon)
    → resolve_coupon env raw user subtotal s ≡ ok d
    → d.coupon ≡ some c
    → Passed env (normalize_code raw) user s c
unfolding resolve_coupon
resolve_coupon-Passed env raw user subtotal s d c h e =
    resolved-Passed env (normalize_code raw) user subtotal s d c (is_empty (normalize_code raw)) h e

price-discount :
    (env : Env) (user : ℕ) (i : CheckoutInput) (s : Store) (p : Priced)
    → price env user i s ≡ ok p
    → resolve_coupon env i.coupon_code user p.subtotal s ≡ ok p.discount
unfolding price
price-discount env user i s p h = ground arith

-- The redemptions after a checkout: those before, or one more of the order's coupon.
place-no_coupon :
    (env : Env) (user : ℕ) (i : CheckoutInput) (p : Priced) (s : Store) (o : Order) (t : Store)
    → p.discount.coupon ≡ none
    → place env user i p s ≡ ok (o, t)
    → t.redemptions ≡ s.redemptions
unfolding place
place-no_coupon env user i p s o t n h = grind (arith, notify-SameButOutbox)

place-coupon :
    (env : Env) (user : ℕ) (i : CheckoutInput) (p : Priced) (s : Store) (o : Order) (t : Store)
    (c : Coupon)
    → p.discount.coupon ≡ some c
    → place env user i p s ≡ ok (o, t)
    → insert_redemption c.id user s.next_order s.redemptions ≡ ok t.redemptions
unfolding place order_of
place-coupon env user i p s o t c n h = grind (arith, notify-SameButOutbox)

-- If coupon ids are distinct and no coupon is used more often than its limits permit, in all or by
-- any user, the same holds after a checkout that succeeds.
pub create_from_cart-LimitsHold :
    (env : Env) (user : ℕ) (i : CheckoutInput) (s t : Store) (o : Order)
    → Keyed s.coupons
    → LimitsHold s.coupons s.redemptions
    → create_from_cart env user i s ≡ ok (o, t)
    → LimitsHold t.coupons t.redemptions
unfolding create_from_cart
create_from_cart-LimitsHold env user i s t o k l h =
    let (p, priced, written) = >>=-eq-ok (price env user i s) (λ p. place env user i p s) h in
    let w = place-Placed env user i p s o t written in
    rw w.coupons (elim (Option-cases p.discount.coupon) [
      | inl n ↦ rw (place-no_coupon env user i p s o t n written) l
      | inr (c, e) ↦
          insert_redemption-LimitsHold env (normalize_code i.coupon_code) user s.next_order s c
            t.redemptions k
            (resolve_coupon-Passed env i.coupon_code user p.subtotal s p.discount c
              (price-discount env user i s p priced) e)
            l (place-coupon env user i p s o t c e written)
    ])

-- The cart rows of a user.
abbrev pub of_user : ℕ → CartItem → Bool
of_user v i = i.user_id == v

-- The new order is found, is the user's and is open and unpaid; the user's cart is empty, and the
-- carts of the others are as they were.
pub record IsNew (user : ℕ) (s t : Store) (o : Order) : Type 0 where
  pub stored : find_order s.next_order t.orders ≡ some o
  pub owner : o.user_id ≡ user
  pub waiting : o.status ≡ Status.pending
  pub unpaid : o.payment_status ≡ PaymentStatus.pending
  pub cart_sizes :
      (v : ℕ) → count (of_user v) t.carts ≡ (if v == user then 0 else count (of_user v) s.carts)

cart_sizes_after :
    (user v : ℕ) (cs : List CartItem)
    → count (of_user v) (select (λ (c : CartItem). not (c.user_id == user)) cs)
      ≡ (if v == user then 0 else count (of_user v) cs)
cart_sizes_after user v [] = ground arith
cart_sizes_after user v (c ∷ cs) = ground (arith, cart_sizes_after user v cs)

-- If the ids of all orders are below the next one, a checkout that succeeds stores the order that
-- it returns under the next id, as the user's, pending and unpaid, and it empties the user's cart
-- and no other.
pub create_from_cart-IsNew :
    (env : Env) (user : ℕ) (i : CheckoutInput) (s t : Store) (o : Order)
    → Below (λ (o : Order). o.id) s.next_order s.orders
    → create_from_cart env user i s ≡ ok (o, t)
    → IsNew user s t o
unfolding create_from_cart order_of
create_from_cart-IsNew env user i s t o fresh h =
    let (p, priced, written) = >>=-eq-ok (price env user i s) (λ p. place env user i p s) h in
    let w = place-Placed env user i p s o t written in
    let e = w.the_order in
    let key = λ (o : Order). o.id in
    record {
      stored =
          rw
            (
              w.orders,
              find-append_none key s.next_order s.orders (o ∷ [])
                  (Below-none key s.next_order s.orders fresh),
            )
            (ground arith);
      owner = ap (λ (o : Order). o.user_id) e;
      waiting = ap (λ (o : Order). o.status) e;
      unpaid = ap (λ (o : Order). o.payment_status) e;
      cart_sizes = λ v. rw w.carts (cart_sizes_after user v s.carts);
    }
