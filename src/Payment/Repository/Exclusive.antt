-- ===== src/Payment/Repository/Exclusive.antt =====
-- While an attempt is active, its order can neither be paid for again nor be cancelled.
use mathlib.Core.Path.{subst}
use plant_shop.Order.Model.{
  Order, Status, PaymentStatus, PaymentMethod, is_unpaid, can_transition, is_cancelled,
}
use plant_shop.Order.Model as OrderModel
use plant_shop.Order.Cancel.{
  blocks, payment_blocks_cancellation, cancel_own_order, cancel_own, update_status, advance, settle,
  cancel_part,
}
use plant_shop.Payment.Model.{Attempt, is_pending, is_active}
use plant_shop.Payment.Repository.{
  new_attempt, check_payable, create_attempt_for_order, set_zarinpal,
}
use plant_shop.Store.{Store, Env, find_order, modify_order}
use plant_shop.Base.{
  ℕ, ◌≡◌, ◌≢◌, inl, inr, true, false, none, some, List, [], ◌∷◌, ◌++◌, arith, ==_refl, Option-cases,
  ok,
}
use plant_shop.Base.Int.{pos, ltb_ℤ}
use plant_shop.Base.Table.{exists?-append, exists?, find_key}

-- What a created attempt says of the order, and what the transaction does to the tables.
pub record Creates (env : Env) (user id : ℕ) (s : Store) (a : Attempt) (t : Store) (o : Order)
    : Type 0 where
  pub payable : check_payable env user o s.attempts ≡ none
  pub the_attempt : a ≡ new_attempt env s.next_attempt o
  pub appended : t.attempts ≡ s.attempts ++ a ∷ []
  pub set_orders : t.orders ≡ modify_order id set_zarinpal s.orders

pub create-Creates :
    (env : Env) (user id : ℕ) (s : Store) (a : Attempt) (t : Store) (o : Order)
    → find_order id s.orders ≡ some o
    → create_attempt_for_order env user id s ≡ ok (a, t)
    → Creates env user id s a t o
unfolding create_attempt_for_order
create-Creates env user id s a t o e h = ground arith

-- A pending attempt blocks its order.
new_attempt-blocks : (env : Env) (id : ℕ) (o : Order) → blocks o.id (new_attempt env id o) ≡ true
unfolding new_attempt is_active is_pending
new_attempt-blocks env id o = ground (arith, ==_refl o.id)

pub check_payable-user :
    (env : Env) (user : ℕ) (o : Order) (attempts : List Attempt)
    → check_payable env user o attempts ≡ none
    → (o.user_id ≡ user) × (exists? (blocks o.id) attempts ≡ false)
unfolding check_payable
check_payable-user env user o attempts h = (ground arith, ground arith)

pub check_payable-order :
    (env : Env) (user : ℕ) (o : Order) (attempts : List Attempt)
    → check_payable env user o attempts ≡ none
    → (OrderModel.is_pending o.status ≡ true)
      × (is_unpaid o.payment_status ≡ true)
      × (ltb_ℤ o.total (pos 10000) ≡ false)
unfolding check_payable
check_payable-order env user o attempts h = (ground arith, ground arith, ground arith)

-- After the checkout of a payment, the order's attempts block it.
pub create-blocks :
    (env : Env) (user id : ℕ) (s : Store) (a : Attempt) (t : Store)
    → create_attempt_for_order env user id s ≡ ok (a, t)
    → exists? (blocks id) t.attempts ≡ true
unfolding create_attempt_for_order
create-blocks env user id s a t h = elim (Option-cases (find_order id s.orders)) [
  | inl n ↦ ground arith
  | inr (o, e) ↦
      let c = create-Creates env user id s a t o e h in
      let k : o.id ≡ id = find_key (λ (o : Order). o.id) id s.orders o e in
      rw (c.appended, c.the_attempt)
        (exists?-append (blocks id) s.attempts (new_attempt env s.next_attempt o) (
          subst (λ j. blocks j (new_attempt env s.next_attempt o) ≡ true) k
            (new_attempt-blocks env s.next_attempt o)))
]

-- Creating a second attempt for a blocked order fails.
pub blocked-no_attempt :
    (env : Env) (user id : ℕ) (s : Store) (r : Attempt × Store)
    → exists? (blocks id) s.attempts ≡ true
    → create_attempt_for_order env user id s ≢ ok r
unfolding create_attempt_for_order
blocked-no_attempt env user id s r b h = elim (Option-cases (find_order id s.orders)) [
  | inl n ↦ ground arith
  | inr (o, e) ↦ elim (Option-cases (check_payable env user o s.attempts)) [
    | inl n ↦
        let k : o.id ≡ id = find_key (λ (o : Order). o.id) id s.orders o e in
        let f = (check_payable-user env user o s.attempts n).1 in ground (arith, k)
    | inr (x, q) ↦ ground arith
  ]
]

-- Nor can its customer cancel a blocked order, or an administrator.
pub blocked-no_own_cancel :
    (env : Env) (user id : ℕ) (s t : Store)
    → exists? (blocks id) s.attempts ≡ true
    → cancel_own_order env user id s ≢ ok t
unfolding cancel_own_order cancel_own payment_blocks_cancellation
blocked-no_own_cancel env user id s t b h = ground arith

pub blocked-no_cancel :
    (env : Env) (id : ℕ) (s t : Store)
    → exists? (blocks id) s.attempts ≡ true
    → update_status env id Status.cancelled s ≢ ok t
unfolding update_status advance settle cancel_part payment_blocks_cancellation is_cancelled
blocked-no_cancel env id s t b h = ground arith

-- No transaction creates another attempt for the order or cancels it.
pub record Exclusive (id : ℕ) (t : Store) : Type 0 where
  pub no_attempt :
      (env : Env) (user : ℕ) (r : Attempt × Store) → create_attempt_for_order env user id t ≢ ok r
  pub no_own_cancel : (env : Env) (user : ℕ) (u : Store) → cancel_own_order env user id t ≢ ok u
  pub no_cancel : (env : Env) (u : Store) → update_status env id Status.cancelled t ≢ ok u

-- After an attempt is created for an order, in the resulting store no further attempt can be
-- created for the order, and neither its customer nor an administrator can cancel it.
pub create-Exclusive :
    (env : Env) (user id : ℕ) (s : Store) (a : Attempt) (t : Store)
    → create_attempt_for_order env user id s ≡ ok (a, t)
    → Exclusive id t
create-Exclusive env user id s a t h =
    let b = create-blocks env user id s a t h in
    record {
      no_attempt = λ e u r. blocked-no_attempt e u id t r b;
      no_own_cancel = λ e u w. blocked-no_own_cancel e u id t w b;
      no_cancel = λ e w. blocked-no_cancel e id t w b;
    }
