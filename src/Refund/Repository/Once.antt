-- ===== src/Refund/Repository/Once.antt =====
-- A refund is created for a paid order and a positive amount, and pays out at most once.
use mathlib.Core.Path.{subst}
use plant_shop.Order.Model.{Order, PaymentMethod, PaymentStatus, is_paid, is_cancelled}
use plant_shop.Refund.Model.{Refund, RefundStatus, can_transition, is_succeeded}
use plant_shop.Notification.Outbox.{enqueue_tx}
use plant_shop.Refund.Repository.{
  Json, find_refund, modify_refund, check_eligibility, new_refund, refund_of, violates_constraints,
  create, read_response, set_refund, set_refunded, refund_order, enqueue_status, write_status,
  update_status,
}
use plant_shop.Store.{Store, Env, find_order, modify_order}
use plant_shop.Base.{
  ℕ, ◌≡◌, refl, sym, ◌∙◌, ◌≢◌, ◌⊎◌, Bool-cases, inl, inr, true, false, Option, some, [], ◌∷◌, ◌++◌,
  arith, if◌then◌else◌, Option-cases, ok, Result-cases,
}
use plant_shop.Base.Int.{ℤ, pos, leb_ℤ}
use plant_shop.Base.Table.{exists?, find_key, find-modify_self}
use plant_shop.Text.{Text}

-- What a created refund says of the store.
pub record Creates (order : ℕ) (amount : ℤ) (s : Store) (r : Refund) (t : Store) : Type 0 where
  pub the_order : Order
  pub found : find_order order s.orders ≡ some the_order
  pub paid : is_paid the_order.payment_status ≡ true
  pub not_cancelled : is_cancelled the_order.status ≡ false
  pub positive : leb_ℤ amount (pos 0) ≡ false
  pub first : exists? (refund_of order) s.refunds ≡ false
  pub appended : t.refunds ≡ s.refunds ++ r ∷ []
  pub same_orders : t.orders ≡ s.orders

-- A refund is created only for an order in the store that is paid and not cancelled, only with a
-- positive amount and only if the order has no refund yet; it is then added to the refunds, and
-- the orders are left as they are.
pub create-Creates :
    (order : ℕ) (return_id : Option ℕ) (amount : ℤ) (method : PaymentMethod) (admin : Option ℕ)
    (s : Store) (r : Refund) (t : Store)
    → create order return_id amount method admin s ≡ ok (r, t)
    → Creates order amount s r t
unfolding create check_eligibility violates_constraints new_refund
create-Creates order return_id amount method admin s r t h =
    elim (Option-cases (find_order order s.orders)) [
      | inl n ↦ ground arith
      | inr (o, e) ↦ record {
        the_order = o;
        found = e;
        paid = ground arith;
        not_cancelled = ground arith;
        positive = ground arith;
        first = ground arith;
        appended = ground arith;
        same_orders = ground arith;
      }
    ]

-- Notifications aside, what the writes of `UpdateStatus` are.
pub write_status-tables :
    (env : Env) (st : RefundStatus) (provider_id v last : Option Text) (r : Refund) (s t : Store)
    → write_status env st provider_id v last r s ≡ ok t
    → (t.refunds ≡ modify_refund r.id (set_refund st provider_id v last) s.refunds)
      × (t.orders
          ≡ (if is_succeeded st then modify_order r.order_id set_refunded s.orders else s.orders))
unfolding write_status refund_order enqueue_status enqueue_tx
write_status-tables env st provider_id v last r s t h = (ground arith, ground arith)

-- A successful `UpdateStatus`.
pub record Moves (id : ℕ) (st : RefundStatus) (s t : Store) : Type 0 where
  pub refund : Refund
  pub found : find_refund id s.refunds ≡ some refund
  pub allowed : can_transition refund.status st ≡ true
  pub response : Option Text
  pub provider_id : Option Text
  pub last : Option Text
  pub refunds : t.refunds ≡ modify_refund id (set_refund st provider_id response last) s.refunds
  pub orders :
      t.orders
      ≡ (if is_succeeded st then modify_order refund.order_id set_refunded s.orders else s.orders)

pub update_status-steps :
    (env : Env) (json : Json) (id : ℕ) (st : RefundStatus) (provider_id : Option Text) (raw : Text)
    (last : Option Text) (s t : Store)
    → update_status env json id st provider_id raw last s ≡ ok t
    → (r : Refund) × (find_refund id s.refunds ≡ some r)
      × (can_transition r.status st ≡ true)
      × (v : Option Text) × (write_status env st provider_id v last r s ≡ ok t)
unfolding update_status
update_status-steps env json id st provider_id raw last s t h =
    elim (Option-cases (find_refund id s.refunds)) [
      | inl n ↦ ground arith
      | inr (r, e) ↦ elim (Result-cases (read_response json raw)) [
        | inl (v, q) ↦ (r, e, ground arith, v, ground arith)
        | inr (x, q) ↦ ground arith
      ]
    ]

pub update_status-Moves :
    (env : Env) (json : Json) (id : ℕ) (st : RefundStatus) (provider_id : Option Text) (raw : Text)
    (last : Option Text) (s t : Store)
    → update_status env json id st provider_id raw last s ≡ ok t
    → Moves id st s t
update_status-Moves env json id st provider_id raw last s t h =
    let (r, e, c, v, w) = update_status-steps env json id st provider_id raw last s t h in
    let (rs, os) = write_status-tables env st provider_id v last r s t w in
    record {
      refund = r;
      found = e;
      allowed = c;
      response = v;
      provider_id = provider_id;
      last = last;
      refunds = rw (sym (find_key (λ (r : Refund). r.id) id s.refunds r e)) rs;
      orders = os;
    }

succeeded-final : (st : RefundStatus) → can_transition RefundStatus.succeeded st ≡ false
unfolding can_transition
succeeded-final st = refl

-- After a refund has been moved to succeeded, no call moves it to any status again.
pub succeeded_once :
    (env env' : Env) (json : Json) (id : ℕ) (st : RefundStatus)
    (provider_id provider_id' : Option Text) (raw raw' : Text) (last last' : Option Text)
    (s t u : Store)
    → update_status env json id RefundStatus.succeeded provider_id raw last s ≡ ok t
    → update_status env' json id st provider_id' raw' last' t ≢ ok u
succeeded_once env env' json id st provider_id provider_id' raw raw' last last' s t u h k =
    let m = update_status-Moves env json id RefundStatus.succeeded provider_id raw last s t h in
    let n = update_status-Moves env' json id st provider_id' raw' last' t u k in
    let key = λ (r : Refund). r.id in
    let f = set_refund RefundStatus.succeeded m.provider_id m.response m.last in
    let found : find_refund id t.refunds ≡ some (f m.refund) = rw m.refunds (
      find-modify_self key id f s.refunds m.refund (find_key key id s.refunds m.refund m.found)
        m.found) in
    let e = n.found in let c = n.allowed in let no = succeeded-final st in ground arith

set_refunded-id : (o : Order) → (set_refunded o).id ≡ o.id
set_refunded-id o = ground arith

-- When a refund is moved to succeeded without an error, the order that it is for is afterwards the
-- same but refunded if it was paid, and exactly as it was if it was not.
pub succeeded-refunds_order :
    (env : Env) (json : Json) (id : ℕ) (provider_id : Option Text) (raw : Text) (last : Option Text)
    (s t : Store) (r : Refund) (o : Order)
    → update_status env json id RefundStatus.succeeded provider_id raw last s ≡ ok t
    → find_refund id s.refunds ≡ some r
    → find_order r.order_id s.orders ≡ some o
    → ((is_paid o.payment_status ≡ true)
        × (find_order r.order_id t.orders
            ≡ some (record o { payment_status = PaymentStatus.refunded })))
      ⊎ ((is_paid o.payment_status ≡ false) × (find_order r.order_id t.orders ≡ some o))
succeeded-refunds_order env json id provider_id raw last s t r o h e f =
    let m = update_status-Moves env json id RefundStatus.succeeded provider_id raw last s t h in
    let key = λ (o : Order). o.id in
    let k = find_key key r.order_id s.orders o f in
    let found = m.found in
    let same : m.refund ≡ r = ground arith in
    let os : t.orders ≡ modify_order r.order_id set_refunded s.orders =
      subst (λ (r : Refund). t.orders ≡ modify_order r.order_id set_refunded s.orders) same
        m.orders in
    let now : find_order r.order_id t.orders ≡ some (set_refunded o) =
      rw os (find-modify_self key r.order_id set_refunded s.orders o (set_refunded-id o ∙ k) f) in
    elim (Bool-cases (is_paid o.payment_status)) [
      | inl p ↦ inl (p, ground arith)
      | inr p ↦ inr (p, ground arith)
    ]

-- A refund that is moved without an error to a status other than succeeded leaves all orders as
-- they are.
pub other-keeps_orders :
    (env : Env) (json : Json) (id : ℕ) (st : RefundStatus) (provider_id : Option Text) (raw : Text)
    (last : Option Text) (s t : Store)
    → is_succeeded st ≡ false
    → update_status env json id st provider_id raw last s ≡ ok t
    → t.orders ≡ s.orders
other-keeps_orders env json id st provider_id raw last s t n h =
    let m = update_status-Moves env json id st provider_id raw last s t h in
    let os = m.orders in ground arith
