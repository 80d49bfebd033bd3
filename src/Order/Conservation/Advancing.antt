-- ===== src/Order/Conservation/Advancing.antt =====
-- The conservation of units by status changes, and by the cancellations of an admin or a customer.
use plant_shop.Order.Model.{Order, Status, can_transition, is_cancelled}
use plant_shop.Order.Errors.{Error}
use plant_shop.Order.Inventory.Units.{stock_of}
use plant_shop.Order.Cancel.{
  set_status, give_back, move, update_status, settle, advance, cancel_own, cancel_own_order,
}
use plant_shop.Store.{Store, Env, lift, lift-eq-ok, find_order}
use plant_shop.Base.{
  ℕ, ◌≡◌, ap, inl, inr, true, false, some, arith, Bool-cases, Option-cases, ok, ◌>>=◌, >>=-eq-ok,
}
use mathlib.Core.Path.{subst}
use plant_shop.Order.Conservation.{reserved, units, Linked, Linked-set_status}
use plant_shop.Order.Conservation.Cancelling.{
  Conserves, Moved, give_back-GivenBack, move-Moved, Cancelling-Conserves, set_status-reserved,
  live-held,
}

leaves-live : (a b : Status) → can_transition a b ≡ true → is_cancelled a ≡ false
unfolding can_transition is_cancelled
leaves-live a b h = ground arith

-- What a transition that succeeded has checked and done.
record Advanced (env : Env) (id : ℕ) (st : Status) (o : Order) (s t : Store) : Type 0 where
  allowed : can_transition o.status st ≡ true
  written : (settle id st o s >>= λ u. lift Error.db (move env id st u)) ≡ ok t

advance-Advanced :
    (env : Env) (id : ℕ) (st : Status) (o : Order) (s t : Store)
    → advance env id st o s ≡ ok t
    → Advanced env id st o s t
unfolding advance
advance-Advanced env id st o s t h = ground arith

settle-cancelled :
    (id : ℕ) (o : Order) (s u : Store) (st : Status)
    → is_cancelled st ≡ true
    → settle id st o s ≡ ok u
    → give_back id s ≡ ok u
unfolding settle
settle-cancelled id o s u st c h = ground arith

settle-other :
    (id : ℕ) (o : Order) (s u : Store) (st : Status)
    → is_cancelled st ≡ false
    → settle id st o s ≡ ok u
    → u ≡ s
unfolding settle
settle-other id o s u st c h = ground arith

is_cancelled-eq : (st : Status) → is_cancelled st ≡ true → st ≡ Status.cancelled
unfolding is_cancelled
is_cancelled-eq st h = ground arith

-- A transition to another status than cancelled.
moving-units :
    (id : ℕ) (st : Status) (o : Order) (s t : Store) (j : ℕ)
    → find_order id s.orders ≡ some o
    → is_cancelled o.status ≡ false
    → is_cancelled st ≡ false
    → Moved id st s t
    → units j t ≡ units j s
moving-units id st o s t j e a b m =
    let same = set_status-reserved id j st s.orders o e in
    let shelf = ap (stock_of j) m.same_products in
    let orders = ap (reserved j) m.set_orders in
    omega (arith, live-held j o a, live-held j (set_status st o) b)

moving-Linked :
    (id : ℕ) (st : Status) (s t : Store)
    → Linked s.products s.orders
    → Moved id st s t
    → Linked t.products t.orders
moving-Linked id st s t l m =
    rw (m.same_products, m.set_orders) (Linked-set_status s.products id st s.orders l)

advance-Conserves :
    (env : Env) (id : ℕ) (st : Status) (o : Order) (s t : Store)
    → Linked s.products s.orders
    → find_order id s.orders ≡ some o
    → advance env id st o s ≡ ok t
    → Conserves s t
advance-Conserves env id st o s t l e h =
    let a = advance-Advanced env id st o s t h in
    let live = leaves-live o.status st a.allowed in
    let (u, settled, moved) =
      >>=-eq-ok (settle id st o s) (λ u. lift Error.db (move env id st u)) a.written in
    let m = move-Moved env id st u t (lift-eq-ok Error.db (move env id st u) moved) in
    elim (Bool-cases (is_cancelled st)) [
      | inl c ↦
          let g = give_back-GivenBack id s u (settle-cancelled id o s u st c settled) in
          Cancelling-Conserves id o s u t l (record {
            is_found = e;
            is_live = live;
            given = g;
            moved = subst (λ x. Moved id x u t) (is_cancelled-eq st c) m;
          })
      | inr c ↦
          let n = subst (λ x. Moved id st x t) (settle-other id o s u st c settled) m in
          record {
            same_units = λ j. moving-units id st o s t j e live c n;
            still_linked = moving-Linked id st s t l n;
          }
    ]

-- A status change by an administrator that succeeds, a cancellation included, conserves the units
-- of every product and keeps every ordered item a product of the table, if every ordered item was
-- one before.
pub update_status-Conserves :
    (env : Env) (id : ℕ) (st : Status) (s t : Store)
    → Linked s.products s.orders
    → update_status env id st s ≡ ok t
    → Conserves s t
unfolding update_status
update_status-Conserves env id st s t l h = elim (Option-cases (find_order id s.orders)) [
  | inl n ↦ absurd (ground arith)
  | inr (o, e) ↦ advance-Conserves env id st o s t l e (ground arith)
]

record Cancelled (env : Env) (id : ℕ) (o : Order) (s t : Store) : Type 0 where
  allowed : can_transition o.status Status.cancelled ≡ true
  written :
      (lift Error.db (give_back id s) >>= λ u. lift Error.db (move env id Status.cancelled u))
      ≡ ok t

cancel_own-Cancelled :
    (env : Env) (user id : ℕ) (o : Order) (s t : Store)
    → cancel_own env user id o s ≡ ok t
    → Cancelled env id o s t
unfolding cancel_own
cancel_own-Cancelled env user id o s t h = ground arith

cancel_own-Conserves :
    (env : Env) (user id : ℕ) (o : Order) (s t : Store)
    → Linked s.products s.orders
    → find_order id s.orders ≡ some o
    → cancel_own env user id o s ≡ ok t
    → Conserves s t
cancel_own-Conserves env user id o s t l e h =
    let a = cancel_own-Cancelled env user id o s t h in
    let (u, given, moved) =
      >>=-eq-ok (lift Error.db (give_back id s))
        (λ u. lift Error.db (move env id Status.cancelled u)) a.written in
    Cancelling-Conserves id o s u t l (record {
      is_found = e;
      is_live = leaves-live o.status Status.cancelled a.allowed;
      given = give_back-GivenBack id s u (lift-eq-ok Error.db (give_back id s) given);
      moved =
          move-Moved env id Status.cancelled u t
            (lift-eq-ok Error.db (move env id Status.cancelled u) moved);
    })

-- A cancellation by the customer that succeeds conserves the units of every product and keeps
-- every ordered item a product of the table, if every ordered item was one before.
pub cancel_own_order-Conserves :
    (env : Env) (user id : ℕ) (s t : Store)
    → Linked s.products s.orders
    → cancel_own_order env user id s ≡ ok t
    → Conserves s t
unfolding cancel_own_order
cancel_own_order-Conserves env user id s t l h = elim (Option-cases (find_order id s.orders)) [
  | inl n ↦ absurd (ground arith)
  | inr (o, e) ↦ cancel_own-Conserves env user id o s t l e (ground arith)
]
