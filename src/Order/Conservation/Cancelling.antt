-- ===== src/Order/Conservation/Cancelling.antt =====
-- The conservation of units by status changes, cancellations and expiries.
use plant_shop.Order.Model.{Order, Status, is_cancelled}
use plant_shop.Order.Inventory.{restore_stock}
use plant_shop.Order.Inventory.Units.{
  stock_of, quantity_of, restore_stock-Keeps, restore_stock-stock_of,
}
use plant_shop.Order.Cancel.{set_status, give_back, move}
use plant_shop.Notification.Outbox.{notify-SameButOutbox}
use plant_shop.Store.{Store, Env, find_order, modify_order}
use plant_shop.Base.{ℕ, ◌+◌, ◌≡◌, refl, ap, ◌∙◌, false, some, List, arith, ok}
use plant_shop.Base.Table.{sum_by-modify, All-find}
use plant_shop.Order.Cancel.{items_of}
use plant_shop.Order.Conservation.{
  held, reserved, units, Linked, IsLinked, Linked-Keeps, Linked-set_status,
}

-- Setting an order's status.
pub set_status-reserved :
    (id j : ℕ) (st : Status) (os : List Order) (o : Order)
    → find_order id os ≡ some o
    → reserved j (modify_order id (set_status st) os) + held j o
      ≡ reserved j os + held j (set_status st o)
set_status-reserved id j st os o e =
    sum_by-modify (λ (o : Order). o.id) (held j) id (set_status st) os o e

-- What giving back an order's stock does to the tables.
pub record GivenBack (id : ℕ) (s t : Store) : Type 0 where
  pub restored : restore_stock (items_of id s.orders) s.products ≡ ok t.products
  pub same_orders : t.orders ≡ s.orders

pub give_back-GivenBack : (id : ℕ) (s t : Store) → give_back id s ≡ ok t → GivenBack id s t
unfolding give_back
give_back-GivenBack id s t h = ground arith

pub record Moved (id : ℕ) (st : Status) (s t : Store) : Type 0 where
  pub same_products : t.products ≡ s.products
  pub set_orders : t.orders ≡ modify_order id (set_status st) s.orders

pub move-Moved :
    (env : Env) (id : ℕ) (st : Status) (s t : Store) → move env id st s ≡ ok t → Moved id st s t
unfolding move
move-Moved env id st s t h = grind (arith, notify-SameButOutbox)

-- Giving back and marking an order that is not cancelled.
pub record Cancelling (id : ℕ) (o : Order) (s u t : Store) : Type 0 where
  pub is_found : find_order id s.orders ≡ some o
  pub is_live : is_cancelled o.status ≡ false
  pub given : GivenBack id s u
  pub moved : Moved id Status.cancelled u t

pub live-held :
    (j : ℕ) (o : Order) → is_cancelled o.status ≡ false → held j o ≡ quantity_of j o.items
live-held j o h = rw h refl

items_of-found :
    (id : ℕ) (os : List Order) (o : Order) → find_order id os ≡ some o → items_of id os ≡ o.items
unfolding items_of
items_of-found id os o e = rw (e, items_of) refl

cancelled-held : (j : ℕ) (o : Order) → held j (set_status Status.cancelled o) ≡ 0
unfolding is_cancelled
cancelled-held j o = refl

Cancelling-restored :
    (id : ℕ) (o : Order) (s u t : Store)
    → Cancelling id o s u t
    → restore_stock o.items s.products ≡ ok u.products
Cancelling-restored id o s u t c = rw (← items_of-found id s.orders o c.is_found) (c.given.restored)

Cancelling-units :
    (id : ℕ) (o : Order) (s u t : Store) (j : ℕ)
    → Linked s.products s.orders
    → Cancelling id o s u t
    → units j t ≡ units j s
Cancelling-units id o s u t j l c =
    let linked = All-find (IsLinked s.products) (λ (o : Order). o.id) id s.orders o l c.is_found in
    let back =
      restore_stock-stock_of o.items j s.products u.products linked
        (Cancelling-restored id o s u t c) in
    let less = set_status-reserved id j Status.cancelled s.orders o c.is_found in
    let shelf = ap (stock_of j) c.moved.same_products in
    let orders =
      ap (reserved j) c.moved.set_orders
      ∙ ap (λ os. reserved j (modify_order id (set_status Status.cancelled) os))
          c.given.same_orders in
    omega (arith, live-held j o c.is_live, cancelled-held j o)

Cancelling-Linked :
    (id : ℕ) (o : Order) (s u t : Store)
    → Linked s.products s.orders
    → Cancelling id o s u t
    → Linked t.products t.orders
Cancelling-Linked id o s u t l c =
    let kept =
      restore_stock-Keeps o.items s.products u.products (Cancelling-restored id o s u t c) in
    rw (c.moved.same_products, c.moved.set_orders, c.given.same_orders)
      (Linked-set_status u.products id Status.cancelled s.orders
        (Linked-Keeps s.products u.products s.orders kept l))

-- Conservation with the foreign key, as one fact about a transaction.
pub record Conserves (s t : Store) : Type 0 where
  pub same_units : (j : ℕ) → units j t ≡ units j s
  pub still_linked : Linked t.products t.orders

pub Cancelling-Conserves :
    (id : ℕ) (o : Order) (s u t : Store)
    → Linked s.products s.orders
    → Cancelling id o s u t
    → Conserves s t
Cancelling-Conserves id o s u t l c = record {
  same_units = λ j. Cancelling-units id o s u t j l c;
  still_linked = Cancelling-Linked id o s u t l c;
}
