-- ===== src/Order/Conservation.antt =====
-- No unit of any product is lost or made: what the shelves and the orders that are not cancelled hold
-- together is the same before and after a checkout. The children are about the other transactions.
pub mod Cancelling
pub mod Advancing
pub mod Expiry
use plant_shop.Order.Model.{Order, Item, Status, can_transition, is_cancelled}
use plant_shop.Order.Input.{CheckoutInput}
use plant_shop.Order.Errors.{Error}
use plant_shop.Order.Inventory.{take_stock, restore_stock}
use plant_shop.Order.Inventory.Units.{
  stock_of, quantity_of, IsStocked, Keeps, IsStocked-Keeps, take_stock-Keeps, restore_stock-Keeps,
  take_stock-stock_of, restore_stock-stock_of,
}
use plant_shop.Order.Checkout.{
  Line, Priced, line_of, cart_lines, insert_line, item_of, order_of, placed, price, place,
  create_from_cart,
}
use plant_shop.Order.Cancel.{
  set_status, give_back, move, cancel_part, update_status, cancel_own_order, expire_one, expire_all,
  expire_reservations,
}
use plant_shop.Cart.Model.{CartItem}
use plant_shop.Notification.Outbox.{notify-SameButOutbox, SameButOutbox, Kind, kind_of_status}
use plant_shop.Store.{
  Store, Env, Product, Redemption, DbError, lift, lift-eq-ok, constraint, find_product, find_order,
  modify_order,
}
use plant_shop.Base.{
  ℕ, zero, suc, ◌+◌, ◌-◌, ◌*◌, ◌/◌, ◌%◌, ◌^◌, ◌≤◌, ◌<◌, min, ◌≡◌, refl, sym, ap, ◌∙◌, ◌≢◌, ◌↔◌, ◌⊎◌,
  inl, inr, Bool, true, false, not, ◌&&◌, ◌||◌, Option, none, some, List, [], ◌∷◌, ◌++◌, map, arith,
  ltb, leb, ◌==◌, if◌then◌else◌, ==_iff, ==_refl, Bool-cases, Option-cases, is_some, All, length,
  take, Result, ok, err, ◌>>=◌, ◌>>◌, fail_if, >>=-eq-ok, Result-cases,
}
use plant_shop.Base.Int.{
  ℤ, pos, negsuc, pos_part, neg_part, sub_ℕ, ◌≤ℤ◌, ltb_ℤ, leb_ℤ, i64, i64_pos, of_bits, ◌+ℤ◌, ◌-ℤ◌,
  ◌*ℤ◌, ◌/ℤ◌, +ℤ-pos, -ℤ-pos, *ℤ-pos,
}
use plant_shop.Base.Table.{
  exists?, count, select, select_one, update_where, sum_by, sum_by-append, count-append, find,
  modify, find_key, find-append_none, find-append_some, find-modify_self, find-modify-none,
  find-modify_ne, sum_by-modify, All-append, All-find, All-modify, All-select,
}
use plant_shop.Text.{
  Text, codes, byte_len, text_eq, is_empty, trim_space, parse_int, text_eq_refl, eq_of_text_eq,
  text_eq_iff,
}

-- The units of product p that an order holds: none once it is cancelled.
abbrev pub held : ℕ → Order → ℕ
held p o = if is_cancelled o.status then 0 else quantity_of p o.items

abbrev pub reserved : ℕ → List Order → ℕ
reserved p = sum_by (held p)

-- All units of product p that the shop accounts for.
abbrev pub units : ℕ → Store → ℕ
units p s = stock_of p s.products + reserved p s.orders

-- Every ordered item is of a product in the table: the foreign key of order_items.
abbrev pub Linked : List Product → List Order → Type 0
Linked ps = All (λ (o : Order). IsStocked ps o.items)

pub Linked-Keeps :
    (ps qs : List Product) (os : List Order) → Keeps ps qs → Linked ps os → Linked qs os
Linked-Keeps ps qs [] k h = tt
Linked-Keeps ps qs (o ∷ os) k h = (IsStocked-Keeps ps qs o.items k h.0, Linked-Keeps ps qs os k h.1)

abbrev IsLinked : List Product → Order → Type 0
IsLinked ps o = IsStocked ps o.items

pub Linked-set_status :
    (ps : List Product) (id : ℕ) (t : Status) (os : List Order)
    → Linked ps os
    → Linked ps (modify_order id (set_status t) os)
Linked-set_status ps id t os h =
    All-modify (IsLinked ps) (λ (o : Order). o.id) id (set_status t) os (λ o i. i) h

-- The lines of a cart are of products in the table.
abbrev LinesStocked : List Product → List Line → Type 0
LinesStocked ps = All (λ (l : Line). is_some (find_product l.product_id ps) ≡ true)

insert_line-LinesStocked :
    (ps : List Product) (l : Line) (ls : List Line)
    → is_some (find_product l.product_id ps) ≡ true
    → LinesStocked ps ls
    → LinesStocked ps (insert_line l ls)
unfolding insert_line
insert_line-LinesStocked ps l [] f h = (f, tt)
insert_line-LinesStocked ps l (m ∷ ls) f h = elim (Bool-cases (leb l.product_id m.product_id)) [
  | inl e ↦ rw e (f, h)
  | inr e ↦ rw e (h.0, insert_line-LinesStocked ps l ls f h.1)
]

cart_lines-LinesStocked :
    (today user : ℕ) (ps : List Product) (cs : List CartItem)
    → LinesStocked ps (cart_lines today user ps cs)
unfolding cart_lines
cart_lines-LinesStocked today user ps [] = tt
cart_lines-LinesStocked today user ps (c ∷ cs) =
    let ih = cart_lines-LinesStocked today user ps cs in
    elim (Bool-cases (c.user_id == user)) [
      | inr e ↦ rw e ih
      | inl e ↦ rw e (elim (Option-cases (find_product c.product_id ps)) [
        | inl n ↦ rw n ih
        | inr (p, f) ↦ rw f (
            insert_line-LinesStocked ps (line_of today c p) (cart_lines today user ps cs)
              (rw f refl) ih)
      ])
    ]

items-IsStocked :
    (ps : List Product) (ls : List Line) → LinesStocked ps ls → IsStocked ps (map item_of ls)
unfolding item_of
items-IsStocked ps [] h = tt
items-IsStocked ps (l ∷ ls) h = (h.0, items-IsStocked ps ls h.1)

price-lines :
    (env : Env) (user : ℕ) (i : CheckoutInput) (s : Store) (p : Priced)
    → price env user i s ≡ ok p
    → p.lines ≡ cart_lines env.today user s.products s.carts
unfolding price
price-lines env user i s p h = ground arith

-- What the writes of a checkout do to the tables of the products and the orders.
record Placing (env : Env) (user : ℕ) (i : CheckoutInput) (p : Priced) (s : Store) (o : Order)
    (t : Store) : Type 0 where
  the_order : o ≡ order_of env user i p s.next_order
  taken : take_stock (map item_of p.lines) s.products ≡ ok t.products
  appended : t.orders ≡ s.orders ++ o ∷ []

place-Placing :
    (env : Env) (user : ℕ) (i : CheckoutInput) (p : Priced) (s : Store) (o : Order) (t : Store)
    → place env user i p s ≡ ok (o, t)
    → Placing env user i p s o t
unfolding place order_of
place-Placing env user i p s o t h = grind (arith, notify-SameButOutbox)

order_of-held :
    (env : Env) (user : ℕ) (i : CheckoutInput) (p : Priced) (id j : ℕ)
    → held j (order_of env user i p id) ≡ quantity_of j (map item_of p.lines)
unfolding order_of is_cancelled
order_of-held env user i p id j = refl

place-units :
    (env : Env) (user : ℕ) (i : CheckoutInput) (p : Priced) (s t : Store) (o : Order) (j : ℕ)
    → IsStocked s.products (map item_of p.lines)
    → Placing env user i p s o t
    → units j t ≡ units j s
place-units env user i p s t o j f w =
    let taken = take_stock-stock_of (map item_of p.lines) j s.products t.products f w.taken in
    let grown = sum_by-append (held j) s.orders (o ∷ []) in
    let orders = ap (reserved j) w.appended in
    let mine = ap (held j) w.the_order ∙ order_of-held env user i p s.next_order j in omega arith

lines-IsStocked :
    (env : Env) (user : ℕ) (i : CheckoutInput) (s : Store) (p : Priced)
    → price env user i s ≡ ok p
    → IsStocked s.products (map item_of p.lines)
lines-IsStocked env user i s p h = rw (price-lines env user i s p h) (
    items-IsStocked s.products (cart_lines env.today user s.products s.carts)
      (cart_lines-LinesStocked env.today user s.products s.carts))

-- A checkout that succeeds leaves, for every product, the units on the shelf and the units held by
-- orders that are not cancelled together as many as before.
pub create_from_cart-units :
    (env : Env) (user : ℕ) (i : CheckoutInput) (s t : Store) (o : Order) (j : ℕ)
    → create_from_cart env user i s ≡ ok (o, t)
    → units j t ≡ units j s
unfolding create_from_cart
create_from_cart-units env user i s t o j h =
    let (p, priced, written) = >>=-eq-ok (price env user i s) (λ p. place env user i p s) h in
    place-units env user i p s t o j (lines-IsStocked env user i s p priced)
      (place-Placing env user i p s o t written)

-- A checkout keeps the foreign key.
pub create_from_cart-Linked :
    (env : Env) (user : ℕ) (i : CheckoutInput) (s t : Store) (o : Order)
    → create_from_cart env user i s ≡ ok (o, t)
    → Linked s.products s.orders
    → Linked t.products t.orders
unfolding create_from_cart order_of
create_from_cart-Linked env user i s t o h l =
    let (p, priced, written) = >>=-eq-ok (price env user i s) (λ p. place env user i p s) h in
    let w = place-Placing env user i p s o t written in
    let kept = take_stock-Keeps (map item_of p.lines) s.products t.products w.taken in
    rw (w.appended, w.the_order)
      (All-append (IsLinked t.products) s.orders (order_of env user i p s.next_order ∷ [])
        (Linked-Keeps s.products t.products s.orders kept l)
        (
          IsStocked-Keeps s.products t.products (map item_of p.lines) kept
              (lines-IsStocked env user i s p priced),
          tt,
        ))
