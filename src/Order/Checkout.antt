-- ===== src/Order/Checkout.antt =====
-- `CreateFromCart` (backend/internal/order/repository.go): an order from the user's cart, in one
-- transaction. `price` is the transaction up to the total, `place` its writes.
pub mod Amounts
pub mod Effects
use plant_shop.Order.Model.{Order, Item, Status, PaymentStatus, PaymentMethod}
use plant_shop.Order.Shipping.{fee, method_digital}
use plant_shop.Order.Input.{CheckoutInput}
use plant_shop.Order.Errors.{Error}
use plant_shop.Order.Inventory.{take_stock}
use plant_shop.Coupon.Model.{Coupon, normalize_code}
use plant_shop.Coupon.Repository.{eligible, insert_redemption}
use plant_shop.Cart.Model.{CartItem}
use plant_shop.Notification.Outbox.{Kind, notify}
use plant_shop.Store.{Store, Env, Product, Redemption, DbError, constraint, lift, find_product}
use plant_shop.Base.{
  ℕ, suc, Bool, true, false, not, ◌&&◌, ◌||◌, Option, none, some, List, [], ◌∷◌, ◌++◌, map, ltb,
  leb, ◌==◌, if◌then◌else◌, Result, ok, err, ◌>>=◌, ◌>>◌, fail_if,
}
use plant_shop.Base.Int.{ℤ, pos, ltb_ℤ, ◌+ℤ◌, ◌-ℤ◌, ◌*ℤ◌}
use plant_shop.Base.Table.{exists?, select}
use plant_shop.Text.{Text, codes, text_eq, is_empty}

-- `cartLine`, less the name and slug.
pub record Line : Type 0 where
  pub kind : Text
  pub expired : Bool
  pub product_id : ℕ
  pub price : ℕ
  pub stock : ℕ
  pub quantity : ℕ

abbrev is_expired : ℕ → Option ℕ → Bool
is_expired today none = false
is_expired today (some d) = ltb d today

abbrev pub line_of : ℕ → CartItem → Product → Line
line_of today c p = record {
  kind = p.kind;
  expired = is_expired today p.expiry_date;
  product_id = c.product_id;
  price = p.price;
  stock = p.stock;
  quantity = c.quantity;
}

-- `ORDER BY ci.product_id`.
unfoldable pub insert_line : Line → List Line → List Line
insert_line l [] = l ∷ []
insert_line l (m ∷ ls) =
    let rest = insert_line l ls in if leb l.product_id m.product_id then l ∷ m ∷ ls else m ∷ rest

abbrev add_line : ℕ → CartItem → Option Product → List Line → List Line
add_line today c none ls = ls
add_line today c (some p) ls = insert_line (line_of today c p) ls

-- The user's cart rows joined with their products.
unfoldable pub cart_lines : ℕ → ℕ → List Product → List CartItem → List Line
unfolding insert_line
cart_lines today user ps [] = []
cart_lines today user ps (c ∷ cs) =
    let rest = cart_lines today user ps cs in
    if c.user_id == user then add_line today c (find_product c.product_id ps) rest else rest

abbrev pub is_short : Line → Bool
is_short l = ltb l.stock l.quantity || l.expired

abbrev pub not_education : Line → Bool
not_education l = not (text_eq l.kind (codes "education"))

-- `l.Price * int64(l.Quantity)`.
unfoldable pub line_subtotal : Line → ℤ
line_subtotal l = pos l.price *ℤ pos l.quantity

-- `itemsSubtotal`, accumulated over the lines.
unfoldable pub items_subtotal : ℤ → List Line → ℤ
unfolding line_subtotal
items_subtotal acc [] = acc
items_subtotal acc (l ∷ ls) = items_subtotal (acc +ℤ line_subtotal l) ls

pub record Discount : Type 0 where
  pub amount : ℤ
  pub coupon : Option Coupon

-- The coupon part: an empty code is no coupon.
unfoldable pub resolve_coupon : Env → Text → ℕ → ℤ → Store → Result Error Discount
resolve_coupon env raw user subtotal s =
    let code = normalize_code raw in
    if is_empty code
    then ok (record { amount = pos 0; coupon = none })
    else elim (eligible env code user subtotal s) [
      | err r ↦ err (Error.coupon_eligibility r)
      | ok (c, d) ↦ ok (record { amount = d; coupon = some c })
    ]

pub record Priced : Type 0 where
  pub lines : List Line
  pub shipping_method : Text
  pub subtotal : ℤ
  pub discount : Discount
  pub shipping_fee : ℤ
  pub total : ℤ

abbrev is_nil {ℓ} : {A : Type ℓ} → List A → Bool
is_nil [] = true
is_nil (x ∷ xs) = false

unfoldable pub price : Env → ℕ → CheckoutInput → Store → Result Error Priced
price env user input s = do
  fail_if (not (fee env.shipping input.shipping_method (pos 0)).1) (
      Error.validation
        (record { field = "shipping_method"; message = "is not a supported shipping method" }))
  let lines = cart_lines env.today user s.products s.carts
  fail_if (is_nil lines) Error.empty_cart
  fail_if (exists? is_short lines) Error.insufficient_stock
  let all_digital = not (exists? not_education lines)
  fail_if (text_eq input.shipping_method method_digital && not all_digital) (
      Error.validation (record {
        field = "shipping_method";
        message = "digital delivery requires only education products";
      }))
  let method = (if all_digital then method_digital else input.shipping_method)
  let subtotal = items_subtotal (pos 0) lines
  d ← resolve_coupon env input.coupon_code user subtotal s
  let shipping = (fee env.shipping method (subtotal -ℤ d.amount)).0
  ok (record {
    lines = lines;
    shipping_method = method;
    subtotal = subtotal;
    discount = d;
    shipping_fee = shipping;
    total = (subtotal -ℤ d.amount) +ℤ shipping;
  })

unfoldable pub item_of : Line → Item
unfolding line_subtotal
item_of l = record {
  product_id = l.product_id;
  unit_price = pos l.price;
  quantity = l.quantity;
  subtotal = line_subtotal l;
}

-- `nullableString`.
unfoldable pub nullable_string : Text → Option Text
nullable_string [] = none
nullable_string (c ∷ s) = some (c ∷ s)

abbrev coupon_id_of : Option Coupon → Option ℕ
coupon_id_of none = none
coupon_id_of (some c) = some c.id

abbrev coupon_code_of : Option Coupon → Option Text
coupon_code_of none = none
coupon_code_of (some c) = some c.code

-- The inserted row.
unfoldable pub order_of : Env → ℕ → CheckoutInput → Priced → ℕ → Order
unfolding item_of nullable_string
order_of env user i p id = record {
  id = id;
  user_id = user;
  status = Status.pending;
  total = p.total;
  created_at = env.now;
  delivery = record {
    recipient_name = i.recipient_name;
    phone = i.phone;
    address_line1 = i.address_line1;
    address_line2 = nullable_string i.address_line2;
    city = i.city;
    postal_code = i.postal_code;
    country = i.country;
  };
  shipping_method = p.shipping_method;
  shipping_fee = p.shipping_fee;
  items_subtotal = p.subtotal;
  payment_status = PaymentStatus.pending;
  payment_method = PaymentMethod.manual;
  coupon_id = coupon_id_of p.discount.coupon;
  coupon_code = coupon_code_of p.discount.coupon;
  discount_amount = p.discount.amount;
  currency = codes "IRR";
  items = map item_of p.lines;
}

-- The CHECK constraints of orders and order_items.
unfoldable pub violates_checks : Order → Bool
violates_checks o =
    ltb_ℤ o.total (pos 0)
    || ltb_ℤ o.items_subtotal (pos 0)
    || ltb_ℤ o.shipping_fee (pos 0)
    || ltb_ℤ o.discount_amount (pos 0)
    || exists? (λ (i : Item). ltb_ℤ i.subtotal (pos 0) || i.quantity == 0) o.items

abbrev redeem : Option Coupon → ℕ → ℕ → List Redemption → Result DbError (List Redemption)
redeem none user order rs = ok rs
redeem (some c) user order rs = insert_redemption c.id user order rs

-- The tables after the writes of a checkout, before the notification.
abbrev pub placed : ℕ → Order → List Redemption → List Product → Store → Store
placed user o rs ps s = record s {
  products = ps;
  carts = select (λ (c : CartItem). not (c.user_id == user)) s.carts;
  orders = s.orders ++ o ∷ [];
  redemptions = rs;
  next_order = suc s.next_order;
}

unfoldable pub place : Env → ℕ → CheckoutInput → Priced → Store → Result Error (Order × Store)
unfolding violates_checks
place env user input p s = do
  let o = order_of env user input p s.next_order
  fail_if (violates_checks o) (Error.db constraint)
  rs ← lift Error.db (redeem p.discount.coupon user o.id s.redemptions)
  ps ← lift Error.db (take_stock o.items s.products)
  t ← lift Error.db (notify env.notifications o.id Kind.created env.now (placed user o rs ps s))
  ok (o, t)

-- `CreateFromCart`.
unfoldable pub create_from_cart : Env → ℕ → CheckoutInput → Store → Result Error (Order × Store)
create_from_cart env user input s = do p ← price env user input s; place env user input p s
