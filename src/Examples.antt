-- ===== src/Examples.antt =====
-- One shop in which each theorem is applied: two products, a coupon, and a customer who checks out,
-- pays, receives the order, returns it and gets the money back.
pub mod Addresses
pub mod Carts
pub mod Gateway
pub mod Orders
pub mod Outbox
pub mod Payments
pub mod Refunding
pub mod Refunds
pub mod Rules
use plant_shop.Order.Input.{CheckoutInput}
use plant_shop.Order.Shipping.{ShippingConfig}
use plant_shop.Coupon.Model.{Coupon, DiscountType}
use plant_shop.Store.{Store, Env, Product}
use plant_shop.Base.{
  map, leb, ◌&&◌, ◌-◌, if◌then◌else◌, ◌≡◌, refl, Bool, false, ℕ, true, none, some, [], ◌∷◌, Result,
  ok, err,
}
use plant_shop.Base.Int.{pos}
use plant_shop.Text.{codes}

abbrev pub shop_shipping : ShippingConfig
shop_shipping = record {
  standard = pos 500;
  express = pos 1500;
  free_threshold = pos 0;
  configured = true;
  payments_enabled = true;
}

-- UPPER on the letters a to z.
abbrev upper_rune : ℕ → ℕ
upper_rune c = if leb 97 c && leb c 122 then c - 32 else c

abbrev pub shop : Env
shop = record {
  shipping = shop_shipping;
  notifications = true;
  environment = codes "test";
  identity = codes "test";
  now = 1000;
  today = 10;
  upper = map upper_rune;
}

abbrev pub fern : Product
fern = record {
  id = 1;
  name = codes "fern";
  price = 20000;
  stock = 5;
  kind = codes "plant";
  expiry_date = none;
}

abbrev pub pot : Product
pot = record {
  id = 2;
  name = codes "pot";
  price = 5000;
  stock = 3;
  kind = codes "pot";
  expiry_date = none;
}

abbrev pub save_ten : Coupon
save_ten = record {
  id = 1;
  code = codes "SAVE10";
  discount_type = DiscountType.percent;
  value = pos 10;
  min_order_amount = pos 0;
  usage_limit = some (pos 1);
  per_user_limit = some (pos 1);
  starts_at = none;
  ends_at = none;
  is_active = true;
}

abbrev pub opened : Store
opened = record {
  products = fern ∷ pot ∷ [];
  carts =
      record { id = 1; user_id = 7; product_id = 2; quantity = 1 }
      ∷ record { id = 2; user_id = 7; product_id = 1; quantity = 2 }
      ∷ record { id = 3; user_id = 8; product_id = 1; quantity = 1 }
      ∷ [];
  batches = [];
  orders = [];
  coupons = save_ten ∷ [];
  redemptions = [];
  attempts = [];
  events = [];
  returns = [];
  refunds = [];
  outbox = [];
  next_cart = 4;
  next_order = 1;
  next_coupon = 2;
  next_attempt = 1;
  next_return = 1;
  next_refund = 1;
  next_notification = 1;
}

abbrev pub checkout : CheckoutInput
checkout = record {
  recipient_name = codes "Ada";
  phone = codes "0912";
  address_line1 = codes "Main 1";
  address_line2 = [];
  city = codes "Shiraz";
  postal_code = codes "71";
  country = codes "Iran";
  shipping_method = codes "standard";
  coupon_code = codes "save10";
}

abbrev pub is_ok {ℓ} : {E : Type 0} {A : Type ℓ} → Result E A → Bool
is_ok (ok a) = true
is_ok (err e) = false

-- The value of a result that is no error.
abbrev pub get {ℓ} : {E : Type 0} {A : Type ℓ} (r : Result E A) → is_ok r ≡ true → A
get (ok a) h = a
get (err e) h = cc

pub get_lem {ℓ} : {E : Type 0} {A : Type ℓ} (r : Result E A) (h : is_ok r ≡ true) → r ≡ ok (get r h)
get_lem (ok a) h = refl
get_lem (err e) h = cc
