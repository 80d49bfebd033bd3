-- ===== src/Store.antt =====
-- The database: one list of rows for each table, with the columns that the code reads or writes, and
-- the next value of each table's sequence. A transaction is a function of the store (Base/Outcome).
use plant_shop.Order.Model.{Order}
use plant_shop.Order.Shipping.{ShippingConfig}
use plant_shop.Coupon.Model.{Coupon}
use plant_shop.Payment.Model.{Attempt, Event}
use plant_shop.Returns.Model.{ReturnRequest}
use plant_shop.Refund.Model.{Refund}
use plant_shop.Notification.Model.{Notification}
use plant_shop.Cart.Model.{CartItem, Warning}
use plant_shop.Base.{ℕ, ◌≡◌, Bool, Option, List, Result, ok, err}
use plant_shop.Base.Table.{find, modify}
use plant_shop.Text.{Text}

-- A row of products. Price and stock are kept at 0 or more by CHECK constraints; the expiry date is
-- a day.
pub record Product : Type 0 where
  pub id : ℕ
  pub name : Text
  pub price : ℕ
  pub stock : ℕ
  pub kind : Text
  pub expiry_date : Option ℕ

-- A row of coupon_redemptions.
pub record Redemption : Type 0 where
  pub coupon_id : ℕ
  pub user_id : ℕ
  pub order_id : ℕ
  pub released : Bool

-- A row of cart_merge_batches, with the warnings of its result.
pub record MergeBatch : Type 0 where
  pub user_id : ℕ
  pub merge_key : Text
  pub warnings : List Warning

pub record Store : Type 0 where
  pub products : List Product
  pub carts : List CartItem
  pub batches : List MergeBatch
  pub orders : List Order
  pub coupons : List Coupon
  pub redemptions : List Redemption
  pub attempts : List Attempt
  pub events : List Event
  pub returns : List ReturnRequest
  pub refunds : List Refund
  pub outbox : List Notification
  pub next_cart : ℕ
  pub next_order : ℕ
  pub next_coupon : ℕ
  pub next_attempt : ℕ
  pub next_return : ℕ
  pub next_refund : ℕ
  pub next_notification : ℕ

-- What the repositories are configured with, and what the transaction takes from the database server:
-- the clock (`now` for NOW() and `time.Now()`, `today` for CURRENT_DATE) and the function UPPER, whose
-- result depends on the server's locale.
pub record Env : Type 0 where
  pub shipping : ShippingConfig
  pub notifications : Bool
  pub environment : Text
  pub identity : Text
  pub now : ℕ
  pub today : ℕ
  pub upper : Text → Text

-- Errors of the database itself: no row for a QueryRow, a violated constraint, a number out of the
-- range of its column.
pub data DbError : Type 0 where
  no_rows constraint out_of_range : DbError

-- An error of a callee, as the caller returns it.
abbrev pub lift {ℓ} : {E : Type 0} {A : Type ℓ} → (DbError → E) → Result DbError A → Result E A
lift f (ok a) = ok a
lift f (err e) = err (f e)

pub lift-eq-ok {ℓ} :
    {E : Type 0} {A : Type ℓ} (f : DbError → E) (m : Result DbError A) {a : A}
    → lift f m ≡ ok a
    → m ≡ ok a
lift-eq-ok f (ok b) h = cc
lift-eq-ok f (err e) h = cc

abbrev pub find_product : ℕ → List Product → Option Product
find_product = find (λ (p : Product). p.id)

abbrev pub modify_product : ℕ → (Product → Product) → List Product → List Product
modify_product = modify (λ (p : Product). p.id)

abbrev pub find_order : ℕ → List Order → Option Order
find_order = find (λ (o : Order). o.id)

abbrev pub modify_order : ℕ → (Order → Order) → List Order → List Order
modify_order = modify (λ (o : Order). o.id)

abbrev pub find_attempt : ℕ → List Attempt → Option Attempt
find_attempt = find (λ (a : Attempt). a.id)

abbrev pub modify_attempt : ℕ → (Attempt → Attempt) → List Attempt → List Attempt
modify_attempt = modify (λ (a : Attempt). a.id)

abbrev pub find_coupon : ℕ → List Coupon → Option Coupon
find_coupon = find (λ (c : Coupon). c.id)

abbrev pub modify_coupon : ℕ → (Coupon → Coupon) → List Coupon → List Coupon
modify_coupon = modify (λ (c : Coupon). c.id)
