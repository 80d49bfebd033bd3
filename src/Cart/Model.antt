-- ===== src/Cart/Model.antt =====
-- Cart rows and the views of a cart (backend/internal/cart/model.go).
use plant_shop.Base.{ℕ, List}
use plant_shop.Text.{Text}
use plant_shop.Base.Int.{ℤ}

-- A row of cart_items.
pub record CartItem : Type 0 where
  pub id : ℕ
  pub user_id : ℕ
  pub product_id : ℕ
  pub quantity : ℕ

pub record ItemView : Type 0 where
  pub id : ℕ
  pub product_id : ℕ
  pub price : ℤ
  pub quantity : ℕ
  pub subtotal : ℤ

pub record CartView : Type 0 where
  pub items : List ItemView
  pub total : ℤ

pub record AddItemInput : Type 0 where
  pub product_id : ℕ
  pub quantity : ℕ

-- The warnings of a merge: a product that is gone, and one whose quantity was lowered to its stock.
pub data Warning : Type 0 where
  missing : Warning
  adjusted : Text → Warning
