-- ===== src/Cart/Repository.antt =====
-- The transactions on carts (backend/internal/cart/repository.go).
pub mod Contents
use plant_shop.Cart.Model.{CartItem}
use plant_shop.Store.{Store, DbError, constraint, find_product}
use plant_shop.Base.{
  ℕ, zero, suc, ◌+◌, ◌-◌, ◌*◌, ◌/◌, ◌%◌, ◌^◌, ◌≤◌, ◌<◌, min, ◌≡◌, refl, sym, ap, ◌∙◌, ◌≢◌, ◌↔◌, ◌⊎◌,
  inl, inr, Bool, true, false, not, ◌&&◌, ◌||◌, Option, none, some, List, [], ◌∷◌, ◌++◌, map, arith,
  ltb, leb, ◌==◌, if◌then◌else◌, ==_iff, ==_refl, Bool-cases, Option-cases, is_some, All, length,
  take, Result, ok, err, ◌>>=◌, ◌>>◌, fail_if, >>=-eq-ok, fail_if-eq-ok, Result-cases,
}
use plant_shop.Base.Int.{
  ℤ, pos, negsuc, pos_part, neg_part, sub_ℕ, ◌≤ℤ◌, ltb_ℤ, leb_ℤ, i64, i64_pos, of_bits, ◌+ℤ◌, ◌-ℤ◌,
  ◌*ℤ◌, ◌/ℤ◌, +ℤ-pos, -ℤ-pos, *ℤ-pos, eq_ℤ, eq_of_eq_ℤ, eq_ℤ_refl,
}
use plant_shop.Base.Table.{
  exists?, count, select, select_one, update_where, sum_by, sum_by-append, count-append, find,
  modify, find_key, find-append_none, find-append_some, find-modify_self, find-modify-none,
  find-modify_ne, sum_by-modify, All-select_one, All-append, All-find, All-modify, All-select,
}

pub data Error : Type 0 where
  item_not_found product_not_found insufficient_stock : Error
  db : DbError → Error

-- `WHERE user_id = $1 AND product_id = $2`: at most one row, by the UNIQUE constraint.
abbrev pub row_of : ℕ → ℕ → CartItem → Bool
row_of user product c = c.user_id == user && c.product_id == product

abbrev pub quantity_or_zero : Option CartItem → ℕ
quantity_or_zero none = 0
quantity_or_zero (some c) = c.quantity

abbrev pub set_quantity : ℕ → CartItem → CartItem
set_quantity n c = record c { quantity = n }

-- The UPDATE of the row that the cart has, or the INSERT of a new one.
unfoldable pub put : ℕ → ℕ → ℕ → Store → CartItem × Store
put user product n s = elim (select_one (row_of user product) s.carts) [
  | some c ↦ (
    set_quantity n c,
    record s { carts = modify (λ (c : CartItem). c.id) c.id (set_quantity n) s.carts },
  )
  | none ↦
      let c : CartItem = record {
        id = s.next_cart;
        user_id = user;
        product_id = product;
        quantity = n;
      } in
      (c, record s { carts = s.carts ++ c ∷ []; next_cart = suc s.next_cart })
]

-- `AddItem`; the CHECK constraint refuses a quantity that is not positive.
unfoldable pub add_item : ℕ → ℕ → ℤ → Store → Result Error (CartItem × Store)
unfolding put
add_item user product quantity s = elim (find_product product s.products) [
  | none ↦ err Error.product_not_found
  | some p ↦ do
    let n = pos (quantity_or_zero (select_one (row_of user product) s.carts)) +ℤ quantity
    fail_if (ltb_ℤ (pos p.stock) n) Error.insufficient_stock
    fail_if (leb_ℤ n (pos 0)) (Error.db constraint)
    ok (put user product (pos_part n) s)
]

abbrev own_item : ℕ → ℕ → CartItem → Bool
own_item user id c = c.id == id && c.user_id == user

-- `UpdateItemQuantity`.
unfoldable pub update_item_quantity : ℕ → ℕ → ℤ → Store → Result Error (CartItem × Store)
update_item_quantity user id quantity s = elim (select_one (own_item user id) s.carts) [
  | none ↦ err Error.item_not_found
  | some c ↦ elim (find_product c.product_id s.products) [
    | none ↦ err Error.product_not_found
    | some p ↦ do
      fail_if (ltb_ℤ (pos p.stock) quantity) Error.insufficient_stock
      fail_if (leb_ℤ quantity (pos 0)) (Error.db constraint)
      ok (
        set_quantity (pos_part quantity) c,
        record s {
          carts = modify (λ (c : CartItem). c.id) id (set_quantity (pos_part quantity)) s.carts;
        },
      )
  ]
]

-- `DeleteItem`.
unfoldable pub delete_item : ℕ → ℕ → Store → Result Error Store
delete_item user id s =
    if exists? (own_item user id) s.carts
    then ok (record s { carts = select (λ (c : CartItem). not (own_item user id c)) s.carts })
    else err Error.item_not_found
