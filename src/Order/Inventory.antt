-- ===== src/Order/Inventory.antt =====
-- The stock that a checkout takes and a cancellation restores (backend/internal/order/repository.go).
pub mod Units
use plant_shop.Order.Model.{Order, Item, is_cancelled}
use plant_shop.Store.{
  Store, Product, DbError, constraint, out_of_range, find_product, modify_product,
}
use plant_shop.Base.{
  ℕ, zero, suc, ◌+◌, ◌-◌, ◌*◌, ◌/◌, ◌%◌, ◌^◌, ◌≤◌, ◌<◌, min, ◌≡◌, refl, sym, ap, ◌∙◌, ◌≢◌, ◌↔◌, ◌⊎◌,
  inl, inr, Bool, true, false, not, ◌&&◌, ◌||◌, Option, none, some, List, [], ◌∷◌, ◌++◌, map, arith,
  ltb, leb, ◌==◌, if◌then◌else◌, ==_iff, ==_refl, Bool-cases, Option-cases, is_some, All, length,
  take, Result, ok, err, ◌>>=◌, ◌>>◌, fail_if, >>=-eq-ok,
}
use plant_shop.Base.Int.{
  ℤ, pos, negsuc, pos_part, neg_part, sub_ℕ, ◌≤ℤ◌, ltb_ℤ, leb_ℤ, i64, i64_pos, of_bits, ◌+ℤ◌, ◌-ℤ◌,
  ◌*ℤ◌, ◌/ℤ◌, +ℤ-pos, -ℤ-pos, *ℤ-pos,
}
use plant_shop.Base.Table.{
  exists?, count, select, select_one, update_where, sum_by, sum_by-append, count-append, find,
  modify, find_key, find-append_none, find-append_some, find-modify_self, find-modify-none,
  find-modify_ne, sum_by-modify,
}
use plant_shop.Text.{
  Text, codes, byte_len, text_eq, is_empty, trim_space, parse_int, text_eq_refl, eq_of_text_eq,
  text_eq_iff,
}

abbrev pub set_stock : ℕ → Product → Product
set_stock n p = record p { stock = n }

-- `UPDATE products SET stock = stock - q WHERE id = p`, with CHECK (stock >= 0).
unfoldable pub decrement : ℕ → ℕ → List Product → Result DbError (List Product)
decrement p q ps = elim (find_product p ps) [
  | none ↦ ok ps
  | some r ↦
      if ltb r.stock q then err constraint else ok (modify_product p (set_stock (r.stock - q)) ps)
]

-- `UPDATE products SET stock = stock + q WHERE id = p`; the column is a 32-bit integer.
unfoldable pub increment : ℕ → ℕ → List Product → Result DbError (List Product)
increment p q ps = elim (find_product p ps) [
  | none ↦ ok ps
  | some r ↦
      if ltb 2147483647 (r.stock + q)
      then err out_of_range
      else ok (modify_product p (set_stock (r.stock + q)) ps)
]

-- The loop of the checkout over its lines, on the stock.
unfoldable pub take_stock : List Item → List Product → Result DbError (List Product)
take_stock [] ps = ok ps
take_stock (i ∷ is) ps = decrement i.product_id i.quantity ps >>= take_stock is

-- `restoreOrderStock`: the row locks change nothing.
unfoldable pub restore_stock : List Item → List Product → Result DbError (List Product)
restore_stock [] ps = ok ps
restore_stock (i ∷ is) ps = increment i.product_id i.quantity ps >>= restore_stock is
