-- ===== src/Cart/Merge.antt =====
-- Merging a visitor's cart into the cart of the user who signs in (backend/internal/cart/merge.go).
pub mod Totals
pub mod Loop
pub mod Results
use plant_shop.Cart.Model.{CartItem, AddItemInput, Warning, missing, adjusted}
use plant_shop.Cart.Repository.{row_of, quantity_or_zero, put}
use plant_shop.Store.{Store, Product, MergeBatch, DbError, constraint, find_product}
use plant_shop.Base.{
  ℕ, zero, suc, ◌+◌, ◌-◌, ◌*◌, ◌/◌, ◌%◌, ◌^◌, ◌≤◌, ◌<◌, min, ◌≡◌, refl, sym, ap, ◌∙◌, ◌≢◌, ◌↔◌, ◌⊎◌,
  inl, inr, Bool, true, false, not, ◌&&◌, ◌||◌, Option, none, some, List, [], ◌∷◌, ◌++◌, map, arith,
  ltb, leb, ◌==◌, if◌then◌else◌, ==_iff, ==_refl, Bool-cases, Option-cases, is_some, All, length,
  take, Result, ok, err, ◌>>=◌, ◌>>◌, fail_if, >>=-eq-ok, fail_if-eq-ok, Result-cases,
}
use plant_shop.Base.Table.{
  exists?, count, select, select_one, update_where, sum_by, sum_by-append, count-append, find,
  modify, find_key, find-append_none, find-append_some, find-modify_self, find-modify-none,
  find-modify_ne, sum_by-modify, All-select_one, All-append, All-find, All-modify, All-select,
  count-no_row, count-modify, exists?-append, select_one-append_new, select_one-append_other,
  select_one-modify_other,
}
use plant_shop.Text.{
  Text, codes, byte_len, text_eq, is_empty, trim_space, parse_int, text_eq_refl, eq_of_text_eq,
  text_eq_iff,
}

pub record MergeInput : Type 0 where
  pub key : Text
  pub items : List AddItemInput

-- A product and the quantity wanted of it.
pub record Wanted : Type 0 where
  pub product_id : ℕ
  pub quantity : ℕ

-- The cap on a summed quantity.
abbrev pub capped : ℕ → ℕ
capped n = if ltb 1000 n then 1000 else n

-- `quantities[item.ProductID] += item.Quantity`, capped, in a list that is sorted by the product: the
-- map and the sorted keys at once.
unfoldable pub add_wanted : AddItemInput → List Wanted → List Wanted
add_wanted i [] = record { product_id = i.product_id; quantity = capped i.quantity } ∷ []
add_wanted i (w ∷ ws) =
    let rest = add_wanted i ws in
    if w.product_id == i.product_id
    then record w { quantity = capped (w.quantity + i.quantity) } ∷ ws
    else if ltb i.product_id w.product_id
    then record { product_id = i.product_id; quantity = capped i.quantity } ∷ w ∷ ws
    else w ∷ rest

unfoldable pub quantities : List AddItemInput → List Wanted → List Wanted
unfolding add_wanted
quantities [] ws = ws
quantities (i ∷ is) ws = quantities is (add_wanted i ws)

-- The INSERT with `ON CONFLICT (user_id, product_id) DO UPDATE`, where there is something to put.
abbrev pub put_wanted : ℕ → ℕ → ℕ → Store → Store
put_wanted user product n s = if n == 0 then s else (put user product n s).1

-- One round of the loop: the warnings and the store.
unfoldable pub merge_one : ℕ → Wanted → List Warning × Store → List Warning × Store
merge_one user w (warnings, s) = elim (find_product w.product_id s.products) [
  | none ↦ (warnings ++ missing ∷ [], s)
  | some p ↦
      let wanted = quantity_or_zero (select_one (row_of user w.product_id) s.carts) + w.quantity in
      if ltb p.stock wanted
      then (warnings ++ adjusted p.name ∷ [], put_wanted user w.product_id p.stock s)
      else (warnings, put_wanted user w.product_id wanted s)
]

unfoldable pub merge_all : ℕ → List Wanted → List Warning × Store → List Warning × Store
unfolding merge_one
merge_all user [] r = r
merge_all user (w ∷ ws) r = merge_all user ws (merge_one user w r)

-- `WHERE user_id = $1 AND merge_key = $2`: the primary key of the batches.
abbrev pub batch_of : ℕ → Text → MergeBatch → Bool
batch_of user key b = b.user_id == user && text_eq b.merge_key key

-- CHECK (length(merge_key) BETWEEN 16 AND 128), which counts characters.
unfoldable pub violates_check : Text → Bool
violates_check key = ltb (length key) 16 || ltb 128 (length key)

-- The INSERT of the batch.
abbrev pub add_batch : ℕ → Text → List Warning → Store → Store
add_batch user key l s = record s {
  batches = s.batches ++ record { user_id = user; merge_key = key; warnings = l } ∷ [];
}

-- `Merge`: the warnings, and the batch that keeps them. An error rolls the rounds back.
unfoldable pub merge : ℕ → MergeInput → Store → Result DbError (List Warning × Store)
unfolding violates_check
merge user input s = elim (select_one (batch_of user input.key) s.batches) [
  | some b ↦ ok (b.warnings, s)
  | none ↦ do
    let r = merge_all user (quantities input.items []) ([], s)
    fail_if (violates_check input.key) constraint
    ok (r.0, add_batch user input.key r.0 r.1)
]

-- What the handler accepts of an item.
unfoldable pub is_valid_item : AddItemInput → Bool
is_valid_item i = ltb 0 i.product_id && ltb 0 i.quantity && leb i.quantity 1000

unfoldable pub all_valid : List AddItemInput → Bool
unfolding is_valid_item
all_valid [] = true
all_valid (i ∷ is) = is_valid_item i && all_valid is

-- `Handler.Merge` behind the decoding: what it refuses.
unfoldable pub is_valid_merge : MergeInput → Bool
unfolding all_valid
is_valid_merge i =
    leb (length i.items) 100
    && leb 16 (byte_len i.key)
    && leb (byte_len i.key) 128
    && text_eq (trim_space i.key) i.key
    && all_valid i.items

pub data MergeReply : Type 0 where
  warnings_reply : List Warning → MergeReply
  error_reply : ℕ → MergeReply

abbrev merged_reply : Store → Result DbError (List Warning × Store) → MergeReply × Store
merged_reply s (err e) = (error_reply 500, s)
merged_reply s (ok (l, t)) = (warnings_reply l, t)

-- `Handler.Merge`, with the user that `Authenticate` finds and the decoded body.
unfoldable merge_cart : Option ℕ → Option MergeInput → Store → MergeReply × Store
merge_cart none body s = (error_reply 401, s)
merge_cart (some user) none s = (error_reply 400, s)
merge_cart (some user) (some i) s =
    if is_valid_merge i then merged_reply s (merge user i s) else (error_reply 400, s)
