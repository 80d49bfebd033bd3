-- ===== src/Examples/Carts.antt =====
-- A customer who already has a fern adds another one to the cart, and merges a visitor's cart.
use plant_shop.Examples.{opened, is_ok, get, get_lem}
use plant_shop.Cart.Model.{CartItem, Warning}
use plant_shop.Cart.Repository.{Error, put, add_item}
use plant_shop.Cart.Repository.Contents.{Added, add_item-Added}
use plant_shop.Store.{Store, DbError, constraint}
use plant_shop.Cart.Merge.{
  MergeInput, violates_check, quantities, add_wanted, merge_all, merge_one, merge, is_valid_merge,
  all_valid, is_valid_item,
}
use plant_shop.Cart.Merge.Results.{FirstMerge, merge-IsMerged, merge-repeats}
use plant_shop.Base.{◌≡◌, refl, true, Result, ok, err, List, [], ◌∷◌, arith}
use plant_shop.Text.{
  codes, byte_len, rune_len, trim_space, trim_left, trim_right, is_space, text_eq,
}
use plant_shop.Base.Int.{pos, ◌+ℤ◌}

abbrev run : Result Error (CartItem × Store)
run = add_item 8 1 (pos 3) opened

run_ok : is_ok run ≡ true
unfolding add_item put ◌+ℤ◌
run_ok = refl

add_item-Added_example : Added 8 1 (pos 3) opened (get run run_ok).1
add_item-Added_example =
    add_item-Added 8 1 (pos 3) opened (get run run_ok).1 (get run run_ok).0
      (refl, (refl, (refl, tt))) (get_lem run run_ok)

abbrev visitor : MergeInput
visitor = record {
  key = codes "0123456789abcdef";
  items =
      record { product_id = 2; quantity = 1 }
      ∷ record { product_id = 1; quantity = 2 }
      ∷ record { product_id = 1; quantity = 4 }
      ∷ [];
}

merge-IsMerged_example : FirstMerge 8 visitor opened
merge-IsMerged_example =
    merge-IsMerged 8 visitor opened
      (record {
        keyed = (refl, (refl, (refl, tt)));
        below = (omega arith, (omega arith, (omega arith, tt)));
      })
      refl

abbrev merge_run : Result DbError (List Warning × Store)
merge_run = merge 8 visitor opened

merge_run_ok : is_ok merge_run ≡ true
unfolding merge violates_check quantities add_wanted merge_all merge_one put
merge_run_ok = refl

merge-repeats_example :
    merge 8 (record visitor { items = [] }) (get merge_run merge_run_ok).1
    ≡ ok ((get merge_run merge_run_ok).0, (get merge_run merge_run_ok).1)
merge-repeats_example =
    merge-repeats 8 visitor [] opened (get merge_run merge_run_ok).1 (get merge_run merge_run_ok).0
      (get_lem merge_run merge_run_ok)

-- Eight characters of two bytes each: the handler accepts the key, and the table refuses it.
abbrev short_key : MergeInput
short_key = record visitor { key = codes "растения" }

short_key_valid : is_valid_merge short_key ≡ true
unfolding is_valid_merge all_valid is_valid_item byte_len rune_len trim_space trim_left trim_right
    is_space text_eq
short_key_valid = refl

short_key_refused : merge 8 short_key opened ≡ err constraint
unfolding merge violates_check
short_key_refused = refl
