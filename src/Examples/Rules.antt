-- ===== src/Examples/Rules.antt =====
-- The rules on one record or text each: statuses, coupons, the checkout input and the fees.
use plant_shop.Examples.{checkout, save_ten, is_ok, get, get_lem}
use plant_shop.Order.Model.{Status, can_transition}
use plant_shop.Order.Model.Machine.{PathTo, here, next, steps, is_final, steps_bounded}
use plant_shop.Order.Input.{trimmed, validate}
use plant_shop.Order.Input.Rules.{IsAcceptable, validate-iff-IsAcceptable}
use plant_shop.Order.Shipping.{ShippingConfig, load_fee, load_shipping}
use plant_shop.Order.Shipping.Bounds.{HasFees, load_shipping-HasFees}
use plant_shop.Coupon.Model.{
  DiscountType, Coupon, CreateInput, UpdateInput, Invalid, validate_create_input, validate_value,
  normalize_code, apply_update, merge_update, validate_merged, calculate_discount,
  check_eligibility,
}
use plant_shop.Coupon.Model.Discount.{calculate_discount_bounds}
use plant_shop.Coupon.Model.Validity.{
  IsWellFormed, IsUsable, created, no_update, validate_create_input-IsWellFormed,
  apply_update-IsWellFormed, check_eligibility-iff-IsUsable,
}
use plant_shop.Text.{
  Text, codes, is_space, rune_len, byte_len, trim_left, trim_right, trim_space, digits_from,
  parse_int,
}
use plant_shop.Base.{◌≤◌, ◌≡◌, refl, ◌↔◌, ◌⊎◌, true, false, none, some, arith, Result}
use plant_shop.Base.Int.{pos, ◌≤ℤ◌}

delivery_path : PathTo Status.pending Status.delivered
unfolding can_transition
delivery_path = next {t = Status.shipped} (next {t = Status.processing} (next here refl) refl) refl

steps_bounded_example :
    (steps delivery_path ≤ 3) × ((is_final Status.pending ≡ false) ⊎ (steps delivery_path ≡ 0))
steps_bounded_example = steps_bounded Status.pending Status.delivered delivery_path

calculate_discount_bounds_example :
    (pos 0 ≤ℤ calculate_discount DiscountType.fixed (pos 9000) (pos 5000))
    × ((calculate_discount DiscountType.fixed (pos 9000) (pos 5000) ≤ℤ pos 5000)
        ⊎ ((pos 5000 ≤ℤ pos 0)
            × (calculate_discount DiscountType.fixed (pos 9000) (pos 5000) ≡ pos 0)))
calculate_discount_bounds_example =
    calculate_discount_bounds DiscountType.fixed (pos 9000) (pos 5000)

abbrev spring : CreateInput
spring = record {
  code = codes " SPRING ";
  discount_type = DiscountType.percent;
  value = pos 15;
  min_order_amount = pos 0;
  usage_limit = none;
  per_user_limit = some (pos 1);
  starts_at = some 1;
  ends_at = some 9;
  is_active = none;
}

abbrev validated : Result Invalid CreateInput
validated = validate_create_input spring

validated_ok : is_ok validated ≡ true
unfolding validate_create_input validate_value normalize_code byte_len rune_len is_space trim_left
    trim_right trim_space
validated_ok = refl

validate_create_input-IsWellFormed_example : IsWellFormed (created 2 (get validated validated_ok))
validate_create_input-IsWellFormed_example =
    validate_create_input-IsWellFormed spring (get validated validated_ok) 2
      (get_lem validated validated_ok)

abbrev raised : UpdateInput
raised = record no_update { value = some (pos 20) }

abbrev updated : Result Invalid Coupon
updated = apply_update save_ten raised

updated_ok : is_ok updated ≡ true
unfolding apply_update merge_update validate_merged validate_value normalize_code byte_len rune_len
    is_space trim_left trim_right trim_space
updated_ok = refl

apply_update-IsWellFormed_example : IsWellFormed (get updated updated_ok)
apply_update-IsWellFormed_example =
    apply_update-IsWellFormed save_ten (get updated updated_ok) raised (get_lem updated updated_ok)

save_ten-IsWellFormed : IsWellFormed save_ten
unfolding byte_len rune_len
save_ten-IsWellFormed = record {
  code_present = refl;
  code_short = omega arith;
  value_in_range = omega arith;
  minimum_nonneg = omega arith;
  usage_positive = omega arith;
  per_user_positive = omega arith;
  period_ordered = tt;
}

check_eligibility-iff-IsUsable_example :
    (check_eligibility save_ten (pos 45000) 1000 ≡ none) ↔ IsUsable save_ten (pos 45000) 1000
check_eligibility-iff-IsUsable_example =
    check_eligibility-iff-IsUsable save_ten (pos 45000) 1000 save_ten-IsWellFormed

validate-iff-IsAcceptable_example : (validate checkout ≡ none) ↔ IsAcceptable (trimmed checkout)
validate-iff-IsAcceptable_example = validate-iff-IsAcceptable checkout

-- An environment that sets every fee to 700.
abbrev environment : Text → Text
environment name = codes "700"

abbrev loaded : Result Text ShippingConfig
loaded = load_shipping environment true

loaded_ok : is_ok loaded ≡ true
unfolding load_shipping load_fee parse_int digits_from
loaded_ok = refl

load_shipping-HasFees_example : HasFees (get loaded loaded_ok)
load_shipping-HasFees_example =
    load_shipping-HasFees environment true (get loaded loaded_ok) (get_lem loaded loaded_ok)
