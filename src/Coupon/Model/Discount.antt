-- ===== src/Coupon/Model/Discount.antt =====
-- Bounds and the exact value of the discount.
use plant_shop.Base.{ℕ, ◌*◌, ◌/◌, ◌≤◌, ◌<◌, ◌≡◌, ◌⊎◌, arith}
use plant_shop.Base.Int.{ℤ, pos, ◌≤ℤ◌, ◌/ℤ◌, *ℤ-pos}
use plant_shop.Coupon.Model.{DiscountType, calculate_discount}

-- A discount is never negative, and it is at most the subtotal, or 0 where the subtotal is not
-- positive, for every type, value and subtotal, also where the product wraps.
pub calculate_discount_bounds :
    (t : DiscountType) (v subtotal : ℤ)
    → (pos 0 ≤ℤ calculate_discount t v subtotal)
      × ((calculate_discount t v subtotal ≤ℤ subtotal)
          ⊎ ((subtotal ≤ℤ pos 0) × (calculate_discount t v subtotal ≡ pos 0)))
unfolding calculate_discount
calculate_discount_bounds t v subtotal = ground arith

percent_le : (n p : ℕ) → p ≤ 100 → n * p / 100 ≤ n
percent_le n p h = grind arith

-- For a percentage of at most 100 and a subtotal whose product with it is below 2^63, the discount
-- is that product divided by 100, rounded down.
pub calculate_discount-percent :
    (p n : ℕ)
    → p ≤ 100
    → n * p < 9223372036854775808
    → calculate_discount DiscountType.percent (pos p) (pos n) ≡ pos (n * p / 100)
unfolding calculate_discount ◌/ℤ◌
calculate_discount-percent p n h k = rw (*ℤ-pos n p k) (ground (arith, percent_le n p h))
