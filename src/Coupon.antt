-- ===== src/Coupon.antt =====
-- Coupons (backend/internal/coupon): the validation of coupons, the discount, and the checks and
-- redemptions of a checkout.
pub mod Model
pub mod Repository
