-- ===== src/Order/Shipping/Bounds.antt =====
-- Every configuration that loads has fees in range, and a fee that is charged is one of them.
use plant_shop.Base.{◌≡◌, Bool, arith}
use plant_shop.Base.{ok}
use plant_shop.Base.Int.{ℤ, pos, ◌≤ℤ◌}
use plant_shop.Text.{Text}
use plant_shop.Order.Shipping.{ShippingConfig, fee, load_fee, load_shipping}

-- The fees that an environment may set.
abbrev pub IsFee : ℤ → Type 0
IsFee z = (pos 0 ≤ℤ z) × (z ≤ℤ pos 100000000000)

pub record HasFees (c : ShippingConfig) : Type 0 where
  pub standard_fee : IsFee c.standard
  pub express_fee : IsFee c.express
  pub threshold_fee : IsFee c.free_threshold

load_fee-IsFee : (raw : Text) (old n : ℤ) → IsFee old → load_fee raw old ≡ ok n → IsFee n
unfolding load_fee
load_fee-IsFee raw old n h e = ground arith

-- Every shipping configuration that loads has all its fees and its threshold from 0 to 10^11,
-- whatever the environment holds.
pub load_shipping-HasFees :
    (getenv : Text → Text) (production : Bool) (c : ShippingConfig)
    → load_shipping getenv production ≡ ok c
    → HasFees c
unfolding load_shipping load_fee
load_shipping-HasFees getenv production c h = ground arith

-- With a configuration whose fees are from 0 to 10^11, every fee that is charged is from 0 to
-- 10^11.
pub fee-IsFee :
    (c : ShippingConfig) (m : Text) (subtotal : ℤ) → HasFees c → IsFee (fee c m subtotal).0
unfolding fee
fee-IsFee c m subtotal h = ground arith
