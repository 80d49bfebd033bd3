-- ===== src/Order/Shipping.antt =====
-- Shipping fees (backend/internal/order/shipping.go and shipping_config.go).
pub mod Bounds
use plant_shop.Base.{
  ℕ, Bool, true, false, not, ◌&&◌, ◌||◌, Option, none, some, List, [], ◌∷◌, if◌then◌else◌,
}
use plant_shop.Base.{Result, ok, err, ◌>>=◌}
use plant_shop.Base.Int.{ℤ, pos, ltb_ℤ, leb_ℤ}
use plant_shop.Text.{Text, codes, text_eq, is_empty, parse_int}

abbrev pub method_standard : Text
method_standard = codes "standard"

abbrev pub method_express : Text
method_express = codes "express"

abbrev pub method_digital : Text
method_digital = codes "digital"

unfoldable pub is_valid_shipping_method : Text → Bool
is_valid_shipping_method m =
    text_eq m method_standard || text_eq m method_digital || text_eq m method_express

abbrev pub shipping_fee_standard : ℤ
shipping_fee_standard = pos 500

abbrev pub shipping_fee_express : ℤ
shipping_fee_express = pos 1500

-- `ShippingFeeFor`: the fee and whether the method is known.
unfoldable pub shipping_fee_for : Text → ℤ × Bool
shipping_fee_for m =
    if text_eq m method_standard
    then (shipping_fee_standard, true)
    else if text_eq m method_express
    then (shipping_fee_express, true)
    else (pos 0, false)

pub record ShippingConfig : Type 0 where
  pub standard : ℤ
  pub express : ℤ
  pub free_threshold : ℤ
  pub configured : Bool
  pub payments_enabled : Bool

-- One variable of the environment: the old value if it is unset, an error if it is not a number
-- from 0 to 10^11.
unfoldable pub load_fee : Text → ℤ → Result Text ℤ
load_fee raw old = if is_empty raw then ok old else elim (parse_int raw) [
  | none ↦ err raw
  | some n ↦ if ltb_ℤ n (pos 0) || ltb_ℤ (pos 100000000000) n then err raw else ok n
]

-- `LoadShipping`, on an environment.
unfoldable pub load_shipping : (Text → Text) → Bool → Result Text ShippingConfig
unfolding load_fee
load_shipping getenv production = do
  let raw_standard = getenv (codes "SHIPPING_STANDARD_RIAL")
  let raw_express = getenv (codes "SHIPPING_EXPRESS_RIAL")
  s ← load_fee raw_standard shipping_fee_standard
  e ← load_fee raw_express shipping_fee_express
  t ← load_fee (getenv (codes "FREE_SHIPPING_THRESHOLD_RIAL")) (pos 0)
  ok (record {
    standard = s;
    express = e;
    free_threshold = t;
    configured =
        (if not (is_empty raw_standard) && not (is_empty raw_express)
          then true
          else not production);
    payments_enabled = false;
  })

-- `ShippingConfig.Fee`.
unfoldable pub fee : ShippingConfig → Text → ℤ → ℤ × Bool
unfolding is_valid_shipping_method
fee c m subtotal =
    if text_eq m method_digital
    then (pos 0, true)
    else if not c.configured || not (is_valid_shipping_method m)
    then (pos 0, false)
    else if ltb_ℤ (pos 0) c.free_threshold
        && leb_ℤ c.free_threshold subtotal
        && text_eq m method_standard
    then (pos 0, true)
    else if text_eq m method_standard
    then (c.standard, true)
    else (c.express, true)
