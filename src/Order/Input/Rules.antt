-- ===== src/Order/Input/Rules.antt =====
-- What the checkout validation accepts, in terms of the fields, and its agreement with trimming.
use plant_shop.Order.Shipping.{is_valid_shipping_method, method_digital}
use plant_shop.Order.Input.{CheckoutInput, trimmed, check, validate}
use plant_shop.Text.Trim.{trim_space_idem}
use plant_shop.Base.{ℕ, ◌≤◌, ◌≡◌, refl, ap, ◌↔◌, ◌⊎◌, true, false, none, [], ◌∷◌, arith}
use plant_shop.Text.{Text, byte_len, text_eq, is_empty}

-- Present, and no longer than its column.
abbrev pub Fits : ℕ → Text → Type 0
Fits n s = (is_empty s ≡ false) × (byte_len s ≤ n)

-- Fit to be omitted from a digital order.
abbrev pub FitsAddress : Text → ℕ → Text → Type 0
FitsAddress method n s =
    (byte_len s ≤ n) × ((is_empty s ≡ false) ⊎ (text_eq method method_digital ≡ true))

pub record IsAcceptable (t : CheckoutInput) : Type 0 where
  pub recipient_fits : Fits 255 t.recipient_name
  pub phone_fits : Fits 64 t.phone
  pub line1_fits : FitsAddress t.shipping_method 255 t.address_line1
  pub line2_fits : byte_len t.address_line2 ≤ 255
  pub city_fits : FitsAddress t.shipping_method 128 t.city
  pub postal_fits : FitsAddress t.shipping_method 32 t.postal_code
  pub country_fits : FitsAddress t.shipping_method 128 t.country
  pub known_method : is_valid_shipping_method t.shipping_method ≡ true

trimmed_idem : (i : CheckoutInput) → trimmed (trimmed i) ≡ trimmed i
unfolding trimmed
trimmed_idem i = cc (
  trim_space_idem i.recipient_name,
  trim_space_idem i.phone,
  trim_space_idem i.address_line1,
  trim_space_idem i.address_line2,
  trim_space_idem i.city,
  trim_space_idem i.postal_code,
  trim_space_idem i.country,
  trim_space_idem i.shipping_method,
  trim_space_idem i.coupon_code,
)

-- Validating the trimmed input has the same outcome as validating the input.
pub validate-trimmed : (i : CheckoutInput) → validate (trimmed i) ≡ validate i
unfolding validate
validate-trimmed i = ap check (trimmed_idem i)

check-IsAcceptable : (t : CheckoutInput) → check t ≡ none → IsAcceptable t
unfolding check
check-IsAcceptable t h = ground arith

known_method-non_empty : (m : Text) → is_valid_shipping_method m ≡ true → is_empty m ≡ false
unfolding is_valid_shipping_method text_eq
known_method-non_empty [] h = cc
known_method-non_empty (c ∷ m) h = refl

IsAcceptable-check : (t : CheckoutInput) → IsAcceptable t → check t ≡ none
unfolding check
IsAcceptable-check t h = ground (arith, known_method-non_empty t.shipping_method h.known_method)

-- The validation of a checkout input accepts it exactly if each trimmed field fits: name and phone
-- are present, an address is present unless the order is digital, all are within their lengths,
-- and the shipping method is known.
pub validate-iff-IsAcceptable : (i : CheckoutInput) → (validate i ≡ none) ↔ IsAcceptable (trimmed i)
unfolding validate
validate-iff-IsAcceptable i = (check-IsAcceptable (trimmed i), IsAcceptable-check (trimmed i))
