-- ===== src/Order/Input.antt =====
-- The checkout input and its validation (backend/internal/order/model.go).
pub mod Rules
use text.Mathlib.Text.{◌==◌ as str_eq}
use Prim.Native.String.{String}
use plant_shop.Order.Shipping.{is_valid_shipping_method, method_digital}
use plant_shop.Base.{
  ℕ, zero, suc, ◌+◌, ◌-◌, ◌*◌, ◌/◌, ◌%◌, ◌^◌, ◌≤◌, ◌<◌, min, ◌≡◌, refl, sym, ap, ◌∙◌, ◌≢◌, ◌↔◌, ◌⊎◌,
  inl, inr, Bool, true, false, not, ◌&&◌, ◌||◌, Option, none, some, List, [], ◌∷◌, ◌++◌, map, arith,
  ltb, leb, ◌==◌, if◌then◌else◌, ==_iff, ==_refl, Bool-cases, Option-cases, is_some, All, length,
  take, Result, ok, err, ◌>>=◌, ◌>>◌, fail_if, >>=-eq-ok,
}
use plant_shop.Text.{
  Text, codes, byte_len, text_eq, is_empty, trim_space, parse_int, text_eq_refl, eq_of_text_eq,
  text_eq_iff,
}

pub record CheckoutInput : Type 0 where
  pub recipient_name : Text
  pub phone : Text
  pub address_line1 : Text
  pub address_line2 : Text
  pub city : Text
  pub postal_code : Text
  pub country : Text
  pub shipping_method : Text
  pub coupon_code : Text

pub record ErrValidation : Type 0 where
  pub field : String
  pub message : String

unfoldable pub trimmed : CheckoutInput → CheckoutInput
trimmed i = record {
  recipient_name = trim_space i.recipient_name;
  phone = trim_space i.phone;
  address_line1 = trim_space i.address_line1;
  address_line2 = trim_space i.address_line2;
  city = trim_space i.city;
  postal_code = trim_space i.postal_code;
  country = trim_space i.country;
  shipping_method = trim_space i.shipping_method;
  coupon_code = trim_space i.coupon_code;
}

pub record Required : Type 0 where
  pub field : String
  pub value : Text
  pub max_len : ℕ

-- The entries of the `required` table in `Validate`.
unfoldable pub required : CheckoutInput → List Required
required t =
    record { field = "recipient_name"; value = t.recipient_name; max_len = 255 }
    ∷ record { field = "phone"; value = t.phone; max_len = 64 }
    ∷ record { field = "address_line1"; value = t.address_line1; max_len = 255 }
    ∷ record { field = "city"; value = t.city; max_len = 128 }
    ∷ record { field = "postal_code"; value = t.postal_code; max_len = 32 }
    ∷ record { field = "country"; value = t.country; max_len = 128 }
    ∷ []

-- A digital order needs no address.
unfoldable pub may_be_empty : CheckoutInput → Required → Bool
may_be_empty t f =
    text_eq t.shipping_method method_digital
    && not (str_eq f.field "recipient_name")
    && not (str_eq f.field "phone")

unfoldable pub check_required : CheckoutInput → List Required → Option ErrValidation
unfolding may_be_empty
check_required t [] = none
check_required t (f ∷ fs) =
    let rest = check_required t fs in
    if is_empty f.value && not (may_be_empty t f)
    then some (record { field = f.field; message = "is required" })
    else if ltb f.max_len (byte_len f.value)
    then some (record { field = f.field; message = "is too long" })
    else rest

-- The checks behind the loop.
unfoldable pub check_rest : CheckoutInput → Option ErrValidation
check_rest t =
    if ltb 255 (byte_len t.address_line2)
    then some (record { field = "address_line2"; message = "is too long" })
    else if is_empty t.shipping_method
    then some (record { field = "shipping_method"; message = "is required" })
    else if not (is_valid_shipping_method t.shipping_method)
    then some (record { field = "shipping_method"; message = "is not a supported shipping method" })
    else none

abbrev or_else {ℓ} : {A : Type ℓ} → Option A → Option A → Option A
or_else none o = o
or_else (some a) o = some a

-- The checks on the trimmed copy; `none` is a nil error.
unfoldable pub check : CheckoutInput → Option ErrValidation
unfolding required check_required check_rest
check t = or_else (check_required t (required t)) (check_rest t)

-- `CheckoutInput.Validate`.
unfoldable pub validate : CheckoutInput → Option ErrValidation
validate i = check (trimmed i)
