-- ===== src/Coupon/Model/Validity.antt =====
-- What a stored coupon satisfies, and that both ways of writing one establish it.
use plant_shop.Base.{ℕ, ◌≤◌, ◌<◌, ◌≡◌, ◌↔◌, true, false, Option, none, some, arith, ok}
use plant_shop.Base.Int.{ℤ, pos, ◌≤ℤ◌}
use plant_shop.Text.{byte_len, is_empty}
use plant_shop.Coupon.Model.{
  DiscountType, Coupon, CreateInput, UpdateInput, validate_create_input, merge_update,
  validate_merged, apply_update, check_eligibility, get_or,
}

-- A discount type with a value in its range.
abbrev pub InRange : DiscountType → ℤ → Type 0
InRange DiscountType.percent v = (pos 1 ≤ℤ v) × (v ≤ℤ pos 100)
InRange DiscountType.fixed v = pos 1 ≤ℤ v
InRange (DiscountType.other s) v = ⊥

abbrev pub IsLimit : Option ℤ → Type 0
IsLimit none = Unit
IsLimit (some n) = pos 1 ≤ℤ n

abbrev pub IsPeriod : Option ℕ → Option ℕ → Type 0
IsPeriod (some s) (some e) = s < e
IsPeriod _ _ = Unit

pub record IsWellFormed (c : Coupon) : Type 0 where
  pub code_present : is_empty c.code ≡ false
  pub code_short : byte_len c.code ≤ 64
  pub value_in_range : InRange c.discount_type c.value
  pub minimum_nonneg : pos 0 ≤ℤ c.min_order_amount
  pub usage_positive : IsLimit c.usage_limit
  pub per_user_positive : IsLimit c.per_user_limit
  pub period_ordered : IsPeriod c.starts_at c.ends_at

-- The coupon that the table holds for an accepted input.
abbrev pub created : ℕ → CreateInput → Coupon
created id i = record {
  id = id;
  code = i.code;
  discount_type = i.discount_type;
  value = i.value;
  min_order_amount = i.min_order_amount;
  usage_limit = i.usage_limit;
  per_user_limit = i.per_user_limit;
  starts_at = i.starts_at;
  ends_at = i.ends_at;
  is_active = get_or i.is_active false;
}

-- The coupon that is stored for an accepted input is well formed: its code is present and has at
-- most 64 bytes, its value is in the range of its type, its minimum is not negative, its limits
-- are positive and its period begins before it ends.
pub validate_create_input-IsWellFormed :
    (i j : CreateInput) (id : ℕ) → validate_create_input i ≡ ok j → IsWellFormed (created id j)
unfolding validate_create_input
validate_create_input-IsWellFormed i j id h = ground arith

validate_merged-IsWellFormed : (r c : Coupon) → validate_merged r ≡ ok c → IsWellFormed c
unfolding validate_merged
validate_merged-IsWellFormed r c h = ground arith

-- An accepted update leaves a well-formed coupon, whatever the coupon was before it.
pub apply_update-IsWellFormed :
    (c d : Coupon) (i : UpdateInput) → apply_update c i ≡ ok d → IsWellFormed d
unfolding apply_update
apply_update-IsWellFormed c d i h = validate_merged-IsWellFormed (merge_update c i) d h

-- A well-formed coupon is accepted by the checks of an update.
IsWellFormed-validate_merged : (c : Coupon) → IsWellFormed c → validate_merged c ≡ ok c
unfolding validate_merged
IsWellFormed-validate_merged c w = ground arith

-- An update that provides nothing.
abbrev pub no_update : UpdateInput
no_update = record {
  code = none;
  discount_type = none;
  value = none;
  min_order_amount = none;
  usage_limit = none;
  has_usage_limit = false;
  per_user_limit = none;
  has_per_user_limit = false;
  starts_at = none;
  has_starts_at = false;
  ends_at = none;
  has_ends_at = false;
  is_active = none;
}

-- An update that provides nothing accepts a well-formed coupon and leaves it as it is.
pub apply_update-no_update : (c : Coupon) → IsWellFormed c → apply_update c no_update ≡ ok c
unfolding apply_update
apply_update-no_update c w = IsWellFormed-validate_merged c w

-- The instant is in the coupon's period.
abbrev pub Started : Option ℕ → ℕ → Type 0
Started none now = Unit
Started (some s) now = s ≤ now

abbrev pub NotOver : Option ℕ → ℕ → Type 0
NotOver none now = Unit
NotOver (some e) now = now ≤ e

pub record IsUsable (c : Coupon) (subtotal : ℤ) (now : ℕ) : Type 0 where
  pub active : c.is_active ≡ true
  pub started : Started c.starts_at now
  pub not_over : NotOver c.ends_at now
  pub enough : c.min_order_amount ≤ℤ subtotal

eligible-IsUsable :
    (c : Coupon) (subtotal : ℤ) (now : ℕ)
    → check_eligibility c subtotal now ≡ none
    → IsUsable c subtotal now
unfolding check_eligibility
eligible-IsUsable c subtotal now h = ground arith

IsUsable-eligible :
    (c : Coupon) (subtotal : ℤ) (now : ℕ)
    → IsWellFormed c
    → IsUsable c subtotal now
    → check_eligibility c subtotal now ≡ none
unfolding check_eligibility
IsUsable-eligible c subtotal now w u = ground arith

-- A well-formed coupon passes the checks exactly if it is active, its period holds the instant,
-- both ends included, and the subtotal reaches its minimum.
pub check_eligibility-iff-IsUsable :
    (c : Coupon) (subtotal : ℤ) (now : ℕ)
    → IsWellFormed c
    → (check_eligibility c subtotal now ≡ none) ↔ IsUsable c subtotal now
check_eligibility-iff-IsUsable c subtotal now w =
    (eligible-IsUsable c subtotal now, IsUsable-eligible c subtotal now w)
