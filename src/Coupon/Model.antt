-- ===== src/Coupon/Model.antt =====
-- Coupons and the checks that need no database (backend/internal/coupon/model.go). Instants are
-- natural numbers; `Before` and `After` are their orders.
pub mod Discount
pub mod Validity
use Prim.Native.String.{String}
use plant_shop.Base.{
  ◌>>◌, ◌>>=◌, ℕ, ◌-◌, ◌*◌, ◌/◌, ◌<◌, Bool, true, false, not, ◌&&◌, ◌||◌, Option, none, some, ltb,
  leb, if◌then◌else◌, Result, ok, fail_if,
}
use plant_shop.Base.Int.{ℤ, pos, ltb_ℤ, leb_ℤ, ◌*ℤ◌, ◌/ℤ◌}
use plant_shop.Text.{Text, byte_len, is_empty, trim_space}

pub data DiscountType : Type 0 where
  percent fixed : DiscountType
  other : Text → DiscountType

pub record Coupon : Type 0 where
  pub id : ℕ
  pub code : Text
  pub discount_type : DiscountType
  pub value : ℤ
  pub min_order_amount : ℤ
  pub usage_limit : Option ℤ
  pub per_user_limit : Option ℤ
  pub starts_at : Option ℕ
  pub ends_at : Option ℕ
  pub is_active : Bool

pub record CreateInput : Type 0 where
  pub code : Text
  pub discount_type : DiscountType
  pub value : ℤ
  pub min_order_amount : ℤ
  pub usage_limit : Option ℤ
  pub per_user_limit : Option ℤ
  pub starts_at : Option ℕ
  pub ends_at : Option ℕ
  pub is_active : Option Bool

pub record UpdateInput : Type 0 where
  pub code : Option Text
  pub discount_type : Option DiscountType
  pub value : Option ℤ
  pub min_order_amount : Option ℤ
  pub usage_limit : Option ℤ
  pub has_usage_limit : Bool
  pub per_user_limit : Option ℤ
  pub has_per_user_limit : Bool
  pub starts_at : Option ℕ
  pub has_starts_at : Bool
  pub ends_at : Option ℕ
  pub has_ends_at : Bool
  pub is_active : Option Bool

-- `ValidationError`.
pub record Invalid : Type 0 where
  pub field : String
  pub message : String

-- `NormalizeCode`.
unfoldable pub normalize_code : Text → Text
normalize_code code = trim_space code

abbrev pub is_known_type : DiscountType → Bool
is_known_type DiscountType.percent = true
is_known_type DiscountType.fixed = true
is_known_type (DiscountType.other s) = false

abbrev pub is_percent : DiscountType → Bool
is_percent DiscountType.percent = true
is_percent _ = false

abbrev pub is_fixed : DiscountType → Bool
is_fixed DiscountType.fixed = true
is_fixed _ = false

unfoldable pub validate_value : DiscountType → ℤ → Result Invalid (Unit {0})
validate_value DiscountType.percent v =
    fail_if (ltb_ℤ v (pos 1) || ltb_ℤ (pos 100) v)
      (record { field = "value"; message = "must be between 1 and 100 for percent coupons" })
validate_value DiscountType.fixed v =
    fail_if (leb_ℤ v (pos 0))
      (record { field = "value"; message = "must be > 0 for fixed coupons" })
validate_value (DiscountType.other s) v = ok tt

-- `limit != nil && *limit <= 0`.
abbrev pub bad_limit : Option ℤ → Bool
bad_limit none = false
bad_limit (some n) = leb_ℤ n (pos 0)

-- `starts != nil && ends != nil && !starts.Before(*ends)`.
abbrev pub bad_period : Option ℕ → Option ℕ → Bool
bad_period (some s) (some e) = leb e s
bad_period _ _ = false

abbrev pub get_or {ℓ} : {A : Type ℓ} → Option A → A → A
get_or none d = d
get_or (some a) d = a

-- `ValidateCreateInput`.
unfoldable pub validate_create_input : CreateInput → Result Invalid CreateInput
unfolding validate_value normalize_code
validate_create_input i = do
  let code = normalize_code i.code
  fail_if (is_empty code) (record { field = "code"; message = "is required" })
  fail_if (ltb 64 (byte_len code)) (record { field = "code"; message = "is too long" })
  fail_if (not (is_known_type i.discount_type))
      (record { field = "discount_type"; message = "must be percent or fixed" })
  validate_value i.discount_type i.value
  fail_if (ltb_ℤ i.min_order_amount (pos 0))
      (record { field = "min_order_amount"; message = "must be >= 0" })
  fail_if (bad_limit i.usage_limit)
      (record { field = "usage_limit"; message = "must be > 0 when provided" })
  fail_if (bad_limit i.per_user_limit)
      (record { field = "per_user_limit"; message = "must be > 0 when provided" })
  fail_if (bad_period i.starts_at i.ends_at)
      (record { field = "starts_at"; message = "must be before ends_at" })
  ok (record i { code = code; is_active = some (get_or i.is_active true) })

-- The first half of `ApplyUpdate`: the provided fields over the existing ones.
unfoldable pub merge_update : Coupon → UpdateInput → Coupon
unfolding normalize_code
merge_update c i = record c {
  code = elim i.code [ none ↦ c.code | some s ↦ normalize_code s ];
  discount_type = get_or i.discount_type c.discount_type;
  value = get_or i.value c.value;
  min_order_amount = get_or i.min_order_amount c.min_order_amount;
  usage_limit = (if i.has_usage_limit then i.usage_limit else c.usage_limit);
  per_user_limit = (if i.has_per_user_limit then i.per_user_limit else c.per_user_limit);
  starts_at = (if i.has_starts_at then i.starts_at else c.starts_at);
  ends_at = (if i.has_ends_at then i.ends_at else c.ends_at);
  is_active = get_or i.is_active c.is_active;
}

-- The second half: the checks on the merged coupon.
unfoldable pub validate_merged : Coupon → Result Invalid Coupon
unfolding validate_value
validate_merged r = do
  fail_if (is_empty r.code) (record { field = "code"; message = "is required" })
  fail_if (ltb 64 (byte_len r.code)) (record { field = "code"; message = "is too long" })
  fail_if (not (is_known_type r.discount_type))
      (record { field = "discount_type"; message = "must be percent or fixed" })
  validate_value r.discount_type r.value
  fail_if (ltb_ℤ r.min_order_amount (pos 0))
      (record { field = "min_order_amount"; message = "must be >= 0" })
  fail_if (bad_limit r.usage_limit)
      (record { field = "usage_limit"; message = "must be > 0 when provided" })
  fail_if (bad_limit r.per_user_limit)
      (record { field = "per_user_limit"; message = "must be > 0 when provided" })
  fail_if (bad_period r.starts_at r.ends_at)
      (record { field = "starts_at"; message = "must be before ends_at" })
  ok r

unfoldable pub apply_update : Coupon → UpdateInput → Result Invalid Coupon
unfolding merge_update validate_merged
apply_update c i = validate_merged (merge_update c i)

-- The discount before it is capped.
abbrev pub raw_discount : DiscountType → ℤ → ℤ → ℤ
raw_discount DiscountType.percent v subtotal = (subtotal *ℤ v) /ℤ 100
raw_discount DiscountType.fixed v subtotal = v
raw_discount (DiscountType.other s) v subtotal = pos 0

-- `CalculateDiscount`.
unfoldable pub calculate_discount : DiscountType → ℤ → ℤ → ℤ
calculate_discount t v subtotal =
    if leb_ℤ subtotal (pos 0)
    then pos 0
    else let d = raw_discount t v subtotal in
      let capped = (if ltb_ℤ subtotal d then subtotal else d) in
      if not (is_known_type t) then pos 0 else if ltb_ℤ capped (pos 0) then pos 0 else capped

pub data Reason : Type 0 where
  not_found inactive not_started expired min_order usage_limit per_user_limit : Reason
  invalid_config code_required : Reason

abbrev not_yet : Option ℕ → ℕ → Bool
not_yet none now = false
not_yet (some s) now = ltb now s

abbrev over : Option ℕ → ℕ → Bool
over none now = false
over (some e) now = ltb e now

-- `CheckEligibility`: the first reason for refusing the coupon.
unfoldable pub check_eligibility : Coupon → ℤ → ℕ → Option Reason
check_eligibility c subtotal now =
    if not c.is_active
    then some Reason.inactive
    else if not_yet c.starts_at now
    then some Reason.not_started
    else if over c.ends_at now
    then some Reason.expired
    else if ltb_ℤ subtotal c.min_order_amount
    then some Reason.min_order
    else if not (is_known_type c.discount_type)
    then some Reason.invalid_config
    else if is_percent c.discount_type && (ltb_ℤ c.value (pos 1) || ltb_ℤ (pos 100) c.value)
    then some Reason.invalid_config
    else if is_fixed c.discount_type && leb_ℤ c.value (pos 0)
    then some Reason.invalid_config
    else none
