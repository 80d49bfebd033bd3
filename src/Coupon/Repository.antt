-- ===== src/Coupon/Repository.antt =====
-- Coupons in the database (backend/internal/coupon/repository.go): the checks and the redemption of a
-- checkout, the preview, and the admin's writes.
pub mod Limits
use plant_shop.Coupon.Model.{
  Coupon, CreateInput, Reason, normalize_code, check_eligibility, calculate_discount, get_or,
}
use plant_shop.Store.{Store, Env, Redemption, DbError, constraint, find_coupon, modify_coupon}
use plant_shop.Base.{
  ◌>>◌, ◌>>=◌, ℕ, suc, ◌+◌, ◌-◌, ◌*◌, ◌/◌, Bool, true, false, not, ◌&&◌, Option, none, some, List,
  [], ◌∷◌, ◌++◌, ◌==◌, if◌then◌else◌, Result, ok, err, fail_if,
}
use plant_shop.Base.Int.{ℤ, pos, leb_ℤ}
use plant_shop.Base.Table.{exists?, count, select_one, update_where}
use plant_shop.Text.{Text, text_eq, is_empty}

-- `WHERE UPPER(code) = UPPER($1)`.
unfoldable pub find_by_code : Env → Text → Store → Option Coupon
find_by_code env code s =
    select_one (λ (c : Coupon). text_eq (env.upper c.code) (env.upper code)) s.coupons

-- `coupon_id = $1 AND released_at IS NULL`.
abbrev pub redeems : ℕ → Redemption → Bool
redeems id r = r.coupon_id == id && not r.released

-- `coupon_id = $1 AND user_id = $2 AND released_at IS NULL`.
abbrev pub redeems_for : ℕ → ℕ → Redemption → Bool
redeems_for id user r = r.coupon_id == id && r.user_id == user && not r.released

unfoldable pub count_active_redemptions : ℕ → List Redemption → ℕ
count_active_redemptions id = count (redeems id)

unfoldable pub count_active_redemptions_for_user : ℕ → ℕ → List Redemption → ℕ
count_active_redemptions_for_user id user = count (redeems_for id user)

-- `limit != nil && count >= int64(*limit)`.
abbrev pub used_up : Option ℤ → ℕ → Bool
used_up none n = false
used_up (some l) n = leb_ℤ l (pos n)

-- `Eligible`, in the checkout's transaction.
unfoldable pub eligible : Env → Text → ℕ → ℤ → Store → Result Reason (Coupon × ℤ)
eligible env raw user subtotal s =
    let code = normalize_code raw in
    if is_empty code then err Reason.code_required else elim (find_by_code env code s) [
      | none ↦ err Reason.not_found
      | some c ↦ elim (check_eligibility c subtotal env.now) [
        | some r ↦ err r
        | none ↦
            if used_up c.usage_limit (count_active_redemptions c.id s.redemptions)
            then err Reason.usage_limit
            else if used_up c.per_user_limit
                (count_active_redemptions_for_user c.id user s.redemptions)
            then err Reason.per_user_limit
            else ok (c, calculate_discount c.discount_type c.value subtotal)
      ]
    ]

-- `EligiblePreview`: the same checks, outside any transaction.
unfoldable pub eligible_preview : Env → Text → ℕ → ℤ → Store → Result Reason (Coupon × ℤ)
eligible_preview env raw user subtotal s = do
  let code = normalize_code raw
  fail_if (is_empty code) Reason.code_required
  c ← elim (find_by_code env code s) [ none ↦ err Reason.not_found | some c ↦ ok c ]
  elim (check_eligibility c subtotal env.now) [ some r ↦ err r | none ↦ ok tt ]
  fail_if (used_up c.usage_limit (count (redeems c.id) s.redemptions)) Reason.usage_limit
  fail_if (used_up c.per_user_limit (count (redeems_for c.id user) s.redemptions))
      Reason.per_user_limit
  ok (c, calculate_discount c.discount_type c.value subtotal)

-- `InsertRedemption`: order_id is UNIQUE.
unfoldable pub insert_redemption : ℕ → ℕ → ℕ → List Redemption → Result DbError (List Redemption)
insert_redemption coupon user order rs =
    if exists? (λ (r : Redemption). r.order_id == order) rs
    then err constraint
    else ok (
        rs
        ++ record { coupon_id = coupon; user_id = user; order_id = order; released = false } ∷ [])

abbrev pub held_by : ℕ → Redemption → Bool
held_by order r = r.order_id == order && not r.released

abbrev pub release : Redemption → Redemption
release r = record r { released = true }

-- `ReleaseRedemptionForOrder`, with the number of rows that it updates.
unfoldable pub release_redemption_for_order : ℕ → List Redemption → List Redemption × ℕ
release_redemption_for_order order rs =
    (update_where (held_by order) release rs, count (held_by order) rs)

pub data RepositoryError : Type 0 where
  not_found duplicate_code : RepositoryError

-- `Repository.Create`, on a validated input.
unfoldable pub create : Env → CreateInput → Store → Result RepositoryError (Coupon × Store)
create env i s =
    if exists? (λ (c : Coupon). text_eq (env.upper c.code) (env.upper i.code)) s.coupons
    then err RepositoryError.duplicate_code
    else let c : Coupon = record {
      id = s.next_coupon;
      code = i.code;
      discount_type = i.discount_type;
      value = i.value;
      min_order_amount = i.min_order_amount;
      usage_limit = i.usage_limit;
      per_user_limit = i.per_user_limit;
      starts_at = i.starts_at;
      ends_at = i.ends_at;
      is_active = get_or i.is_active false;
    } in
      ok (c, record s { coupons = s.coupons ++ c ∷ []; next_coupon = suc s.next_coupon })

-- `Repository.Update`, on the result of `ApplyUpdate`.
unfoldable pub update : Env → ℕ → Coupon → Store → Result RepositoryError (Coupon × Store)
update env id u s = elim (find_coupon id s.coupons) [
  | none ↦ err RepositoryError.not_found
  | some old ↦
      if exists? (λ (c : Coupon). not (c.id == id) && text_eq (env.upper c.code) (env.upper u.code))
        s.coupons
      then err RepositoryError.duplicate_code
      else let c : Coupon = record u { id = id } in
        ok (c, record s { coupons = modify_coupon id (λ _. c) s.coupons })
]
