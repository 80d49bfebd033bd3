-- ===== src/Coupon/Repository/Limits.antt =====
-- The usage limits: a redemption that passed the checks leaves the counts within the limits, and a
-- release frees its use once.
use plant_shop.Coupon.Model.{Coupon, normalize_code}
use plant_shop.Store.{Store, Env, Redemption, find_coupon}
use plant_shop.Coupon.Repository.{
  find_by_code, eligible, insert_redemption, count_active_redemptions,
  count_active_redemptions_for_user, release_redemption_for_order, redeems, redeems_for, held_by,
  release, used_up,
}
use plant_shop.Base.{
  ℕ, ◌+◌, ◌≤◌, ◌≡◌, refl, false, ◌&&◌, Option, none, some, List, [], ◌∷◌, ◌++◌, arith, ◌==◌,
  if◌then◌else◌, All, ok,
}
use plant_shop.Base.Int.{ℤ, pos, ◌≤ℤ◌}
use plant_shop.Base.Table.{count, update_where, count-append, All-select_one}
use plant_shop.Text.{Text, text_eq}

abbrev pub WithinLimit : ℕ → Option ℤ → Type 0
WithinLimit n none = Unit
WithinLimit n (some l) = pos n ≤ℤ l

-- Each row is the one found under its id: the primary key.
abbrev pub Keyed : List Coupon → Type 0
Keyed cs = All (λ (c : Coupon). find_coupon c.id cs ≡ some c) cs

-- No coupon is used more often than its limits permit.
pub record LimitsHold (cs : List Coupon) (rs : List Redemption) : Type 0 where
  pub usage :
      (id : ℕ) (c : Coupon)
      → find_coupon id cs ≡ some c
      → WithinLimit (count_active_redemptions id rs) c.usage_limit
  pub per_user :
      (id user : ℕ) (c : Coupon)
      → find_coupon id cs ≡ some c
      → WithinLimit (count_active_redemptions_for_user id user rs) c.per_user_limit

-- What `eligible` has checked of the coupon that it returns.
pub record Passed (env : Env) (raw : Text) (user : ℕ) (s : Store) (c : Coupon) : Type 0 where
  pub found : find_by_code env (normalize_code raw) s ≡ some c
  pub has_use : used_up c.usage_limit (count_active_redemptions c.id s.redemptions) ≡ false
  pub has_user_use :
      used_up c.per_user_limit (count_active_redemptions_for_user c.id user s.redemptions) ≡ false

pub eligible-Passed :
    (env : Env) (raw : Text) (user : ℕ) (subtotal d : ℤ) (s : Store) (c : Coupon)
    → eligible env raw user subtotal s ≡ ok (c, d)
    → Passed env raw user s c
unfolding eligible
eligible-Passed env raw user subtotal d s c h = ground arith

find_by_code-found :
    (env : Env) (code : Text) (s : Store) (c : Coupon)
    → Keyed s.coupons
    → find_by_code env code s ≡ some c
    → find_coupon c.id s.coupons ≡ some c
unfolding find_by_code
find_by_code-found env code s c k h =
    All-select_one (λ (c : Coupon). find_coupon c.id s.coupons ≡ some c)
      (λ (c : Coupon). text_eq (env.upper c.code) (env.upper code)) s.coupons c k h

insert_redemption-appends :
    (id user order : ℕ) (rs ss : List Redemption)
    → insert_redemption id user order rs ≡ ok ss
    → ss ≡ rs ++ record { coupon_id = id; user_id = user; order_id = order; released = false } ∷ []
unfolding insert_redemption
insert_redemption-appends id user order rs ss h = ground arith

count-insert :
    (id user order j : ℕ) (rs ss : List Redemption)
    → insert_redemption id user order rs ≡ ok ss
    → count_active_redemptions j ss ≡ count_active_redemptions j rs + (if id == j then 1 else 0)
unfolding count_active_redemptions
count-insert id user order j rs ss h = rw (insert_redemption-appends id user order rs ss h) (
    ground (
      arith,
      count-append (redeems j) rs
          (record { coupon_id = id; user_id = user; order_id = order; released = false } ∷ []),
    ))

count_for_user-insert :
    (id user order j u : ℕ) (rs ss : List Redemption)
    → insert_redemption id user order rs ≡ ok ss
    → count_active_redemptions_for_user j u ss
      ≡ count_active_redemptions_for_user j u rs + (if id == j && user == u then 1 else 0)
unfolding count_active_redemptions_for_user
count_for_user-insert id user order j u rs ss h =
    rw (insert_redemption-appends id user order rs ss h) (
      ground (
        arith,
        count-append (redeems_for j u) rs
            (record { coupon_id = id; user_id = user; order_id = order; released = false } ∷ []),
      ))

-- A redemption of a coupon that passed the checks keeps every coupon within its limits.
pub insert_redemption-LimitsHold :
    (env : Env) (raw : Text) (user order : ℕ) (s : Store) (c : Coupon) (ss : List Redemption)
    → Keyed s.coupons
    → Passed env raw user s c
    → LimitsHold s.coupons s.redemptions
    → insert_redemption c.id user order s.redemptions ≡ ok ss
    → LimitsHold s.coupons ss
insert_redemption-LimitsHold env raw user order s c ss k p l h =
    let e = find_by_code-found env (normalize_code raw) s c k p.found in
    record {
      usage = λ id d f.
          ground (
            arith,
            e,
            l.usage id d f,
            p.has_use,
            count-insert c.id user order id s.redemptions ss h,
          );
      per_user = λ id u d f. ground (
        arith,
        e,
        l.per_user id u d f,
        p.has_user_use,
        count_for_user-insert c.id user order id u s.redemptions ss h,
      );
    }

count-release :
    (id order : ℕ) (rs : List Redemption)
    → count_active_redemptions id (update_where (held_by order) release rs)
      ≤ count_active_redemptions id rs
unfolding count_active_redemptions
count-release id order [] = omega arith
count-release id order (r ∷ rs) = ground (arith, count-release id order rs)

count_for_user-release :
    (id u order : ℕ) (rs : List Redemption)
    → count_active_redemptions_for_user id u (update_where (held_by order) release rs)
      ≤ count_active_redemptions_for_user id u rs
unfolding count_active_redemptions_for_user
count_for_user-release id u order [] = omega arith
count_for_user-release id u order (r ∷ rs) = ground (arith, count_for_user-release id u order rs)

WithinLimit-mono : (m n : ℕ) (l : Option ℤ) → m ≤ n → WithinLimit n l → WithinLimit m l
WithinLimit-mono m n none h w = tt
WithinLimit-mono m n (some l) h w = omega arith

-- A release keeps every coupon within its limits.
pub release-LimitsHold :
    (order : ℕ) (cs : List Coupon) (rs : List Redemption)
    → LimitsHold cs rs
    → LimitsHold cs (release_redemption_for_order order rs).0
unfolding release_redemption_for_order
release-LimitsHold order cs rs l = record {
  usage = λ id c f. WithinLimit-mono _ _ c.usage_limit (count-release id order rs) (l.usage id c f);
  per_user = λ id u c f.
      WithinLimit-mono _ _ c.per_user_limit (count_for_user-release id u order rs)
        (l.per_user id u c f);
}

none_held-release :
    (order : ℕ) (rs : List Redemption)
    → count (held_by order) (update_where (held_by order) release rs) ≡ 0
none_held-release order [] = refl
none_held-release order (r ∷ rs) = ground (arith, none_held-release order rs)

-- Releasing the redemption of an order a second time updates no row.
pub release_twice :
    (order : ℕ) (rs : List Redemption)
    → let (ss, n) = release_redemption_for_order order rs in
      (release_redemption_for_order order ss).1 ≡ 0
unfolding release_redemption_for_order
release_twice order rs = none_held-release order rs
