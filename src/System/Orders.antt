-- ===== src/System/Orders.antt =====
-- How the table of the orders may change, and what every such change keeps.
pub mod Shop
pub mod Expiry
pub mod Payments
pub mod Gateways
use plant_shop.Order.Model.{
  Order, Status, PaymentStatus, is_cancelled, is_paid, is_refunded, is_unpaid,
}
use plant_shop.Store.{Store, find_order, modify_order}
use plant_shop.Base.Keys.{IsKeyed, IsKeyed-append, IsKeyed-modify, Below, Below-suc, Below-modify}
use plant_shop.Base.{
  ℕ, zero, suc, ◌+◌, ◌-◌, ◌*◌, ◌/◌, ◌%◌, ◌^◌, ◌≤◌, ◌<◌, min, ◌≡◌, refl, sym, ap, ◌∙◌, ◌≢◌, ◌↔◌, ◌⊎◌,
  inl, inr, Bool, true, false, not, ◌&&◌, ◌||◌, Option, none, some, List, [], ◌∷◌, ◌++◌, map, arith,
  ltb, leb, ◌==◌, if◌then◌else◌, ==_iff, ==_refl, Bool-cases, Option-cases, is_some, All, length,
  take, Result, ok, err, ◌>>=◌, ◌>>◌, fail_if, >>=-eq-ok, fail_if-eq-ok, Result-cases,
}
use plant_shop.Base.Table.{
  exists?, count, select, select_one, update_where, sum_by, sum_by-append, count-append, find,
  modify, find_key, find-append_none, find-append_some, find-modify_self, find-modify-none,
  find-modify_ne, sum_by-modify, All-select_one, All-append, All-find, All-modify, All-select,
  count-no_row, count-modify, exists?-append, select_one-append_new, select_one-append_other,
  select_one-modify_other,
}

-- A cancelled order is neither paid nor refunded.
abbrev pub IsSound : Order → Type 0
IsSound o =
    is_cancelled o.status ≡ true → is_paid o.payment_status || is_refunded o.payment_status ≡ false

-- The orders have distinct ids below the next one, and none that is cancelled is paid or refunded.
pub record WellFormed (s : Store) : Type 0 where
  pub keyed : IsKeyed (λ (o : Order). o.id) s.orders
  pub below : Below (λ (o : Order). o.id) s.next_order s.orders
  pub sound : All IsSound s.orders

-- The orders of t are those of s, or one is added, or one is changed in a way that keeps it sound, or
-- several such changes follow one another.
pub data Change : Store → Store → Type 0 where
  kept : {s t : Store} → t.orders ≡ s.orders → t.next_order ≡ s.next_order → Change s t
  added :
      {s t : Store} (o : Order)
      → o.id ≡ s.next_order
      → IsSound o
      → t.orders ≡ s.orders ++ o ∷ []
      → t.next_order ≡ suc s.next_order
      → Change s t
  changed :
      {s t : Store} (id : ℕ) (f : Order → Order)
      → ((r : Order) → (f r).id ≡ r.id)
      → ((r : Order) → find_order id s.orders ≡ some r → IsSound r → IsSound (f r))
      → t.orders ≡ modify_order id f s.orders
      → t.next_order ≡ s.next_order
      → Change s t
  both : {s t u : Store} → Change s u → Change u t → Change s t

All-modify_found :
    (id : ℕ) (f : Order → Order) (os : List Order)
    → ((r : Order) → find_order id os ≡ some r → IsSound r → IsSound (f r))
    → All IsSound os
    → All IsSound (modify_order id f os)
All-modify_found id f [] step h = tt
All-modify_found id f (o ∷ os) step h = elim (Bool-cases (o.id == id)) [
  | inl e ↦ rw e (step o (rw e refl) h.0, h.1)
  | inr e ↦ rw e (h.0, All-modify_found id f os (λ r q. step r (rw e q)) h.1)
]

kept-WellFormed :
    (s t : Store) → t.orders ≡ s.orders → t.next_order ≡ s.next_order → WellFormed s → WellFormed t
kept-WellFormed s t e n w = record {
  keyed = rw e w.keyed;
  below = rw (e, n) w.below;
  sound = rw e w.sound;
}

added-WellFormed :
    (s t : Store) (o : Order)
    → o.id ≡ s.next_order
    → IsSound o
    → t.orders ≡ s.orders ++ o ∷ []
    → t.next_order ≡ suc s.next_order
    → WellFormed s
    → WellFormed t
added-WellFormed s t o i g e n w =
    let key = λ (o : Order). o.id in
    record {
      keyed = rw e (IsKeyed-append key s.next_order s.orders o w.below i w.keyed);
      below =
          rw (e, n)
            (All-append (λ (o : Order). o.id < suc s.next_order) s.orders (o ∷ [])
              (Below-suc key s.next_order s.orders w.below) (omega arith, tt));
      sound = rw e (All-append IsSound s.orders (o ∷ []) w.sound (g, tt));
    }

changed-WellFormed :
    (s t : Store) (id : ℕ) (f : Order → Order)
    → ((r : Order) → (f r).id ≡ r.id)
    → ((r : Order) → find_order id s.orders ≡ some r → IsSound r → IsSound (f r))
    → t.orders ≡ modify_order id f s.orders
    → t.next_order ≡ s.next_order
    → WellFormed s
    → WellFormed t
changed-WellFormed s t id f same step e n w =
    let key = λ (o : Order). o.id in
    record {
      keyed = rw e (IsKeyed-modify key f same id s.orders w.keyed);
      below = rw (e, n) (Below-modify key f same s.next_order id s.orders w.below);
      sound = rw e (All-modify_found id f s.orders step w.sound);
    }

pub Change-WellFormed : {s t : Store} → Change s t → WellFormed s → WellFormed t
Change-WellFormed (kept {s} {t} e n) w = kept-WellFormed s t e n w
Change-WellFormed (added {s} {t} o i g e n) w = added-WellFormed s t o i g e n w
Change-WellFormed (changed {s} {t} id f same step e n) w =
    changed-WellFormed s t id f same step e n w
Change-WellFormed (both a b) w = Change-WellFormed b (Change-WellFormed a w)
