-- ===== src/System/Orders/Expiry.antt =====
-- A run of the expiry changes orders soundly.
use plant_shop.Order.Model.{Order, Status, is_paid, is_refunded, is_unpaid}
use plant_shop.Order.Cancel.{
  set_status, payment_blocks_cancellation, give_back, move, is_expirable, is_earlier, entry_of,
  expire_one, expire_all, expiring, expire_reservations,
}
use plant_shop.Store.{Store, Env, find_order, modify_order}
use plant_shop.System.Orders.{Change, kept, both}
use plant_shop.System.Orders.Shop.{give_back-same, move-tables, move-Change}
use plant_shop.Base.Keys.{IsKeyed, IsFound, IsKeyed-IsFound}
use plant_shop.Base.Sort.{All-take, sort_by, All-sort_by}
use plant_shop.Base.{
  ℕ, ◌+◌, ◌≡◌, refl, ◌∙◌, inl, inr, true, false, not, ◌&&◌, Bool, ◌||◌, some, List, [], ◌∷◌, map,
  arith, ◌==◌, Bool-cases, All, take, ok, >>=-eq-ok, Result-cases,
}
use plant_shop.Base.Table.{select, find_key, find-modify_self, find-modify_ne, All-select}

-- A selected order is there, unpaid, with the status that the loop has read.
record Waiting (os : List Order) (o : Order) : Type 0 where
  row : Order
  found : find_order o.id os ≡ some row
  unpaid : is_paid row.payment_status || is_refunded row.payment_status ≡ false

Waiting-set_status :
    (os : List Order) (id : ℕ) (st : Status) (o : Order)
    → Waiting os o
    → Waiting (modify_order id (set_status st) os) o
Waiting-set_status os id st o w =
    let key = λ (o : Order). o.id in
    elim (Bool-cases (id == o.id)) [
      | inl e ↦
          let same : id ≡ o.id = ground arith in
          record {
            row = set_status st w.row;
            found = rw same (
                find-modify_self key o.id (set_status st) os w.row
                  (find_key key o.id os w.row w.found) w.found);
            unpaid = w.unpaid;
          }
      | inr e ↦ record {
        row = w.row;
        found = find-modify_ne key id o.id (set_status st) os (λ r. refl) (ground arith) ∙ w.found;
        unpaid = w.unpaid;
      }
    ]

All-Waiting :
    (os rest : List Order) (id : ℕ) (st : Status)
    → All (Waiting os) rest
    → All (Waiting (modify_order id (set_status st) os)) rest
All-Waiting os [] id st h = tt
All-Waiting os (o ∷ rest) id st h =
    (Waiting-set_status os id st o h.0, All-Waiting os rest id st h.1)

-- One round, and that the others still wait.
record Round (s t : Store) : Type 0 where
  change : Change s t
  still : (rest : List Order) → All (Waiting s.orders) rest → All (Waiting t.orders) rest

expire_one-Round :
    (env : Env) (o : Order) (s t : Store) (n : ℕ)
    → Waiting s.orders o
    → expire_one env (entry_of o) s ≡ ok (t, n)
    → Round s t
unfolding expire_one
expire_one-Round env o s t n w h =
    elim (Bool-cases (payment_blocks_cancellation o.id o.payment_status s.attempts)) [
      | inl blocked ↦
          let same : s ≡ t = ground arith in
          rw (← same) (record { change = kept refl refl; still = λ rest k. k })
      | inr free ↦ elim (Result-cases (give_back o.id s)) [
        | inr (e, bad) ↦ absurd (ground arith)
        | inl (u, given) ↦
            let moved : move env o.id Status.cancelled u ≡ ok t = ground arith in
            let (os, m) = give_back-same o.id s u given in
            let (ot, k) = move-tables env o.id Status.cancelled u t moved in
            record {
              change = both (kept os m) (
                  move-Change env o.id Status.cancelled w.row u t (rw os w.found) (λ c. w.unpaid)
                    moved);
              still = λ rest a. rw (ot, os) (All-Waiting s.orders rest o.id Status.cancelled a);
            }
      ]
    ]

expire_all-Change :
    (env : Env) (os : List Order) (s t : Store) (k n : ℕ)
    → All (Waiting s.orders) os
    → expire_all env (map entry_of os) s k ≡ ok (t, n)
    → Change s t
unfolding expire_all
expire_all-Change env [] s t k n w h = kept (ground arith) (ground arith)
expire_all-Change env (o ∷ os) s t k n w h =
    let (r, first, rest) =
      >>=-eq-ok (expire_one env (entry_of o) s)
        (λ r. expire_all env (map entry_of os) r.0 (k + r.1)) h in
    let round = expire_one-Round env o s r.0 r.1 w.0 first in
    both round.change (expire_all-Change env os r.0 t (k + r.1) n (round.still os w.1) rest)

expirable-unpaid :
    (cutoff : ℕ) (s : Store) (o : Order)
    → is_expirable cutoff s.attempts o ≡ true
    → is_paid o.payment_status || is_refunded o.payment_status ≡ false
unfolding is_expirable is_unpaid is_paid is_refunded
expirable-unpaid cutoff s o h = ground arith

pub expire_reservations-Change :
    (env : Env) (is_locked : Order → Bool) (cutoff : ℕ) (s t : Store) (n : ℕ)
    → IsKeyed (λ (o : Order). o.id) s.orders
    → expire_reservations env is_locked cutoff s ≡ ok (t, n)
    → Change s t
unfolding expire_reservations expiring
expire_reservations-Change env is_locked cutoff s t n d h =
    let key = λ (o : Order). o.id in
    let free = λ (o : Order). is_expirable cutoff s.attempts o && not (is_locked o) in
    let chosen = select free s.orders in
    let waiting =
      All-select (IsFound key s.orders) (Waiting s.orders) free s.orders
        (λ o f p. record {
          row = o;
          found = f;
          unpaid = expirable-unpaid cutoff s o (ground arith);
        })
        (IsKeyed-IsFound key s.orders d) in
    expire_all-Change env (take 20 (sort_by is_earlier chosen)) s t 0 n
      (All-take (Waiting s.orders) 20 (sort_by is_earlier chosen)
        (All-sort_by is_earlier (Waiting s.orders) chosen waiting))
      h
