-- ===== src/Order/Conservation/Expiry.antt =====
-- The conservation of units by a run of the expiry over many orders.
use plant_shop.Order.Model.{Order, Status, is_pending, is_cancelled}
use plant_shop.Order.Conservation.{Linked}
use plant_shop.Order.Conservation.Cancelling.{
  Conserves, give_back-GivenBack, move-Moved, Cancelling-Conserves,
}
use plant_shop.Order.Cancel.{
  give_back, move, set_status, entry_of, expire_one, expire_all, expiring, expire_reservations,
  is_expirable, is_earlier, payment_blocks_cancellation,
}
use plant_shop.Base.Sort.{All-take, sort_by, All-sort_by, IsKeyed-sort_by}
use plant_shop.Base.Keys.{
  IsKeyed, IsFound, others_ne, IsKeyed-select, IsKeyed-take, IsKeyed-IsFound,
}
use plant_shop.Store.{Store, Env, find_order, modify_order}
use mathlib.Core.Path.{subst}
use plant_shop.Base.{
  ℕ, ◌+◌, ◌≡◌, refl, sym, ap, ◌∙◌, ◌≢◌, ◌⊎◌, inl, inr, true, false, not, ◌&&◌, Bool, none, some,
  List, [], ◌∷◌, map, arith, Bool-cases, All, take, ok, >>=-eq-ok, Result-cases,
}
use plant_shop.Base.Table.{select, find, find-modify_ne, All-select}

-- A selected order that the run has not come to: it is found as it was selected, and not cancelled.
abbrev Waiting : List Order → Order → Type 0
Waiting os o = (find_order o.id os ≡ some o) × (is_cancelled o.status ≡ false)

abbrev order_id : Order → ℕ
order_id o = o.id

abbrev pub KeyedOrders : List Order → Type 0
KeyedOrders = IsKeyed order_id

-- The orders behind the one that a round cancels still wait.
Waiting-round :
    (id : ℕ) (os : List Order) (rest : List Order)
    → All (λ (o : Order). id ≢ o.id) rest
    → All (Waiting os) rest
    → All (Waiting (modify_order id (set_status Status.cancelled) os)) rest
Waiting-round id os [] n w = tt
Waiting-round id os (o ∷ rest) n w = (
  (
    (find-modify_ne order_id id o.id (set_status Status.cancelled) os (λ r. refl) n.0 ∙ w.0.0),
    w.0.1,
  ),
  Waiting-round id os rest n.1 w.1,
)

Conserves-refl : (s : Store) → Linked s.products s.orders → Conserves s s
Conserves-refl s l = record { same_units = λ j. refl; still_linked = l }

Conserves-trans : (s t u : Store) → Conserves s t → Conserves t u → Conserves s u
Conserves-trans s t u a b = record {
  same_units = λ j. b.same_units j ∙ a.same_units j;
  still_linked = b.still_linked;
}

-- One round: it conserves, and changes no order but its own.
record Round (o : Order) (s t : Store) : Type 0 where
  conserves : Conserves s t
  orders :
      (t.orders ≡ s.orders) ⊎ (t.orders ≡ modify_order o.id (set_status Status.cancelled) s.orders)

expire_one-Round :
    (env : Env) (o : Order) (s t : Store) (n : ℕ)
    → Linked s.products s.orders
    → Waiting s.orders o
    → expire_one env (entry_of o) s ≡ ok (t, n)
    → Round o s t
unfolding expire_one
expire_one-Round env o s t n l w h =
    elim (Bool-cases (payment_blocks_cancellation o.id o.payment_status s.attempts)) [
      | inl blocked ↦
          let same : t ≡ s = ground arith in
          record {
            conserves = subst (λ x. Conserves s x) (sym same) (Conserves-refl s l);
            orders = inl (rw same refl);
          }
      | inr free ↦ elim (Result-cases (give_back o.id s)) [
        | inr (e, bad) ↦ absurd (ground arith)
        | inl (u, given) ↦
            let moved : move env o.id Status.cancelled u ≡ ok t = ground arith in
            let g = give_back-GivenBack o.id s u given in
            let m = move-Moved env o.id Status.cancelled u t moved in
            record {
              conserves =
                  Cancelling-Conserves o.id o s u t l
                    (record { is_found = w.0; is_live = w.1; given = g; moved = m });
              orders = inr (
                  m.set_orders
                  ∙ ap (modify_order o.id (set_status Status.cancelled)) g.same_orders);
            }
      ]
    ]

Waiting-next :
    (o : Order) (s t : Store) (rest : List Order)
    → find order_id o.id rest ≡ none
    → All (Waiting s.orders) rest
    → Round o s t
    → All (Waiting t.orders) rest
Waiting-next o s t rest n w r = elim r.orders [
  | inl e ↦ rw e w
  | inr e ↦ rw e (Waiting-round o.id s.orders rest (others_ne order_id o.id rest n) w)
]

expire_all-Conserves :
    (env : Env) (os : List Order) (s t : Store) (k n : ℕ)
    → Linked s.products s.orders
    → KeyedOrders os
    → All (Waiting s.orders) os
    → expire_all env (map entry_of os) s k ≡ ok (t, n)
    → Conserves s t
unfolding expire_all
expire_all-Conserves env [] s t k n l d w h =
    subst (λ x. Conserves s x) (ground arith) (Conserves-refl s l)
expire_all-Conserves env (o ∷ os) s t k n l d w h =
    let (r, first, rest) =
      >>=-eq-ok (expire_one env (entry_of o) s)
        (λ r. expire_all env (map entry_of os) r.0 (k + r.1)) h in
    let round = expire_one-Round env o s r.0 r.1 l w.0 first in
    Conserves-trans s r.0 t round.conserves (
      expire_all-Conserves env os r.0 t (k + r.1) n round.conserves.still_linked d.1
        (Waiting-next o s r.0 os d.0 w.1 round) rest)

expirable-live :
    (cutoff : ℕ) (s : Store) (o : Order)
    → is_expirable cutoff s.attempts o ≡ true
    → is_cancelled o.status ≡ false
unfolding is_expirable is_pending is_cancelled
expirable-live cutoff s o h = ground arith

selected-Waiting :
    (is_locked : Order → Bool) (cutoff : ℕ) (s : Store) (os : List Order)
    → All (IsFound order_id s.orders) os
    → All
        (Waiting s.orders)
        (select (λ (o : Order). is_expirable cutoff s.attempts o && not (is_locked o)) os)
selected-Waiting is_locked cutoff s os h =
    All-select (IsFound order_id s.orders) (Waiting s.orders)
      (λ (o : Order). is_expirable cutoff s.attempts o && not (is_locked o)) os
      (λ o f p. (f, expirable-live cutoff s o (ground arith))) h

-- A run of the expiry that succeeds conserves the units of every product, however many orders it
-- cancels, and keeps every ordered item a product of the table, if the orders have distinct ids
-- and every ordered item was one before.
pub expire_reservations-Conserves :
    (env : Env) (is_locked : Order → Bool) (cutoff : ℕ) (s t : Store) (n : ℕ)
    → KeyedOrders s.orders
    → Linked s.products s.orders
    → expire_reservations env is_locked cutoff s ≡ ok (t, n)
    → Conserves s t
unfolding expire_reservations expiring
expire_reservations-Conserves env is_locked cutoff s t n d l h =
    let free = λ (o : Order). is_expirable cutoff s.attempts o && not (is_locked o) in
    let chosen = select free s.orders in
    let ordered = sort_by is_earlier chosen in
    expire_all-Conserves env (take 20 ordered) s t 0 n l
      (IsKeyed-take order_id 20 ordered
        (IsKeyed-sort_by order_id is_earlier chosen (IsKeyed-select order_id free s.orders d)))
      (All-take (Waiting s.orders) 20 ordered (
        All-sort_by is_earlier (Waiting s.orders) chosen
          (selected-Waiting is_locked cutoff s s.orders (IsKeyed-IsFound order_id s.orders d))))
      h
