-- ===== src/Payment/Settlement/Safety.antt =====
-- What the settlement of a payment does to its order, and that a repeated callback does nothing.
use mathlib.Core.Path.{subst}
use plant_shop.Order.Model.{Order, is_unpaid}
use plant_shop.Payment.Model.{Attempt, AttemptStatus, is_settled}
use plant_shop.Payment.Repository.{lock_payment_attempt, lock_payment_authority}
use plant_shop.Payment.Settlement.{
  VerifyResult, conflicts, is_open, must_reconcile, set_paid, pay_order, settle_attempt,
  finalize_verified_payment,
}
use plant_shop.Notification.Outbox.{notify-SameButOutbox}
use plant_shop.Store.{Store, Env, find_order, modify_order}
use plant_shop.Base.{
  ℕ, ◌≡◌, refl, ◌⊎◌, inl, inr, Bool, true, false, some, arith, ◌==◌, ==_iff, Bool-cases, ok,
  Result-cases,
}
use plant_shop.Base.Int.{ℤ, pos, ltb_ℤ, eq_of_eq_ℤ}
use plant_shop.Base.Table.{exists?, find_key, find-modify_self, find-modify_ne}
use plant_shop.Text.{Text}

-- Every outcome of a successful call: an earlier one has settled the attempt, or this one pays the
-- order, or it puts the attempt aside.
pub data Settlement (s t : Store) (v : VerifyResult) : Type 0 where
  repeated : t ≡ s → v.already_settled ≡ true → is_settled v.final_status ≡ true → Settlement s t v
  pays :
      (o : Order) (a : Attempt) (ref : ℤ)
      → find_order a.order_id s.orders ≡ some o
      → must_reconcile o a (exists? (conflicts a ref) s.attempts) ≡ false
      → v.final_status ≡ AttemptStatus.paid
      → v.order_id ≡ a.order_id
      → t.orders ≡ modify_order a.order_id set_paid s.orders
      → Settlement s t v
  put_aside : v.final_status ≡ AttemptStatus.reconciliation → t.orders ≡ s.orders → Settlement s t v

pub settle_attempt-paid :
    (env : Env) (o : Order) (a : Attempt) (ref code : ℤ) (s : Store) (v : VerifyResult) (t : Store)
    → must_reconcile o a (exists? (conflicts a ref) s.attempts) ≡ false
    → settle_attempt env o a ref code s ≡ ok (v, t)
    → (v.final_status ≡ AttemptStatus.paid)
      × (v.order_id ≡ a.order_id)
      × (t.orders ≡ modify_order a.order_id set_paid s.orders)
unfolding settle_attempt pay_order
settle_attempt-paid env o a ref code s v t m h =
    (ground arith, ground arith, grind (arith, notify-SameButOutbox))

pub settle_attempt-put_aside :
    (env : Env) (o : Order) (a : Attempt) (ref code : ℤ) (s : Store) (v : VerifyResult) (t : Store)
    → must_reconcile o a (exists? (conflicts a ref) s.attempts) ≡ true
    → settle_attempt env o a ref code s ≡ ok (v, t)
    → (v.final_status ≡ AttemptStatus.reconciliation) × (t.orders ≡ s.orders)
unfolding settle_attempt pay_order
settle_attempt-put_aside env o a ref code s v t m h = (ground arith, ground arith)

lock-order :
    (authority : Text) (s : Store) (o : Order) (a : Attempt)
    → lock_payment_authority authority s ≡ ok (o, a)
    → find_order a.order_id s.orders ≡ some o
unfolding lock_payment_authority lock_payment_attempt
lock-order authority s o a h = ground arith

Settlement-of :
    (env : Env) (o : Order) (a : Attempt) (ref code : ℤ) (s : Store) (v : VerifyResult) (t : Store)
    → find_order a.order_id s.orders ≡ some o
    → settle_attempt env o a ref code s ≡ ok (v, t)
    → Settlement s t v
Settlement-of env o a ref code s v t f h =
    elim (Bool-cases (must_reconcile o a (exists? (conflicts a ref) s.attempts))) [
      | inl m ↦
          let (st, os) = settle_attempt-put_aside env o a ref code s v t m h in put_aside st os
      | inr m ↦
          let (st, id, os) = settle_attempt-paid env o a ref code s v t m h in
          pays o a ref f m st id os
    ]

-- A successful call has found the attempt, and settles it unless an earlier call has.
pub finalize-steps :
    (env : Env) (authority : Text) (ref code : ℤ) (s : Store) (r : VerifyResult × Store)
    → finalize_verified_payment env authority ref code s ≡ ok r
    → (o : Order) × (a : Attempt) × (lock_payment_authority authority s ≡ ok (o, a))
      × (((is_settled a.status ≡ true)
            × (r ≡ (
              record { order_id = a.order_id; already_settled = true; final_status = a.status },
              s,
            )))
          ⊎ (settle_attempt env o a ref code s ≡ ok r))
unfolding finalize_verified_payment
finalize-steps env authority ref code s r h =
    elim (Result-cases (lock_payment_authority authority s)) [
      | inl ((o, a), e) ↦ elim (Bool-cases (is_settled a.status)) [
        | inl b ↦ (o, a, e, inl (b, ground arith))
        | inr b ↦ (o, a, e, inr (ground arith))
      ]
      | inr (x, e) ↦ ground arith
    ]

pub finalize-Settlement :
    (env : Env) (authority : Text) (ref code : ℤ) (s : Store) (v : VerifyResult) (t : Store)
    → finalize_verified_payment env authority ref code s ≡ ok (v, t)
    → Settlement s t v
finalize-Settlement env authority ref code s v t h =
    let (o, a, e, c) = finalize-steps env authority ref code s (v, t) h in
    elim c [
      | inl (b, p) ↦ repeated (ground arith) (ground arith) (ground arith)
      | inr p ↦ Settlement-of env o a ref code s v t (lock-order authority s o a e) p
    ]

must_reconcile-open :
    (o : Order) (a : Attempt) (c : Bool)
    → must_reconcile o a c ≡ false
    → (is_open o.status ≡ true)
      × (is_unpaid o.payment_status ≡ true)
      × (o.total ≡ a.amount)
      × (ltb_ℤ a.amount (pos 10000) ≡ false)
      × (c ≡ false)
unfolding must_reconcile
must_reconcile-open o a c h = (
  ground arith,
  ground arith,
  eq_of_eq_ℤ o.total a.amount (ground arith),
  ground arith,
  ground arith,
)

-- What a payment leaves of the order it finds: the order as it was, or the order paid.
abbrev pub Touched : ℕ → Order → Store → Type 0
Touched id o t =
    (find_order id t.orders ≡ some o)
    ⊎ ((find_order id t.orders ≡ some (set_paid o))
        × (is_open o.status ≡ true)
        × (is_unpaid o.payment_status ≡ true)
        × (ltb_ℤ o.total (pos 10000) ≡ false))

paid_row :
    (id : ℕ) (s t : Store) (o p : Order) (a : Attempt) (c : Bool)
    → find_order id s.orders ≡ some p
    → p ≡ o
    → a.order_id ≡ id
    → must_reconcile p a c ≡ false
    → t.orders ≡ modify_order a.order_id set_paid s.orders
    → Touched id o t
paid_row id s t o p a c f same j m q =
    let (st, up, total, enough, _) = must_reconcile-open p a c m in
    subst (λ o. Touched id o t) same
      (inr (
        rw (q, j)
            (find-modify_self (λ (o : Order). o.id) id set_paid s.orders p
              (find_key (λ (o : Order). o.id) id s.orders p f) f),
        st,
        up,
        rw total enough,
      ))

paid-Touched :
    (id : ℕ) (s t : Store) (o p : Order) (a : Attempt) (c : Bool)
    → find_order id s.orders ≡ some o
    → find_order a.order_id s.orders ≡ some p
    → must_reconcile p a c ≡ false
    → t.orders ≡ modify_order a.order_id set_paid s.orders
    → Touched id o t
paid-Touched id s t o p a c e f m q = elim (Bool-cases (a.order_id == id)) [
  | inl k ↦
      let j : a.order_id ≡ id = (==_iff a.order_id id).0 k in
      let f' : find_order id s.orders ≡ some p = subst (λ i. find_order i s.orders ≡ some p) j f in
      let same : p ≡ o = ground arith in paid_row id s t o p a c f' same j m q
  | inr k ↦ inl (
      rw
        (
          q,
          find-modify_ne (λ (o : Order). o.id) a.order_id id set_paid s.orders (λ r. refl)
              (ground arith),
        )
        e)
]

-- After a verified payment that is finalized without an error, an order of the store is as it was,
-- or it is marked as paid, and then it was pending, processing or shipped, it was unpaid, and its
-- total is at least 10000.
pub pays_only_open :
    (env : Env) (authority : Text) (ref code : ℤ) (s : Store) (v : VerifyResult) (t : Store)
    (id : ℕ) (o : Order)
    → finalize_verified_payment env authority ref code s ≡ ok (v, t)
    → find_order id s.orders ≡ some o
    → Touched id o t
pays_only_open env authority ref code s v t id o h e =
    elim (finalize-Settlement env authority ref code s v t h) [
      | repeated p q r ↦ inl (rw p e)
      | put_aside p q ↦ inl (rw q e)
      | pays o' a ref' f m p q r ↦
          paid-Touched id s t o o' a (exists? (conflicts a ref') s.attempts) e f m r
    ]
