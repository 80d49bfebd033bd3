-- ===== src/Payment/Handler/Checks.antt =====
-- Without the gateway's confirmation, neither an administrator's check nor the periodic task changes
-- an order.
use plant_shop.Payment.Model.{Attempt, is_pending}
use plant_shop.Payment.Repository.{mark_attempt_failed, expire_rejected}
use plant_shop.Payment.Settlement.{VerifyResult}
use plant_shop.Payment.Reconciliation.{Reconciliation, get_reconciliation}
use plant_shop.Payment.Gateway.{
  Gateway, Client, ClientError, VerifyPaymentInput, VerifyPaymentOutput,
}
use plant_shop.Payment.Handler.{
  is_verified, rejection_code, settle_answer, verify_again, check_item, reconcile_payment,
  reconciliation_availability, or_keep, is_rejected, expire_attempt, expire_each, expire_abandoned,
}
use plant_shop.Payment.Handler.Outcomes.{finalize_failed-same_orders}
use plant_shop.Store.{Store, Env}
use plant_shop.Base.{
  ℕ, ◌≡◌, refl, ◌∙◌, inl, inr, Bool, false, not, ◌||◌, Option, none, some, List, [], ◌∷◌, arith,
  Bool-cases, Option-cases, is_some, Result, ok, err, Result-cases,
}
use plant_shop.Base.Int.{ℤ}
use plant_shop.Text.{Text}

-- The gateway confirms no payment.
abbrev pub ConfirmsNothing : Gateway → Type 0
ConfirmsNothing g =
    (c : Client) (i : VerifyPaymentInput)
    → g.client ≡ some c
    → is_verified (c.verify_payment i) ≡ false

settle_answer-orders :
    (env : Env) (authority : Text) (answer : Result ClientError VerifyPaymentOutput) (s : Store)
    (v : VerifyResult) (t : Store)
    → is_verified answer ≡ false
    → settle_answer env authority answer s ≡ ok (v, t)
    → t.orders ≡ s.orders
unfolding settle_answer
settle_answer-orders env authority (err e) s v t b h =
    finalize_failed-same_orders env authority _ s v t h
settle_answer-orders env authority (ok out) s v t b h =
    finalize_failed-same_orders env authority (rejection_code (ok out)) s v t (ground arith)

verify_again-orders :
    (g : Gateway) (env : Env) (c : Client) (id : ℕ) (a : Attempt) (authority : Text) (s : Store)
    → is_verified (c.verify_payment (record { authority = authority; amount = a.amount })) ≡ false
    → (verify_again g env c id a authority s).1.orders ≡ s.orders
unfolding verify_again
verify_again-orders g env c id a authority s b =
    let answer = c.verify_payment (record { authority = authority; amount = a.amount }) in
    elim (Result-cases (settle_answer env authority answer s)) [
      | inr (x, e) ↦ rw (verify_again, e) refl
      | inl ((v, t), e) ↦
          let same = settle_answer-orders env authority answer s v t b e in
          elim (Result-cases (get_reconciliation env id t)) [
            | inl (item, f) ↦ rw (verify_again, e, f) same
            | inr (x, f) ↦ rw (verify_again, e, f) same
          ]
    ]

check_item-orders :
    (g : Gateway) (env : Env) (id : ℕ) (item : Reconciliation) (s : Store)
    → ConfirmsNothing g
    → (check_item g env id item s).1.orders ≡ s.orders
unfolding check_item
check_item-orders g env id item s never = elim (Bool-cases item.retryable) [
  | inr b ↦ rw (check_item, b) refl
  | inl b ↦ elim (Option-cases g.client) [
    | inl n ↦ rw (check_item, b, n) refl
    | inr (c, n) ↦
        let no = λ (i : VerifyPaymentInput). never c i n in
        elim (Option-cases item.attempt.authority) [
          | inl a ↦ rw (check_item, b, n, a) refl
          | inr (t, a) ↦
              rw (check_item, b, n, a) (verify_again-orders g env c id item.attempt t s (no _))
        ]
  ]
]

pub reconcile_payment-orders :
    (g : Gateway) (env : Env) (id : ℕ) (s : Store)
    → ConfirmsNothing g
    → (reconcile_payment g env id s).1.orders ≡ s.orders
unfolding reconcile_payment
reconcile_payment-orders g env id s never = elim (Result-cases (get_reconciliation env id s)) [
  | inr (x, e) ↦ rw (reconcile_payment, e) refl
  | inl (found, e) ↦
      rw (reconcile_payment, e)
        (check_item-orders g env id (reconciliation_availability g found) s never)
]

mark_attempt_failed-orders :
    (env : Env) (id : ℕ) (code : Option ℤ) (s : Store)
    → (or_keep s (mark_attempt_failed env id code s)).orders ≡ s.orders
unfolding mark_attempt_failed
mark_attempt_failed-orders env id code s = elim (Result-cases (mark_attempt_failed env id code s)) [
  | inr (x, e) ↦ rw (or_keep, e) refl
  | inl (t, e) ↦ rw (or_keep, e) (ground arith)
]

expire_rejected-orders :
    (env : Env) (id cutoff : ℕ) (s : Store)
    → (or_keep s (expire_rejected env id cutoff s)).orders ≡ s.orders
unfolding expire_rejected
expire_rejected-orders env id cutoff s = elim (Result-cases (expire_rejected env id cutoff s)) [
  | inr (x, e) ↦ rw (or_keep, e) refl
  | inl (t, e) ↦ rw (or_keep, e) (ground arith)
]

expire_attempt-orders :
    (g : Gateway) (env : Env) (cutoff id : ℕ) (item : Reconciliation) (s : Store)
    → ConfirmsNothing g
    → (expire_attempt g env cutoff id item s).orders ≡ s.orders
unfolding expire_attempt
expire_attempt-orders g env cutoff id item s never = elim (Option-cases item.attempt.authority) [
  | inl n ↦ elim (Bool-cases (is_pending item.attempt.status)) [
    | inl p ↦ rw (expire_attempt, n, p) (mark_attempt_failed-orders env id none s)
    | inr p ↦ rw (expire_attempt, n, p) refl
  ]
  | inr (t, n) ↦ elim (Bool-cases (not (is_some g.client) || not item.retryable)) [
    | inl b ↦ rw (expire_attempt, n, b) refl
    | inr b ↦
        let same = reconcile_payment-orders g env id s never in
        let (checked, u) = reconcile_payment g env id s in
        elim (Result-cases (reconcile_payment g env id s).0) [
          | inr (x, e) ↦ rw (expire_attempt, n, b, e) same
          | inl (after, e) ↦ elim (Bool-cases (is_rejected after)) [
            | inl r ↦
                rw (expire_attempt, n, b, e, r) (expire_rejected-orders env id cutoff u ∙ same)
            | inr r ↦ rw (expire_attempt, n, b, e, r) same
          ]
        ]
  ]
]

expire_each-orders :
    (g : Gateway) (env : Env) (cutoff : ℕ) (rows : List Attempt) (s : Store)
    → ConfirmsNothing g
    → (expire_each g env cutoff rows s).orders ≡ s.orders
unfolding expire_each
expire_each-orders g env cutoff [] s never = refl
expire_each-orders g env cutoff (a ∷ rows) s never =
    elim (Result-cases (get_reconciliation env a.id s)) [
      | inr (x, e) ↦ rw (expire_each, e) refl
      | inl (item, e) ↦
          rw (expire_each, e)
            (expire_each-orders g env cutoff rows (expire_attempt g env cutoff a.id item s) never
              ∙ expire_attempt-orders g env cutoff a.id item s never)
    ]

-- With a gateway that confirms no payment, or without one, the expiry of abandoned attempts leaves
-- all orders as they are.
pub expire_abandoned-orders :
    (g : Gateway) (env : Env) (is_earlier : Attempt → Attempt → Bool) (cutoff : ℕ) (s : Store)
    → ConfirmsNothing g
    → (expire_abandoned g env is_earlier cutoff s).orders ≡ s.orders
unfolding expire_abandoned
expire_abandoned-orders g env is_earlier cutoff s never = expire_each-orders g env cutoff _ s never
