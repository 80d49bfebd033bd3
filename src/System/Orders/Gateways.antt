-- ===== src/System/Orders/Gateways.antt =====
-- The payment handlers, which are sequences of those calls.
use plant_shop.Payment.Model.{Attempt, is_pending}
use plant_shop.Payment.Repository.{
  create_attempt_for_order, set_authority, mark_attempt_failed, expire_rejected,
}
use plant_shop.Payment.Settlement.{VerifyResult, finalize_verified_payment, finalize_failed_payment}
use plant_shop.Payment.Reconciliation.{Reconciliation, get_reconciliation}
use plant_shop.Payment.Gateway.{
  Gateway, Client, ClientError, RequestPaymentOutput, VerifyPaymentOutput,
}
use plant_shop.Payment.Handler.{
  BrowserOutcome, or_keep, is_bad_output, accept_output, request_zarin_pal, payment_of, is_verified,
  negative_code, callback_failed, callback_verified, callback_answered, callback, rejection_code,
  settle_answer, verify_again, check_item, reconciliation_availability, reconcile_payment,
  is_rejected, expire_attempt, expire_each, expire_abandoned,
}
use plant_shop.Payment.Handler.Outcomes.{callback-Run, kept as keeps, asked}
use plant_shop.Http.{path_id}
use plant_shop.Store.{Store, Env}
use plant_shop.System.Orders.{Change, kept, both}
use plant_shop.System.Orders.Payments.{
  finalize_verified-Change, finalize_failed-Change, create_attempt_for_order-Change,
  set_authority-Change, mark_attempt_failed-Change, expire_rejected-Change,
}
use mathlib.Core.Path.{subst}
use plant_shop.Base.{
  ℕ, ◌≡◌, refl, sym, ap, inl, inr, Bool, not, ◌||◌, Option, none, List, [], ◌∷◌, arith, Bool-cases,
  Option-cases, is_some, Result, ok, err, Result-cases,
}
use plant_shop.Base.Int.{ℤ}
use plant_shop.Text.{Text}

same : (s : Store) → Change s s
same s = kept refl refl

marked-Change :
    (env : Env) (id : ℕ) (code : Option ℤ) (s : Store)
    → Change s (or_keep s (mark_attempt_failed env id code s))
marked-Change env id code s = elim (Result-cases (mark_attempt_failed env id code s)) [
  | inr (x, e) ↦ rw (or_keep, e) (same s)
  | inl (t, e) ↦ rw (or_keep, e) (mark_attempt_failed-Change env id code s t e)
]

accept_output-Change :
    (env : Env) (id : ℕ) (answer : Result ClientError RequestPaymentOutput) (s : Store)
    → Change s (accept_output env id s answer).1
unfolding accept_output
accept_output-Change env id (err e) s = marked-Change env id _ s
accept_output-Change env id (ok out) s = elim (Bool-cases (is_bad_output out)) [
  | inl b ↦ rw (accept_output, b) (marked-Change env id none s)
  | inr b ↦ elim (Result-cases (set_authority env id out.authority s)) [
    | inr (x, e) ↦ rw (accept_output, b, e) (same s)
    | inl (t, e) ↦ rw (accept_output, b, e) (set_authority-Change env id out.authority s t e)
  ]
]

pub request_zarin_pal-Change :
    (g : Gateway) (env : Env) (caller : Option ℕ) (raw : Text) (s : Store)
    → Change s (request_zarin_pal g env caller raw s).1
unfolding request_zarin_pal
request_zarin_pal-Change g env caller raw s = elim (Option-cases g.client) [
  | inl n ↦ rw (request_zarin_pal, n) (same s)
  | inr (c, n) ↦ elim (Option-cases caller) [
    | inl k ↦ rw (request_zarin_pal, n, k) (same s)
    | inr (user, k) ↦ elim (Option-cases (path_id raw)) [
      | inl p ↦ rw (request_zarin_pal, n, k, p) (same s)
      | inr (id, p) ↦ elim (Result-cases (create_attempt_for_order env user id s)) [
        | inr (x, e) ↦ rw (request_zarin_pal, n, k, p, e) (same s)
        | inl ((a, u), e) ↦
            rw (request_zarin_pal, n, k, p, e)
              (both (create_attempt_for_order-Change env user id s a u e)
                (accept_output-Change env a.id (c.request_payment (payment_of g a)) u))
      ]
    ]
  ]
]

callback_failed-Change :
    (env : Env) (authority : Text) (id : ℕ) (code : Option ℤ) (s : Store)
    → Change s (callback_failed env authority id code s).1
unfolding callback_failed
callback_failed-Change env authority id code s =
    elim (Result-cases (finalize_failed_payment env authority code s)) [
      | inr (x, e) ↦ rw (callback_failed, e) (same s)
      | inl ((v, t), e) ↦
          rw (callback_failed, e) (finalize_failed-Change env authority code s v t e)
    ]

callback_verified-Change :
    (env : Env) (authority : Text) (id : ℕ) (ref code : ℤ) (s : Store)
    → Change s (callback_verified env authority id ref code s).1
unfolding callback_verified
callback_verified-Change env authority id ref code s =
    elim (Result-cases (finalize_verified_payment env authority ref code s)) [
      | inr (x, e) ↦ rw (callback_verified, e) (same s)
      | inl ((v, t), e) ↦
          rw (callback_verified, e) (finalize_verified-Change env authority ref code s v t e)
    ]

callback_answered-Change :
    (env : Env) (authority : Text) (id : ℕ) (answer : Result ClientError VerifyPaymentOutput)
    (s : Store)
    → Change s (callback_answered env authority id answer s).1
unfolding callback_answered
callback_answered-Change env authority id (err e) s = callback_failed-Change env authority id none s
callback_answered-Change env authority id (ok out) s = elim (Bool-cases (is_verified (ok out))) [
  | inl b ↦
      rw (callback_answered, b) (callback_verified-Change env authority id out.ref_id out.code s)
  | inr b ↦
      rw (callback_answered, b) (callback_failed-Change env authority id (negative_code (ok out)) s)
]

pub callback-Change :
    (g : Gateway) (env : Env) (authority status : Text) (s : Store)
    → Change s (callback g env authority status s).1
callback-Change g env authority status s = elim (callback-Run g env authority status s) [
  | keeps e p ↦ kept (ap (λ (x : Store). x.orders) e) (ap (λ (x : Store). x.next_order) e)
  | asked c a n f d e ↦
      subst (λ (r : (ℕ × BrowserOutcome) × Store). Change s r.1) (sym e)
        (callback_answered-Change env authority a.order_id _ s)
]

settle_answer-Change :
    (env : Env) (authority : Text) (answer : Result ClientError VerifyPaymentOutput) (s : Store)
    (v : VerifyResult) (t : Store)
    → settle_answer env authority answer s ≡ ok (v, t)
    → Change s t
unfolding settle_answer
settle_answer-Change env authority (err e) s v t h = finalize_failed-Change env authority _ s v t h
settle_answer-Change env authority (ok out) s v t h = elim (Bool-cases (is_verified (ok out))) [
  | inl b ↦ finalize_verified-Change env authority out.ref_id out.code s v t (ground arith)
  | inr b ↦ finalize_failed-Change env authority (rejection_code (ok out)) s v t (ground arith)
]

verify_again-Change :
    (g : Gateway) (env : Env) (c : Client) (id : ℕ) (a : Attempt) (authority : Text) (s : Store)
    → Change s (verify_again g env c id a authority s).1
unfolding verify_again
verify_again-Change g env c id a authority s =
    let answer = c.verify_payment (record { authority = authority; amount = a.amount }) in
    elim (Result-cases (settle_answer env authority answer s)) [
      | inr (x, e) ↦ rw (verify_again, e) (same s)
      | inl ((v, t), e) ↦
          let step = settle_answer-Change env authority answer s v t e in
          elim (Result-cases (get_reconciliation env id t)) [
            | inl (item, f) ↦ rw (verify_again, e, f) step
            | inr (x, f) ↦ rw (verify_again, e, f) step
          ]
    ]

check_item-Change :
    (g : Gateway) (env : Env) (id : ℕ) (item : Reconciliation) (s : Store)
    → Change s (check_item g env id item s).1
unfolding check_item
check_item-Change g env id item s = elim (Bool-cases item.retryable) [
  | inr b ↦ rw (check_item, b) (same s)
  | inl b ↦ elim (Option-cases g.client) [
    | inl n ↦ rw (check_item, b, n) (same s)
    | inr (c, n) ↦ elim (Option-cases item.attempt.authority) [
      | inl a ↦ rw (check_item, b, n, a) (same s)
      | inr (t, a) ↦ rw (check_item, b, n, a) (verify_again-Change g env c id item.attempt t s)
    ]
  ]
]

pub reconcile_payment-Change :
    (g : Gateway) (env : Env) (id : ℕ) (s : Store) → Change s (reconcile_payment g env id s).1
unfolding reconcile_payment
reconcile_payment-Change g env id s = elim (Result-cases (get_reconciliation env id s)) [
  | inr (x, e) ↦ rw (reconcile_payment, e) (same s)
  | inl (found, e) ↦
      rw (reconcile_payment, e) (check_item-Change g env id (reconciliation_availability g found) s)
]

expired-Change :
    (env : Env) (id cutoff : ℕ) (s : Store) → Change s (or_keep s (expire_rejected env id cutoff s))
expired-Change env id cutoff s = elim (Result-cases (expire_rejected env id cutoff s)) [
  | inr (x, e) ↦ rw (or_keep, e) (same s)
  | inl (t, e) ↦ rw (or_keep, e) (expire_rejected-Change env id cutoff s t e)
]

expire_attempt-Change :
    (g : Gateway) (env : Env) (cutoff id : ℕ) (item : Reconciliation) (s : Store)
    → Change s (expire_attempt g env cutoff id item s)
unfolding expire_attempt
expire_attempt-Change g env cutoff id item s = elim (Option-cases item.attempt.authority) [
  | inl n ↦ elim (Bool-cases (is_pending item.attempt.status)) [
    | inl p ↦ rw (expire_attempt, n, p) (marked-Change env id none s)
    | inr p ↦ rw (expire_attempt, n, p) (same s)
  ]
  | inr (t, n) ↦ elim (Bool-cases (not (is_some g.client) || not item.retryable)) [
    | inl b ↦ rw (expire_attempt, n, b) (same s)
    | inr b ↦
        let step = reconcile_payment-Change g env id s in
        elim (Result-cases (reconcile_payment g env id s).0) [
          | inr (x, e) ↦ rw (expire_attempt, n, b, e) step
          | inl (after, e) ↦ elim (Bool-cases (is_rejected after)) [
            | inl r ↦ rw (expire_attempt, n, b, e, r) (both step (expired-Change env id cutoff _))
            | inr r ↦ rw (expire_attempt, n, b, e, r) step
          ]
        ]
  ]
]

expire_each-Change :
    (g : Gateway) (env : Env) (cutoff : ℕ) (rows : List Attempt) (s : Store)
    → Change s (expire_each g env cutoff rows s)
unfolding expire_each
expire_each-Change g env cutoff [] s = same s
expire_each-Change g env cutoff (a ∷ rows) s = elim (Result-cases (get_reconciliation env a.id s)) [
  | inr (x, e) ↦ rw (expire_each, e) (same s)
  | inl (item, e) ↦
      rw (expire_each, e)
        (both (expire_attempt-Change g env cutoff a.id item s)
          (expire_each-Change g env cutoff rows _))
]

pub expire_abandoned-Change :
    (g : Gateway) (env : Env) (is_earlier : Attempt → Attempt → Bool) (cutoff : ℕ) (s : Store)
    → Change s (expire_abandoned g env is_earlier cutoff s)
unfolding expire_abandoned
expire_abandoned-Change g env is_earlier cutoff s = expire_each-Change g env cutoff _ s
