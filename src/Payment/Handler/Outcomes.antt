-- ===== src/Payment/Handler/Outcomes.antt =====
-- What the answers of the payment handlers mean.
use mathlib.Core.Path.{subst}
use plant_shop.Order.Model.{Order}
use plant_shop.Payment.Model.{Attempt, AttemptStatus, irr, is_paid, is_settled}
use plant_shop.Payment.Repository.{
  matches_provider, lock_payment_authority, get_attempt_by_authority,
}
use plant_shop.Payment.Settlement.{
  VerifyResult, finalize_verified_payment, finalize_failed_payment, reject_attempt,
}
use plant_shop.Payment.Settlement.Repeat.{finalize-Found, lock-parts}
use plant_shop.Payment.Reconciliation.{is_reconciliation}
use plant_shop.Payment.Gateway.{Gateway, Client, ClientError, VerifyPaymentOutput}
use plant_shop.Payment.Handler.{
  BrowserOutcome, is_verified, negative_code, callback_failed, callback_verified, callback_answered,
  callback,
}
use plant_shop.Notification.Outbox.{notify-SameButOutbox}
use plant_shop.Store.{Store, Env}
use plant_shop.Base.Keys.{IsKeyed}
use plant_shop.Base.{
  ℕ, ◌≡◌, refl, sym, ap, ◌∙◌, ◌⊎◌, inl, inr, true, false, not, ◌||◌, Option, none, some, arith,
  Bool-cases, Option-cases, Result, ok, err, Result-cases,
}
use plant_shop.Base.Int.{ℤ}
use plant_shop.Text.{Text, codes, text_eq, is_empty}

-- The attempt of an authority is paid, and it is the order's.
pub record IsPaidFor (authority : Text) (id : ℕ) (s : Store) : Type 0 where
  pub attempt : Attempt
  pub found : get_attempt_by_authority authority s ≡ some attempt
  pub paid : is_paid attempt.status ≡ true
  pub order : attempt.order_id ≡ id

-- A call that reports a failure has found the attempt, and it changes no order.
record Failing (authority : Text) (s : Store) (v : VerifyResult) (t : Store) : Type 0 where
  order : Order
  attempt : Attempt
  locked : lock_payment_authority authority s ≡ ok (order, attempt)
  final : v.final_status ≡ attempt.status
  same_orders : t.orders ≡ s.orders
  kept : is_settled attempt.status ≡ true → t ≡ s

finalize_failed-Failing :
    (env : Env) (authority : Text) (code : Option ℤ) (s : Store) (v : VerifyResult) (t : Store)
    → finalize_failed_payment env authority code s ≡ ok (v, t)
    → Failing authority s v t
unfolding finalize_failed_payment reject_attempt
finalize_failed-Failing env authority code s v t h =
    elim (Result-cases (lock_payment_authority authority s)) [
      | inr (x, e) ↦ ground arith
      | inl ((o, a), e) ↦ record {
        order = o;
        attempt = a;
        locked = e;
        final = ground arith;
        same_orders = grind (arith, notify-SameButOutbox);
        kept = λ b. ground arith;
      }
    ]

pub finalize_failed-same_orders :
    (env : Env) (authority : Text) (code : Option ℤ) (s : Store) (v : VerifyResult) (t : Store)
    → finalize_failed_payment env authority code s ≡ ok (v, t)
    → t.orders ≡ s.orders
finalize_failed-same_orders env authority code s v t h =
    (finalize_failed-Failing env authority code s v t h).same_orders

paid-is_settled : (st : AttemptStatus) → is_paid st ≡ true → is_settled st ≡ true
unfolding is_paid is_settled
paid-is_settled st h = ground arith

failed-IsPaidFor :
    (env : Env) (authority : Text) (code : Option ℤ) (s : Store) (v : VerifyResult) (t : Store)
    (a : Attempt)
    → IsKeyed (λ (a : Attempt). a.id) s.attempts
    → get_attempt_by_authority authority s ≡ some a
    → finalize_failed_payment env authority code s ≡ ok (v, t)
    → is_paid v.final_status ≡ true
    → IsPaidFor authority a.order_id t
unfolding get_attempt_by_authority
failed-IsPaidFor env authority code s v t a u g h p =
    let f = finalize_failed-Failing env authority code s v t h in
    let (sel, found, order) = lock-parts authority s f.order f.attempt u f.locked in
    let one : f.attempt ≡ a = cc in
    let paid : is_paid a.status ≡ true =
      ap (λ (x : Attempt). is_paid x.status) (sym one) ∙ ap is_paid (sym f.final) ∙ p in
    let same = f.kept (paid-is_settled f.attempt.status (ap is_paid (sym f.final) ∙ p)) in
    record { attempt = a; found = rw same g; paid = paid; order = refl }

verified-IsPaidFor :
    (env : Env) (authority : Text) (ref code : ℤ) (s : Store) (v : VerifyResult) (t : Store)
    → IsKeyed (λ (a : Attempt). a.id) s.attempts
    → finalize_verified_payment env authority ref code s ≡ ok (v, t)
    → is_paid v.final_status ≡ true
    → IsPaidFor authority v.order_id t
unfolding get_attempt_by_authority
verified-IsPaidFor env authority ref code s v t u h p =
    let (q, b, f) = finalize-Found env authority ref code s v t u h in
    record {
      attempt = b;
      found = f.selected;
      paid = ap is_paid f.same_status ∙ p;
      order = f.same_order;
    }

callback_failed-orders :
    (env : Env) (authority : Text) (id : ℕ) (code : Option ℤ) (s : Store)
    → (callback_failed env authority id code s).1.orders ≡ s.orders
unfolding callback_failed
callback_failed-orders env authority id code s =
    elim (Result-cases (finalize_failed_payment env authority code s)) [
      | inl ((v, t), e) ↦
          rw (callback_failed, e) (finalize_failed-Failing env authority code s v t e).same_orders
      | inr (x, e) ↦ rw (callback_failed, e) refl
    ]

callback_verified-IsPaidFor :
    (env : Env) (authority : Text) (id k : ℕ) (ref code : ℤ) (s t : Store)
    → IsKeyed (λ (a : Attempt). a.id) s.attempts
    → callback_verified env authority id ref code s ≡ ((k, BrowserOutcome.success), t)
    → IsPaidFor authority k t
unfolding callback_verified
callback_verified-IsPaidFor env authority id k ref code s t u h =
    elim (Result-cases (finalize_verified_payment env authority ref code s)) [
      | inr (x, e) ↦ ground arith
      | inl ((v, w), e) ↦ elim (Bool-cases (is_paid v.final_status)) [
        | inl p ↦
            let one : v.order_id ≡ k = ground arith in
            let two : w ≡ t = ground arith in
            subst (λ x. IsPaidFor authority k x) two
              (subst (λ n. IsPaidFor authority n w) one
                (verified-IsPaidFor env authority ref code s v w u e p))
        | inr p ↦ ground arith
      ]
    ]

callback_failed-IsPaidFor :
    (env : Env) (authority : Text) (a : Attempt) (k : ℕ) (code : Option ℤ) (s t : Store)
    → IsKeyed (λ (a : Attempt). a.id) s.attempts
    → get_attempt_by_authority authority s ≡ some a
    → callback_failed env authority a.order_id code s ≡ ((k, BrowserOutcome.success), t)
    → IsPaidFor authority k t
unfolding callback_failed
callback_failed-IsPaidFor env authority a k code s t u g h =
    elim (Result-cases (finalize_failed_payment env authority code s)) [
      | inr (x, e) ↦ ground arith
      | inl ((v, w), e) ↦ elim (Bool-cases (is_paid v.final_status)) [
        | inl p ↦
            let one : a.order_id ≡ k = ground arith in
            let two : w ≡ t = ground arith in
            subst (λ x. IsPaidFor authority k x) two
              (subst (λ n. IsPaidFor authority n w) one
                (failed-IsPaidFor env authority code s v w a u g e p))
        | inr p ↦ ground arith
      ]
    ]

callback_answered-IsPaidFor :
    (env : Env) (authority : Text) (a : Attempt) (k : ℕ)
    (answer : Result ClientError VerifyPaymentOutput) (s t : Store)
    → IsKeyed (λ (a : Attempt). a.id) s.attempts
    → get_attempt_by_authority authority s ≡ some a
    → callback_answered env authority a.order_id answer s ≡ ((k, BrowserOutcome.success), t)
    → IsPaidFor authority k t
unfolding callback_answered
callback_answered-IsPaidFor env authority a k (err e) s t u g h =
    callback_failed-IsPaidFor env authority a k none s t u g h
callback_answered-IsPaidFor env authority a k (ok out) s t u g h =
    elim (Bool-cases (is_verified (ok out))) [
      | inl b ↦
          callback_verified-IsPaidFor env authority a.order_id k out.ref_id out.code s t u
            (ground arith)
      | inr b ↦
          callback_failed-IsPaidFor env authority a k (negative_code (ok out)) s t u g
            (ground arith)
    ]

-- What a callback does: it keeps the store, or it acts on what the gateway answers for the amount of
-- the attempt.
pub data Run (g : Gateway) (env : Env) (authority status : Text) (s : Store)
    (r : (ℕ × BrowserOutcome) × Store) : Type 0 where
  kept :
      r.1 ≡ s
      → (r.0.1 ≡ BrowserOutcome.success → IsPaidFor authority r.0.0 s)
      → Run g env authority status s r
  asked :
      (c : Client) (a : Attempt)
      → g.client ≡ some c
      → get_attempt_by_authority authority s ≡ some a
      → text_eq status (codes "OK") ≡ true
      → r
        ≡ callback_answered env authority a.order_id
            (c.verify_payment (record { authority = authority; amount = a.amount }))
            s
      → Run g env authority status s r

-- Before the gateway is asked nothing is a success.
found-Run :
    (g : Gateway) (env : Env) (authority status : Text) (s : Store) (a : Attempt)
    → is_empty authority ≡ false
    → get_attempt_by_authority authority s ≡ some a
    → is_paid a.status ≡ false
    → Run g env authority status s (callback g env authority status s)
unfolding callback
found-Run g env authority status s a e f p = elim (Option-cases g.client) [
  | inl n ↦ rw (e, f, p, n) (kept refl (λ x. cc))
  | inr (c, n) ↦
      elim (Bool-cases (
        not (matches_provider env a)
        || not (text_eq a.currency irr)
        || is_reconciliation a.status)) [
          | inl b ↦ rw (e, f, p, n, b) (kept refl (λ x. cc))
          | inr b ↦ elim (Bool-cases (text_eq status (codes "OK"))) [
            | inl d ↦ rw (e, f, p, n, b, d) (asked c a refl f d refl)
            | inr d ↦ rw (e, f, p, n, b, d) (kept refl (λ x. cc))
          ]
        ]
]

pub callback-Run :
    (g : Gateway) (env : Env) (authority status : Text) (s : Store)
    → Run g env authority status s (callback g env authority status s)
unfolding callback
callback-Run g env authority status s = elim (Bool-cases (is_empty authority)) [
  | inl e ↦ rw e (kept refl (λ x. cc))
  | inr e ↦ elim (Option-cases (get_attempt_by_authority authority s)) [
    | inl n ↦ rw (e, n) (kept refl (λ x. cc))
    | inr (a, f) ↦ elim (Bool-cases (is_paid a.status)) [
      | inl p ↦
          rw (e, f, p) (kept refl (λ x. record { attempt = a; found = f; paid = p; order = refl }))
      | inr p ↦ found-Run g env authority status s a e f p
    ]
  ]
]

-- If attempt ids are distinct, the callback tells the browser of a success only for an order of
-- which the resulting store has an attempt under the callback's authority that is paid.
pub callback-IsPaidFor :
    (g : Gateway) (env : Env) (authority status : Text) (id : ℕ) (s t : Store)
    → IsKeyed (λ (a : Attempt). a.id) s.attempts
    → callback g env authority status s ≡ ((id, BrowserOutcome.success), t)
    → IsPaidFor authority id t
callback-IsPaidFor g env authority status id s t u h =
    elim (callback-Run g env authority status s) [
      | kept e p ↦
          let same : s ≡ t = sym e ∙ ap (λ r. r.1) h in
          let one : (callback g env authority status s).0.0 ≡ id = ap (λ r. r.0.0) h in
          let q = p (ap (λ r. r.0.1) h) in
          subst (λ n. IsPaidFor authority n t) one (subst (IsPaidFor authority _) same q)
      | asked c a n f d e ↦ callback_answered-IsPaidFor env authority a id _ s t u f (sym e ∙ h)
    ]

-- The gateway answered for the attempt's amount that the payment is made.
pub record IsConfirmed (g : Gateway) (authority : Text) (s : Store) : Type 0 where
  pub client : Client
  pub attempt : Attempt
  pub configured : g.client ≡ some client
  pub found : get_attempt_by_authority authority s ≡ some attempt
  pub confirmed :
      is_verified
        (client.verify_payment (record { authority = authority; amount = attempt.amount }))
      ≡ true

unverified-orders :
    (env : Env) (authority : Text) (id : ℕ) (answer : Result ClientError VerifyPaymentOutput)
    (s : Store)
    → is_verified answer ≡ false
    → (callback_answered env authority id answer s).1.orders ≡ s.orders
unfolding callback_answered
unverified-orders env authority id (err e) s b = callback_failed-orders env authority id none s
unverified-orders env authority id (ok out) s b =
    rw b (callback_failed-orders env authority id (negative_code (ok out)) s)

-- The callback leaves all orders as they are unless the browser reports OK and the gateway's
-- answer to a verification of the stored attempt's amount is a success with a positive reference.
pub callback-orders :
    (g : Gateway) (env : Env) (authority status : Text) (s : Store)
    → ((callback g env authority status s).1.orders ≡ s.orders)
      ⊎ ((text_eq status (codes "OK") ≡ true) × IsConfirmed g authority s)
callback-orders g env authority status s = elim (callback-Run g env authority status s) [
  | kept e p ↦ inl (ap (λ (t : Store). t.orders) e)
  | asked c a n f d e ↦
      let answer = c.verify_payment (record { authority = authority; amount = a.amount }) in
      elim (Bool-cases (is_verified answer)) [
        | inl b ↦
            inr (d, record { client = c; attempt = a; configured = n; found = f; confirmed = b })
        | inr b ↦ inl (
            ap (λ (r : (ℕ × BrowserOutcome) × Store). r.1.orders) e
            ∙ unverified-orders env authority a.order_id answer s b)
      ]
]
