-- ===== src/Payment/Settlement/Repeat.antt =====
-- The gateway's callback may arrive again: what a second call does to a settled payment.
use mathlib.Core.Path.{subst}
use plant_shop.Order.Model.{Order}
use plant_shop.Payment.Model.{Attempt, AttemptStatus, is_settled}
use plant_shop.Payment.Repository.{
  matches_provider, lock_payment_attempt, lock_payment_authority, get_attempt_by_authority,
  has_authority,
}
use plant_shop.Payment.Settlement.{
  VerifyResult, conflicts, must_reconcile, set_verified, set_paid, pay_order, settle_attempt,
  finalize_verified_payment, finalize_failed_payment, bad_code,
}
use plant_shop.Payment.Settlement.Safety.{
  finalize-steps, settle_attempt-paid, settle_attempt-put_aside,
}
use plant_shop.Notification.Outbox.{notify-SameButOutbox}
use plant_shop.Store.{Store, Env, find_order, find_attempt, modify_attempt}
use plant_shop.Base.Keys.{IsKeyed, select_one-found, select_one-modify}
use plant_shop.Base.{
  ℕ, ◌≡◌, refl, sym, ◌∙◌, inl, inr, Bool, true, false, ◌||◌, Option, some, arith, if◌then◌else◌,
  Bool-cases, Option-cases, ok,
}
use plant_shop.Base.Int.{ℤ, pos, leb_ℤ}
use plant_shop.Base.Table.{exists?, select_one, find_key, find-modify_self}
use plant_shop.Text.{Text}

-- The attempt's row of a settled payment.
pub record Settled (env : Env) (a : Attempt) (v : VerifyResult) (s t : Store) (st : AttemptStatus)
    (ref code : ℤ) : Type 0 where
  pub attempts : t.attempts ≡ modify_attempt a.id (set_verified st ref code env.now) s.attempts
  pub final : v.final_status ≡ st
  pub order : v.order_id ≡ a.order_id
  pub settled : is_settled st ≡ true

settled_status :
    (bad : Bool)
    → is_settled (if bad then AttemptStatus.reconciliation else AttemptStatus.paid) ≡ true
unfolding is_settled
settled_status bad = ground arith

settle_attempt-Settled :
    (env : Env) (o : Order) (a : Attempt) (ref code : ℤ) (s : Store) (v : VerifyResult) (t : Store)
    → settle_attempt env o a ref code s ≡ ok (v, t)
    → (st : AttemptStatus) × Settled env a v s t st ref code
unfolding settle_attempt pay_order
settle_attempt-Settled env o a ref code s v t h =
    let bad = must_reconcile o a (exists? (conflicts a ref) s.attempts) in
    (
      if bad then AttemptStatus.reconciliation else AttemptStatus.paid,
      record {
        attempts = grind (arith, notify-SameButOutbox);
        final = ground arith;
        order = ground arith;
        settled = settled_status bad;
      },
    )

-- The order of the attempt is still there.
settle_attempt-order :
    (env : Env) (o p : Order) (a : Attempt) (ref code : ℤ) (s : Store) (v : VerifyResult)
    (t : Store)
    → settle_attempt env o a ref code s ≡ ok (v, t)
    → find_order a.order_id s.orders ≡ some p
    → (q : Order) × (find_order a.order_id t.orders ≡ some q)
settle_attempt-order env o p a ref code s v t h f =
    elim (Bool-cases (must_reconcile o a (exists? (conflicts a ref) s.attempts))) [
      | inl m ↦ let (st, os) = settle_attempt-put_aside env o a ref code s v t m h in (p, rw os f)
      | inr m ↦
          let (st, id, os) = settle_attempt-paid env o a ref code s v t m h in
          (
            set_paid p,
            rw os (
                find-modify_self (λ (o : Order). o.id) a.order_id set_paid s.orders p
                  (find_key (λ (o : Order). o.id) a.order_id s.orders p f) f),
          )
    ]

pub lock-parts :
    (authority : Text) (s : Store) (o : Order) (a : Attempt)
    → IsKeyed (λ (a : Attempt). a.id) s.attempts
    → lock_payment_authority authority s ≡ ok (o, a)
    → (select_one (has_authority authority) s.attempts ≡ some a)
      × (find_attempt a.id s.attempts ≡ some a)
      × (find_order a.order_id s.orders ≡ some o)
unfolding lock_payment_authority lock_payment_attempt get_attempt_by_authority
lock-parts authority s o a u h =
    elim (Option-cases (select_one (has_authority authority) s.attempts)) [
      | inl n ↦ ground arith
      | inr (b, e) ↦
          let f =
            select_one-found (λ (a : Attempt). a.id) (has_authority authority) s.attempts b u e in
          let same : b ≡ a = ground arith in
          (ground arith, subst (λ a. find_attempt a.id s.attempts ≡ some a) same f, ground arith)
    ]

lock-again :
    (authority : Text) (t : Store) (q : Order) (a : Attempt)
    → select_one (has_authority authority) t.attempts ≡ some a
    → find_attempt a.id t.attempts ≡ some a
    → find_order a.order_id t.orders ≡ some q
    → lock_payment_authority authority t ≡ ok (q, a)
unfolding lock_payment_authority lock_payment_attempt get_attempt_by_authority
lock-again authority t q a h f e = ground arith

-- After a settlement, the authority leads to the settled attempt.
settle-lock :
    (env : Env) (authority : Text) (o : Order) (a : Attempt) (ref code : ℤ) (s : Store)
    (v : VerifyResult) (t : Store) (st : AttemptStatus)
    → IsKeyed (λ (a : Attempt). a.id) s.attempts
    → lock_payment_authority authority s ≡ ok (o, a)
    → settle_attempt env o a ref code s ≡ ok (v, t)
    → Settled env a v s t st ref code
    → (q : Order) × (select_one (has_authority authority) t.attempts
        ≡ some (set_verified st ref code env.now a))
      × (lock_payment_authority authority t ≡ ok (q, set_verified st ref code env.now a))
settle-lock env authority o a ref code s v t st u l h r =
    let (sel, found, order) = lock-parts authority s o a u l in
    let (q, e) = settle_attempt-order env o o a ref code s v t h order in
    let id = λ (a : Attempt). a.id in
    let f = set_verified st ref code env.now in
    let chosen =
      select_one-modify id (has_authority authority) a.id f s.attempts a (λ x. refl) u refl sel in
    (
      q,
      rw r.attempts chosen,
      lock-again authority t q (f a) (rw r.attempts chosen)
          (rw r.attempts (find-modify_self id a.id f s.attempts a refl found)) e,
    )

-- What a later call finds, whichever call has settled the attempt.
pub record Found (env : Env) (authority : Text) (v : VerifyResult) (t : Store) (q : Order)
    (b : Attempt) : Type 0 where
  pub locked : lock_payment_authority authority t ≡ ok (q, b)
  pub selected : select_one (has_authority authority) t.attempts ≡ some b
  pub same_provider : matches_provider env b ≡ true
  pub is_final : is_settled b.status ≡ true
  pub same_status : b.status ≡ v.final_status
  pub same_order : b.order_id ≡ v.order_id

finalize-provider :
    (env : Env) (authority : Text) (ref code : ℤ) (s : Store) (r : VerifyResult × Store) (o : Order)
    (a : Attempt)
    → lock_payment_authority authority s ≡ ok (o, a)
    → finalize_verified_payment env authority ref code s ≡ ok r
    → matches_provider env a ≡ true
unfolding finalize_verified_payment
finalize-provider env authority ref code s r o a l h = ground arith

set_verified-provider :
    (env : Env) (st : AttemptStatus) (ref code : ℤ) (now : ℕ) (a : Attempt)
    → matches_provider env (set_verified st ref code now a) ≡ matches_provider env a
unfolding matches_provider
set_verified-provider env st ref code now a = refl

pub finalize-Found :
    (env : Env) (authority : Text) (ref code : ℤ) (s : Store) (v : VerifyResult) (t : Store)
    → IsKeyed (λ (a : Attempt). a.id) s.attempts
    → finalize_verified_payment env authority ref code s ≡ ok (v, t)
    → (q : Order) × (b : Attempt) × Found env authority v t q b
finalize-Found env authority ref code s v t u h =
    let (o, a, l, c) = finalize-steps env authority ref code s (v, t) h in
    let m = finalize-provider env authority ref code s (v, t) o a l h in
    elim c [
      | inl (b, p) ↦ (
        o,
        a,
        record {
          locked = ground arith;
          selected = let (sel, found, order) = lock-parts authority s o a u l in ground arith;
          same_provider = m;
          is_final = b;
          same_status = ground arith;
          same_order = ground arith;
        },
      )
      | inr p ↦
          let (st, r) = settle_attempt-Settled env o a ref code s v t p in
          let (q, sel, k) = settle-lock env authority o a ref code s v t st u l p r in
          (
            q,
            set_verified st ref code env.now a,
            record {
              locked = k;
              selected = sel;
              same_provider = set_verified-provider env st ref code env.now a ∙ m;
              is_final = r.settled;
              same_status = sym r.final;
              same_order = sym r.order;
            },
          )
    ]

-- The result of a call that finds the attempt settled.
abbrev pub settled_before : VerifyResult → VerifyResult
settled_before v = record v { already_settled = true }

-- If attempt ids are distinct and a verified payment was finalized without an error, finalizing
-- the same authority again with a valid reference and code changes nothing and reports the earlier
-- outcome as already settled.
pub finalize_verified-repeats :
    (env : Env) (authority : Text) (ref code ref' code' : ℤ) (s : Store) (v : VerifyResult)
    (t : Store)
    → IsKeyed (λ (a : Attempt). a.id) s.attempts
    → finalize_verified_payment env authority ref code s ≡ ok (v, t)
    → leb_ℤ ref' (pos 0) || bad_code code' ≡ false
    → finalize_verified_payment env authority ref' code' t ≡ ok (settled_before v, t)
unfolding finalize_verified_payment
finalize_verified-repeats env authority ref code ref' code' s v t u h good =
    let (q, b, f) = finalize-Found env authority ref code s v t u h in
    rw (good, f.locked, f.same_provider, f.is_final, f.same_status, f.same_order) refl

-- If attempt ids are distinct and a verified payment was finalized without an error, a later
-- report that the payment failed changes nothing and reports the earlier outcome as already
-- settled.
pub finalize_failed-keeps :
    (env : Env) (authority : Text) (ref code : ℤ) (failure : Option ℤ) (s : Store)
    (v : VerifyResult) (t : Store)
    → IsKeyed (λ (a : Attempt). a.id) s.attempts
    → finalize_verified_payment env authority ref code s ≡ ok (v, t)
    → finalize_failed_payment env authority failure t ≡ ok (settled_before v, t)
unfolding finalize_failed_payment
finalize_failed-keeps env authority ref code failure s v t u h =
    let (q, b, f) = finalize-Found env authority ref code s v t u h in
    rw (f.locked, f.same_provider, f.is_final, f.same_status, f.same_order) refl
