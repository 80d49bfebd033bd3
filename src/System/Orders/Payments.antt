-- ===== src/System/Orders/Payments.antt =====
-- The calls on payments change orders soundly.
use mathlib.Core.Path.{subst}
use plant_shop.Order.Model.{Order, is_cancelled}
use plant_shop.Payment.Model.{Attempt}
use plant_shop.Payment.Repository.{
  create_attempt_for_order, set_authority, set_zarinpal, mark_attempt_failed, expire_rejected,
}
use plant_shop.Payment.Settlement.{
  VerifyResult, must_reconcile, set_paid, pay_order, settle_attempt, finalize_verified_payment,
  finalize_failed_payment, reject_attempt,
}
use plant_shop.Payment.Settlement.Safety.{finalize-Settlement, repeated, pays, put_aside}
use plant_shop.Notification.Outbox.{notify-SameButOutbox}
use plant_shop.Store.{Store, Env, find_order}
use plant_shop.System.Orders.{Change, kept, changed}
use plant_shop.Base.{ℕ, ◌≡◌, refl, ap, Bool, false, Option, some, arith, ok}
use plant_shop.Base.Int.{ℤ}
use plant_shop.Text.{Text}

-- The sequence of the orders is not used by a payment.
finalize_verified-next :
    (env : Env) (authority : Text) (ref code : ℤ) (s : Store) (v : VerifyResult) (t : Store)
    → finalize_verified_payment env authority ref code s ≡ ok (v, t)
    → t.next_order ≡ s.next_order
unfolding finalize_verified_payment settle_attempt pay_order
finalize_verified-next env authority ref code s v t h = grind (arith, notify-SameButOutbox)

finalize_failed-next :
    (env : Env) (authority : Text) (code : Option ℤ) (s : Store) (v : VerifyResult) (t : Store)
    → finalize_failed_payment env authority code s ≡ ok (v, t)
    → (t.orders ≡ s.orders) × (t.next_order ≡ s.next_order)
unfolding finalize_failed_payment reject_attempt
finalize_failed-next env authority code s v t h =
    (grind (arith, notify-SameButOutbox), grind (arith, notify-SameButOutbox))

open-not_cancelled :
    (o : Order) (a : Attempt) (c : Bool)
    → must_reconcile o a c ≡ false
    → is_cancelled o.status ≡ false
unfolding must_reconcile is_cancelled
open-not_cancelled o a c h = ground arith

pub finalize_verified-Change :
    (env : Env) (authority : Text) (ref code : ℤ) (s : Store) (v : VerifyResult) (t : Store)
    → finalize_verified_payment env authority ref code s ≡ ok (v, t)
    → Change s t
finalize_verified-Change env authority ref code s v t h =
    let n = finalize_verified-next env authority ref code s v t h in
    elim (finalize-Settlement env authority ref code s v t h) [
      | repeated p q r ↦ kept (ap (λ (x : Store). x.orders) p) n
      | put_aside p q ↦ kept q n
      | pays o a ref' f m p q r ↦
          changed a.order_id set_paid (λ x. refl)
            (λ x (e : find_order a.order_id s.orders ≡ some x) g c.
              let live = open-not_cancelled o a _ m in
              let same : o ≡ x = cc in
              absurd (
                let z = subst (λ (y : Order). is_cancelled y.status ≡ false) same live in
                ground arith))
            r n
    ]

pub finalize_failed-Change :
    (env : Env) (authority : Text) (code : Option ℤ) (s : Store) (v : VerifyResult) (t : Store)
    → finalize_failed_payment env authority code s ≡ ok (v, t)
    → Change s t
finalize_failed-Change env authority code s v t h =
    let (os, n) = finalize_failed-next env authority code s v t h in kept os n

pub create_attempt_for_order-Change :
    (env : Env) (user id : ℕ) (s : Store) (a : Attempt) (t : Store)
    → create_attempt_for_order env user id s ≡ ok (a, t)
    → Change s t
unfolding create_attempt_for_order
create_attempt_for_order-Change env user id s a t h =
    changed id set_zarinpal (λ x. refl) (λ x e g. g) (ground arith) (ground arith)

pub set_authority-Change :
    (env : Env) (id : ℕ) (authority : Text) (s t : Store)
    → set_authority env id authority s ≡ ok t
    → Change s t
unfolding set_authority
set_authority-Change env id authority s t h = kept (ground arith) (ground arith)

pub mark_attempt_failed-Change :
    (env : Env) (id : ℕ) (code : Option ℤ) (s t : Store)
    → mark_attempt_failed env id code s ≡ ok t
    → Change s t
unfolding mark_attempt_failed
mark_attempt_failed-Change env id code s t h = kept (ground arith) (ground arith)

pub expire_rejected-Change :
    (env : Env) (id cutoff : ℕ) (s t : Store) → expire_rejected env id cutoff s ≡ ok t → Change s t
unfolding expire_rejected
expire_rejected-Change env id cutoff s t h = kept (ground arith) (ground arith)
