-- ===== src/System.antt =====
-- The calls that change orders, as steps of the whole shop. Each handler call or task run is one step;
-- a call that fails is no step.
pub mod Orders
pub mod Reachable
use plant_shop.Order.Model.{Order, Status}
use plant_shop.Order.Input.{CheckoutInput}
use plant_shop.Order.Checkout.{create_from_cart}
use plant_shop.Order.Cancel.{update_status, cancel_own_order, expire_reservations}
use plant_shop.Payment.Model.{Attempt}
use plant_shop.Payment.Gateway.{Gateway}
use plant_shop.Payment.Handler.{request_zarin_pal, callback, reconcile_payment, expire_abandoned}
use plant_shop.Refund.Model.{RefundStatus}
use plant_shop.Refund.Repository as RefundRepository
use plant_shop.Refund.Repository.{Json}
use plant_shop.Store.{Store, Env}
use plant_shop.Base.{
  ℕ, zero, suc, ◌+◌, ◌-◌, ◌*◌, ◌/◌, ◌%◌, ◌^◌, ◌≤◌, ◌<◌, min, ◌≡◌, refl, sym, ap, ◌∙◌, ◌≢◌, ◌↔◌, ◌⊎◌,
  inl, inr, Bool, true, false, not, ◌&&◌, ◌||◌, Option, none, some, List, [], ◌∷◌, ◌++◌, map, arith,
  ltb, leb, ◌==◌, if◌then◌else◌, ==_iff, ==_refl, Bool-cases, Option-cases, is_some, All, length,
  take, Result, ok, err, ◌>>=◌, ◌>>◌, fail_if, >>=-eq-ok, fail_if-eq-ok, Result-cases,
}
use plant_shop.Text.{
  Text, codes, byte_len, text_eq, is_empty, trim_space, parse_int, text_eq_refl, eq_of_text_eq,
  text_eq_iff,
}

pub data Step (s t : Store) : Type 0 where
  checks_out :
      (env : Env) (user : ℕ) (input : CheckoutInput) (o : Order)
      → create_from_cart env user input s ≡ ok (o, t)
      → Step s t
  advances : (env : Env) (id : ℕ) (st : Status) → update_status env id st s ≡ ok t → Step s t
  cancels : (env : Env) (user id : ℕ) → cancel_own_order env user id s ≡ ok t → Step s t
  expires :
      (env : Env) (is_locked : Order → Bool) (cutoff n : ℕ)
      → expire_reservations env is_locked cutoff s ≡ ok (t, n)
      → Step s t
  asks_to_pay :
      (g : Gateway) (env : Env) (caller : Option ℕ) (raw : Text)
      → (request_zarin_pal g env caller raw s).1 ≡ t
      → Step s t
  returns_from_gateway :
      (g : Gateway) (env : Env) (authority status : Text)
      → (callback g env authority status s).1 ≡ t
      → Step s t
  is_checked : (g : Gateway) (env : Env) (id : ℕ) → (reconcile_payment g env id s).1 ≡ t → Step s t
  cleans_up :
      (g : Gateway) (env : Env) (is_earlier : Attempt → Attempt → Bool) (cutoff : ℕ)
      → expire_abandoned g env is_earlier cutoff s ≡ t
      → Step s t
  refunds :
      (env : Env) (json : Json) (id : ℕ) (st : RefundStatus) (provider_id : Option Text)
      (raw : Text) (last : Option Text)
      → RefundRepository.update_status env json id st provider_id raw last s ≡ ok t
      → Step s t

-- Any number of steps.
pub data Steps (s : Store) : Store → Type 0 where
  start : Steps s s
  onward : {t u : Store} → Steps s t → Step t u → Steps s u
