-- ===== src/Payment/Settlement.antt =====
-- The outcome of a verification by the gateway (backend/internal/payment/repository.go):
-- `FinalizeVerifiedPayment` and `FinalizeFailedPayment`.
pub mod Safety
pub mod Repeat
use plant_shop.Order.Model.{Order, Status, PaymentStatus, PaymentMethod, is_unpaid}
use plant_shop.Payment.Model.{
  Attempt, AttemptStatus, Event, EventType, irr, is_paid, is_settled, is_expired, is_failed,
}
use plant_shop.Payment.Errors.{Error}
use plant_shop.Notification.Outbox.{Kind, notify}
use plant_shop.Store.{Store, Env, constraint, lift, modify_order, modify_attempt}
use plant_shop.Base.{
  ◌>>◌, ◌>>=◌, ℕ, Bool, true, false, not, ◌&&◌, ◌||◌, Option, none, some, List, [], ◌∷◌, ◌++◌, ◌==◌,
  if◌then◌else◌, is_some, Result, ok, fail_if,
}
use plant_shop.Base.Int.{ℤ, pos, ltb_ℤ, leb_ℤ, eq_ℤ}
use plant_shop.Base.Table.{exists?}
use plant_shop.Text.{Text, text_eq}
use plant_shop.Payment.Repository.{matches_provider, out_of_range, lock_payment_authority}

pub record VerifyResult : Type 0 where
  pub order_id : ℕ
  pub already_settled : Bool
  pub final_status : AttemptStatus

abbrev has_ref : ℤ → Attempt → Bool
has_ref ref a = elim a.ref_id [ none ↦ false | some r ↦ eq_ℤ r ref ]

-- Another paid attempt for the order, or for the provider's reference.
unfoldable pub conflicts : Attempt → ℤ → Attempt → Bool
conflicts a ref b =
    is_paid b.status
    && not (b.id == a.id)
    && (b.order_id == a.order_id
        || (text_eq b.provider a.provider
            && text_eq b.environment a.environment
            && text_eq b.account_key a.account_key
            && has_ref ref b))

abbrev pub is_open : Status → Bool
is_open Status.pending = true
is_open Status.processing = true
is_open Status.shipped = true
is_open _ = false

-- The condition under which a verified payment cannot settle its order.
unfoldable pub must_reconcile : Order → Attempt → Bool → Bool
must_reconcile o a conflicting =
    is_expired a.status
    || not (is_open o.status)
    || not (is_unpaid o.payment_status)
    || not (eq_ℤ o.total a.amount)
    || ltb_ℤ a.amount (pos 10000)
    || not (text_eq o.currency a.currency)
    || not (text_eq a.currency irr)
    || conflicting

abbrev pub set_verified : AttemptStatus → ℤ → ℤ → ℕ → Attempt → Attempt
set_verified st ref code now a = record a {
  status = st;
  ref_id = some ref;
  provider_code = some code;
  verified_at = some now;
}

abbrev pub set_paid : Order → Order
set_paid o = record o {
  payment_status = PaymentStatus.paid;
  payment_method = PaymentMethod.zarinpal;
}

-- The trigger's row.
abbrev settled_event : ℕ → AttemptStatus → List Event
settled_event id AttemptStatus.paid = record { attempt_id = id; event_type = EventType.paid } ∷ []
settled_event id AttemptStatus.reconciliation =
    record { attempt_id = id; event_type = EventType.reconciliation } ∷ []
settled_event id AttemptStatus.pending = []
settled_event id AttemptStatus.failed = []
settled_event id AttemptStatus.expired = []

-- The attempt's row as it is settled.
abbrev pub verified : Env → Attempt → AttemptStatus → ℤ → ℤ → Store → Store
verified env a st ref code s = record s {
  attempts = modify_attempt a.id (set_verified st ref code env.now) s.attempts;
  events = s.events ++ settled_event a.id st;
}

-- The order of a payment that settles.
unfoldable pub pay_order : Env → Order → Attempt → Store → Result Error Store
pay_order env o a s = do
  fail_if (not (is_unpaid o.payment_status)) Error.order_not_payable
  lift Error.db (
      notify env.notifications a.order_id Kind.payment_succeeded env.now
        (record s { orders = modify_order a.order_id set_paid s.orders }))

-- The settlement of a payment that no earlier call has settled.
unfoldable pub settle_attempt :
    Env → Order → Attempt → ℤ → ℤ → Store → Result Error (VerifyResult × Store)
settle_attempt env o a ref code s = do
  let bad = must_reconcile o a (exists? (conflicts a ref) s.attempts)
  let st = (if bad then AttemptStatus.reconciliation else AttemptStatus.paid)
  fail_if (is_settled a.status || not (is_some a.authority)) Error.already_processed
  t ←
      if bad
      then ok (verified env a st ref code s)
      else pay_order env o a (verified env a st ref code s)
  ok (record { order_id = a.order_id; already_settled = false; final_status = st }, t)

abbrev bad_code : ℤ → Bool
bad_code code = not (eq_ℤ code (pos 100)) && not (eq_ℤ code (pos 101))

-- `FinalizeVerifiedPayment`.
unfoldable pub finalize_verified_payment :
    Env → Text → ℤ → ℤ → Store → Result Error (VerifyResult × Store)
finalize_verified_payment env authority ref code s = do
  fail_if (leb_ℤ ref (pos 0) || bad_code code) Error.invalid_verification
  oa ← lock_payment_authority authority s
  fail_if (not (matches_provider env oa.1)) Error.provider_mismatch
  if is_settled oa.1.status
      then ok (
        record { order_id = oa.1.order_id; already_settled = true; final_status = oa.1.status },
        s,
      )
      else settle_attempt env oa.0 oa.1 ref code s

abbrev coalesce : Option ℤ → Option ℤ → Option ℤ
coalesce none old = old
coalesce (some c) old = some c

abbrev pub set_code : Option ℤ → Attempt → Attempt
set_code code a = record a { provider_code = coalesce code a.provider_code }

abbrev event_type_of : Option ℤ → EventType
event_type_of none = EventType.verify_uncertain
event_type_of (some c) = EventType.verify_rejected

-- What is recorded of a payment that was not verified: the code and an event. The attempt stays.
unfoldable pub reject_attempt :
    Env → Attempt → Option ℤ → Store → Result Error (VerifyResult × Store)
reject_attempt env a code s = do
  fail_if (out_of_range code) (Error.db constraint)
  t ← lift Error.db (
      notify (is_failed a.status && env.notifications) a.order_id Kind.payment_failed env.now
        (record s {
          attempts = modify_attempt a.id (set_code code) s.attempts;
          events = s.events ++ record { attempt_id = a.id; event_type = event_type_of code } ∷ [];
        }))
  ok (record { order_id = a.order_id; already_settled = false; final_status = a.status }, t)

-- `FinalizeFailedPayment`.
unfoldable pub finalize_failed_payment :
    Env → Text → Option ℤ → Store → Result Error (VerifyResult × Store)
finalize_failed_payment env authority code s = do
  oa ← lock_payment_authority authority s
  fail_if (not (matches_provider env oa.1)) Error.provider_mismatch
  if is_settled oa.1.status
      then ok (
        record { order_id = oa.1.order_id; already_settled = true; final_status = oa.1.status },
        s,
      )
      else reject_attempt env oa.1 code s
