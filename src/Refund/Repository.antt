-- ===== src/Refund/Repository.antt =====
-- The transactions on refunds (backend/internal/refund/repository.go).
pub mod Once
use plant_shop.Order.Model.{Order, PaymentStatus, PaymentMethod, is_paid, is_refunded, is_cancelled}
use plant_shop.Refund.Model.{Refund, RefundStatus, is_valid_status, can_transition, is_succeeded}
use plant_shop.Notification.Model.{event_key_for_refund}
use plant_shop.Notification.Outbox.{enqueue_tx}
use plant_shop.Returns.Model.{ReturnRequest}
use plant_shop.Store.{Store, Env, DbError, no_rows, constraint, lift, find_order, modify_order}
use plant_shop.Base.{
  ◌>>◌, ◌>>=◌, ℕ, suc, Bool, false, not, ◌||◌, Option, none, some, List, [], ◌∷◌, ◌++◌, ◌==◌,
  if◌then◌else◌, Result, ok, err, fail_if,
}
use plant_shop.Base.Int.{ℤ, pos, leb_ℤ}
use plant_shop.Base.Table.{exists?, find, modify}
use plant_shop.Text.{Text, codes, is_empty}

pub data Error : Type 0 where
  refund_not_found refund_already_refunded refund_not_eligible : Error
  refund_invalid_status refund_invalid_transition unreadable_response : Error
  db : DbError → Error

abbrev pub find_refund : ℕ → List Refund → Option Refund
find_refund = find (λ (r : Refund). r.id)

abbrev pub modify_refund : ℕ → (Refund → Refund) → List Refund → List Refund
modify_refund = modify (λ (r : Refund). r.id)

-- `CheckEligibility`; `none` is a nil error.
unfoldable pub check_eligibility : ℕ → Store → Option Error
check_eligibility id s = elim (find_order id s.orders) [
  | none ↦ some Error.refund_not_found
  | some o ↦
      if not (is_paid o.payment_status)
      then some (
          if is_refunded o.payment_status
          then Error.refund_already_refunded
          else Error.refund_not_eligible)
      else if is_cancelled o.status
      then some Error.refund_not_eligible
      else none
]

-- The inserted row.
unfoldable pub new_refund : ℕ → ℕ → Option ℕ → ℤ → PaymentMethod → Option ℕ → Refund
new_refund id order return_id amount method admin = record {
  id = id;
  order_id = order;
  return_request_id = return_id;
  amount = amount;
  payment_method = method;
  status = RefundStatus.pending;
  provider_refund_id = none;
  provider_response = none;
  requested_by_admin_id = admin;
  last_error = none;
  completed_at = none;
}

abbrev pub refund_of : ℕ → Refund → Bool
refund_of order r = r.order_id == order

abbrev is_missing : Option ℕ → List ReturnRequest → Bool
is_missing none rs = false
is_missing (some id) rs = not (exists? (λ (r : ReturnRequest). r.id == id) rs)

-- The constraints of refunds: a positive amount, one refund for an order, and the return request.
unfoldable pub violates_constraints : Refund → Store → Bool
violates_constraints r s =
    leb_ℤ r.amount (pos 0)
    || exists? (refund_of r.order_id) s.refunds
    || is_missing r.return_request_id s.returns

-- The second check, on the locked order.
abbrev check_locked : ℕ → Store → Option Error
check_locked id s = elim (find_order id s.orders) [
  | none ↦ some Error.refund_not_found
  | some o ↦
      if is_paid o.payment_status
      then none
      else some (
          if is_refunded o.payment_status
          then Error.refund_already_refunded
          else Error.refund_not_eligible)
]

abbrev raise : Option Error → Result Error (Unit {0})
raise none = ok tt
raise (some e) = err e

-- `Create`.
unfoldable pub create :
    ℕ → Option ℕ → ℤ → PaymentMethod → Option ℕ → Store → Result Error (Refund × Store)
create order return_id amount method admin s = do
  raise (check_eligibility order s)
  raise (check_locked order s)
  let r = new_refund s.next_refund order return_id amount method admin
  fail_if (violates_constraints r s) (Error.db constraint)
  ok (r, record s { refunds = s.refunds ++ r ∷ []; next_refund = suc s.next_refund })

-- What `encoding/json` and the JSONB column say of a provider's response: `decode` is
-- `json.Unmarshal` into a `sql.NullString`, where the outer `none` is its error.
pub record Json : Type 0 where
  pub decode : Text → Option (Option Text)
  pub is_json : Text → Bool

-- `if len(providerResponse) > 0 { ... }`: the value that is written.
unfoldable pub read_response : Json → Text → Result Error (Option Text)
read_response json raw =
    if is_empty raw
    then ok none
    else elim (json.decode raw) [ none ↦ err Error.unreadable_response | some v ↦ ok v ]

abbrev bad_json : Json → Option Text → Bool
bad_json json none = false
bad_json json (some t) = not (json.is_json t)

-- The columns of the UPDATE. `completed_at` is written from a variable that is never set.
abbrev pub set_refund : RefundStatus → Option Text → Option Text → Option Text → Refund → Refund
set_refund st provider_id response last r = record r {
  status = st;
  provider_refund_id = provider_id;
  provider_response = response;
  last_error = last;
  completed_at = none;
}

-- `SET payment_status = 'refunded' WHERE payment_status = 'paid'`.
abbrev pub set_refunded : Order → Order
set_refunded o =
    if is_paid o.payment_status then record o { payment_status = PaymentStatus.refunded } else o

unfoldable pub refund_order : RefundStatus → ℕ → Store → Store
refund_order st order s =
    if is_succeeded st then record s { orders = modify_order order set_refunded s.orders } else s

-- The status and event type of each notification; `none` where the `switch` falls to its default.
unfoldable pub event_of : RefundStatus → Option (Text × Text)
event_of RefundStatus.succeeded = some (codes "succeeded", codes "refund_succeeded")
event_of RefundStatus.failed = some (codes "failed", codes "refund_failed")
event_of RefundStatus.manual_review = some (codes "manual_review", codes "refund_manual_review")
event_of _ = none

-- `enqueueStatusNotification`.
unfoldable pub enqueue_status : ℕ → RefundStatus → ℕ → ℕ → Store → Result DbError Store
unfolding event_of
enqueue_status id st order now s = elim (find_order order s.orders) [
  | none ↦ err no_rows
  | some o ↦ elim (event_of st) [
    | none ↦ ok s
    | some (name, event_type) ↦ ok (enqueue_tx (event_key_for_refund id name) 0 event_type now s)
  ]
]

-- The writes of `UpdateStatus` on the refund that it has read and locked.
unfoldable pub write_status :
    Env
    → RefundStatus
    → Option Text
    → Option Text
    → Option Text
    → Refund
    → Store
    → Result DbError Store
write_status env st provider_id response last r s =
    let u = refund_order st r.order_id (record s {
      refunds = modify_refund r.id (set_refund st provider_id response last) s.refunds;
    }) in
    if env.notifications then enqueue_status r.id st r.order_id env.now u else ok u

-- `UpdateStatus`, without its last argument, which it does not use.
unfoldable pub update_status :
    Env → Json → ℕ → RefundStatus → Option Text → Text → Option Text → Store → Result Error Store
update_status env json id st provider_id raw last s = do
  fail_if (not (is_valid_status st)) Error.refund_invalid_status
  elim (find_refund id s.refunds) [
    | none ↦ err Error.refund_not_found
    | some r ↦ do
      fail_if (not (can_transition r.status st)) Error.refund_invalid_transition
      v ← read_response json raw
      fail_if (bad_json json v) (Error.db constraint)
      lift Error.db (write_status env st provider_id v last r s)
  ]
