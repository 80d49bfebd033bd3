-- ===== src/Returns/Repository.antt =====
-- The transactions on return requests (backend/internal/return/repository.go).
pub mod Flow
use plant_shop.Order.Model.{Order, is_paid, is_delivered}
use plant_shop.Returns.Model.{
  ReturnRequest, ReturnStatus, RequestInput, is_valid_status, can_transition, is_refunded,
}
use plant_shop.Refund.Model.{Refund, is_succeeded}
use plant_shop.Notification.Model.{event_key_for_return_request}
use plant_shop.Notification.Outbox.{enqueue_tx}
use plant_shop.Store.{Store, Env, DbError, no_rows, constraint, lift, find_order}
use plant_shop.Order.Checkout.{nullable_string}
use plant_shop.Base.{
  ℕ, suc, Bool, false, not, ◌&&◌, ◌||◌, Option, none, some, List, [], ◌∷◌, ◌++◌, ltb, ◌==◌,
  if◌then◌else◌, length, Result, ok, err, ◌>>=◌, ◌>>◌, fail_if,
}
use plant_shop.Base.Table.{exists?, find, modify}
use plant_shop.Text.{Text, codes, is_empty}

pub data Error : Type 0 where
  return_request_not_found return_already_exists return_invalid_status : Error
  return_not_eligible return_invalid_transition : Error
  db : DbError → Error

abbrev pub find_return : ℕ → List ReturnRequest → Option ReturnRequest
find_return = find (λ (r : ReturnRequest). r.id)

abbrev pub modify_return :
    ℕ → (ReturnRequest → ReturnRequest) → List ReturnRequest → List ReturnRequest
modify_return = modify (λ (r : ReturnRequest). r.id)

abbrev pub return_of : ℕ → ReturnRequest → Bool
return_of order r = r.order_id == order

-- `WHERE id = $1 AND user_id = $2`.
unfoldable pub own_order : ℕ → ℕ → Store → Option Order
own_order id user s = elim (find_order id s.orders) [
  | none ↦ none
  | some o ↦ if o.user_id == user then some o else none
]

-- `CheckEligibility`; `none` is a nil error.
unfoldable pub check_eligibility : ℕ → ℕ → Store → Option Error
check_eligibility id user s = elim (own_order id user s) [
  | none ↦ some Error.return_request_not_found
  | some o ↦
      if not (is_delivered o.status) || not (is_paid o.payment_status)
      then some Error.return_not_eligible
      else if exists? (return_of id) s.returns
      then some Error.return_already_exists
      else none
]

-- The inserted row.
unfoldable pub new_request : ℕ → ℕ → ℕ → RequestInput → ℕ → ReturnRequest
new_request id order user input now = record {
  id = id;
  order_id = order;
  user_id = user;
  status = ReturnStatus.requested;
  reason = input.reason;
  customer_note = nullable_string input.customer_note;
  admin_note = none;
  requested_at = now;
  reviewed_at = none;
  received_at = none;
}

abbrev too_long : ℕ → Option Text → Bool
too_long n none = false
too_long n (some t) = ltb n (length t)

-- The CHECK constraints of return_requests, on the length in characters.
unfoldable pub violates_checks : ReturnRequest → Bool
violates_checks r =
    is_empty r.reason
    || ltb 1024 (length r.reason)
    || too_long 2048 r.customer_note
    || too_long 2048 r.admin_note

-- The status and event type of each notification; `none` where the `switch` falls to its default.
unfoldable pub event_of : ReturnStatus → Option (Text × Text)
event_of ReturnStatus.requested = some (codes "requested", codes "return_requested")
event_of ReturnStatus.approved = some (codes "approved", codes "return_approved")
event_of ReturnStatus.rejected = some (codes "rejected", codes "return_rejected")
event_of ReturnStatus.received = some (codes "received", codes "return_received")
event_of ReturnStatus.refund_pending = some (codes "refund_pending", codes "refund_initiated")
event_of ReturnStatus.refunded = some (codes "refunded", codes "refund_succeeded")
event_of ReturnStatus.refund_failed = some (codes "refund_failed", codes "refund_failed")
event_of (ReturnStatus.other s) = none

-- `enqueueStatusNotification`.
unfoldable pub enqueue_status : ℕ → ReturnStatus → ℕ → Store → Result DbError Store
unfolding event_of
enqueue_status id st now s = elim (find_return id s.returns) [
  | none ↦ err no_rows
  | some r ↦ elim (find_order r.order_id s.orders) [
    | none ↦ err no_rows
    | some o ↦ elim (event_of st) [
      | none ↦ ok s
      | some (name, event_type) ↦
          ok (enqueue_tx (event_key_for_return_request id name) 0 event_type now s)
    ]
  ]
]

abbrev notify_status : Env → ℕ → ReturnStatus → Store → Result DbError Store
notify_status env id st s = if env.notifications then enqueue_status id st env.now s else ok s

-- `CreateRequest`.
unfoldable pub create_request :
    Env → ℕ → ℕ → RequestInput → Store → Result Error (ReturnRequest × Store)
create_request env id user input s = elim (own_order id user s) [
  | none ↦ err Error.return_request_not_found
  | some o ↦ do
    fail_if (not (is_delivered o.status) || not (is_paid o.payment_status))
        Error.return_not_eligible
    fail_if (exists? (return_of id) s.returns) Error.return_already_exists
    let r = new_request s.next_return id user input env.now
    fail_if (violates_checks r) (Error.db constraint)
    t ← lift Error.db (
        notify_status env r.id ReturnStatus.requested
          (record s { returns = s.returns ++ r ∷ []; next_return = suc s.next_return }))
    ok (r, t)
]

-- `buildUpdateColumns` and the UPDATE it is part of.
unfoldable pub set_return : ReturnStatus → Option Text → ℕ → ReturnRequest → ReturnRequest
set_return ReturnStatus.approved note now r = record r {
  status = ReturnStatus.approved;
  reviewed_at = some now;
  admin_note = note;
}
set_return ReturnStatus.rejected note now r = record r {
  status = ReturnStatus.rejected;
  reviewed_at = some now;
  admin_note = note;
}
set_return ReturnStatus.received note now r = record r {
  status = ReturnStatus.received;
  received_at = some now;
  admin_note = note;
}
set_return st note now r = record r { status = st; admin_note = note }

-- `SELECT EXISTS (SELECT 1 FROM refunds WHERE order_id = $1 AND status = 'succeeded')`.
abbrev pub pays_back : ℕ → Refund → Bool
pays_back order f = f.order_id == order && is_succeeded f.status

-- `UpdateStatus`.
unfoldable pub update_status : Env → ℕ → ReturnStatus → Option Text → Store → Result Error Store
update_status env id st note s = do
  fail_if (not (is_valid_status st)) Error.return_invalid_status
  elim (find_return id s.returns) [
    | none ↦ err Error.return_request_not_found
    | some r ↦ do
      fail_if (not (can_transition r.status st)) Error.return_invalid_transition
      fail_if (is_refunded st && not (exists? (pays_back r.order_id) s.refunds))
          Error.return_invalid_transition
      fail_if (violates_checks (set_return st note env.now r)) (Error.db constraint)
      lift Error.db (
          notify_status env id st
            (record s { returns = modify_return id (set_return st note env.now) s.returns }))
  ]
