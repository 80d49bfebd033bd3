-- ===== src/Payment/Reconciliation.antt =====
-- What the shop knows of a payment attempt and whether it may be verified again
-- (backend/internal/payment/repository.go, the reconciliation queries).
use plant_shop.Order.Model.{Order, Status, PaymentStatus, is_cancelled}
use plant_shop.Order.Model as OrderModel
use plant_shop.Payment.Model.{
  Attempt, AttemptStatus, Event, EventType, irr, is_pending, is_failed, is_paid, valid_authority,
}
use plant_shop.Payment.Errors.{Error}
use plant_shop.Payment.Repository.{matches_provider}
use plant_shop.Store.{Store, Env, find_order}
use plant_shop.Base.{
  ℕ, Bool, true, false, not, ◌&&◌, ◌||◌, Option, none, some, List, [], ◌∷◌, ltb, ◌==◌,
  if◌then◌else◌, is_some, take, Result, ok, err,
}
use plant_shop.Base.Sort.{sort_by}
use plant_shop.Base.Int.{pos, ltb_ℤ}
use plant_shop.Base.Table.{select}
use plant_shop.Text.{Text, byte_len, text_eq}

pub data Reason : Type 0 where
  awaiting_verification settled manual_reconciliation_required refund_required : Reason
  provider_binding_mismatch missing_authority invalid_binding : Reason
  verification_rejected verification_uncertain payments_disabled : Reason

-- `last_outcome`, which is "" where no event is recorded.
pub data LastOutcome : Type 0 where
  nothing verified_success manual_required definitive_rejection uncertain already_settled :
      LastOutcome

pub record Reconciliation : Type 0 where
  pub attempt : Attempt
  pub order_status : Status
  pub payment_status : PaymentStatus
  pub reconciliation_required : Bool
  pub reason : Reason
  pub retryable : Bool
  pub last_outcome : LastOutcome

-- The `LEFT JOIN LATERAL`: the newest event of the attempt.
unfoldable pub last_event : ℕ → List Event → Option EventType
last_event id [] = none
last_event id (e ∷ es) = elim (last_event id es) [
  | some t ↦ some t
  | none ↦ if e.attempt_id == id then some e.event_type else none
]

unfoldable pub outcome_of : Option EventType → LastOutcome
outcome_of none = LastOutcome.nothing
outcome_of (some EventType.paid) = LastOutcome.verified_success
outcome_of (some EventType.reconciliation) = LastOutcome.manual_required
outcome_of (some EventType.verify_rejected) = LastOutcome.definitive_rejection
outcome_of (some EventType.verify_uncertain) = LastOutcome.uncertain

abbrev retry_reason : Option EventType → Reason
retry_reason none = Reason.awaiting_verification
retry_reason (some EventType.paid) = Reason.awaiting_verification
retry_reason (some EventType.reconciliation) = Reason.awaiting_verification
retry_reason (some EventType.verify_rejected) = Reason.verification_rejected
retry_reason (some EventType.verify_uncertain) = Reason.verification_uncertain

abbrev pub is_reconciliation : AttemptStatus → Bool
is_reconciliation AttemptStatus.reconciliation = true
is_reconciliation _ = false

-- `a.Currency != "IRR" || a.Amount < 10000 || len(*a.Authority) > 64 || !validAuthority(*a.Authority)`.
abbrev pub bad_binding : Attempt → Text → Bool
bad_binding a authority =
    not (text_eq a.currency irr)
    || ltb_ℤ a.amount (pos 10000)
    || ltb 64 (byte_len authority)
    || not (valid_authority authority)

-- The `switch` over what hinders a verification: the reason and `Retryable`.
unfoldable pub assess : Env → Attempt → Order → Option EventType → Reason × Bool
assess env a o event =
    if is_paid a.status
    then (Reason.settled, false)
    else if is_reconciliation a.status
    then (
      if is_cancelled o.status
            || OrderModel.is_paid o.payment_status
            || OrderModel.is_refunded o.payment_status
          then Reason.refund_required
          else Reason.manual_reconciliation_required,
      false,
    )
    else if not (matches_provider env a)
    then (Reason.provider_binding_mismatch, false)
    else elim a.authority [
      | none ↦ (Reason.missing_authority, false)
      | some t ↦
          if bad_binding a t then (Reason.invalid_binding, false) else (retry_reason event, true)
    ]

-- A row of the query, as the loop fills it.
unfoldable pub row_of : Env → List Event → Attempt → Order → Reconciliation
unfolding last_event outcome_of assess
row_of env events a o =
    let event = last_event a.id events in
    let (reason, retryable) = assess env a o event in
    record {
      attempt = a;
      order_status = o.status;
      payment_status = o.payment_status;
      reconciliation_required = not (is_paid a.status);
      reason = reason;
      retryable = retryable;
      last_outcome = outcome_of event;
    }

-- The conditions of the query, 0 standing for a filter that is not set.
unfoldable pub is_listed : ℕ → ℕ → Attempt → Bool
is_listed id before a =
    (id == 0 || a.id == id)
    && (before == 0 || ltb a.id before)
    && (not (id == 0)
        || is_pending a.status
        || is_reconciliation a.status
        || (is_failed a.status && is_some a.authority))

-- `JOIN orders o ON o.id = a.order_id`.
unfoldable pub joined : Env → Store → List Attempt → List Reconciliation
unfolding row_of
joined env s [] = []
joined env s (a ∷ rest) = elim (find_order a.order_id s.orders) [
  | none ↦ joined env s rest
  | some o ↦ row_of env s.events a o ∷ joined env s rest
]

abbrev is_newer : Reconciliation → Reconciliation → Bool
is_newer x y = ltb y.attempt.id x.attempt.id

-- `reconciliationRows`.
unfoldable pub reconciliation_rows : Env → ℕ → ℕ → ℕ → Store → List Reconciliation
unfolding joined is_listed
reconciliation_rows env id before limit s =
    take limit (sort_by is_newer (joined env s (select (is_listed id before) s.attempts)))

-- `GetReconciliation`.
unfoldable pub get_reconciliation : Env → ℕ → Store → Result Error Reconciliation
unfolding reconciliation_rows
get_reconciliation env id s = elim (reconciliation_rows env id 0 1 s) [
  | [] ↦ err Error.attempt_not_found
  | ◌∷◌ r rs ↦ ok r
]

-- `ListAttemptsForOrder`.
unfoldable pub list_attempts_for_order : ℕ → Store → List Attempt
list_attempts_for_order id s =
    sort_by (λ (x : Attempt) (y : Attempt). ltb y.id x.id)
      (select (λ (a : Attempt). a.order_id == id) s.attempts)
