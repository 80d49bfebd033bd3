-- ===== src/Notification/Queue.antt =====
-- The outbox as the worker's queue: claiming due rows and recording what became of them
-- (backend/internal/notification/repository.go). Times are in seconds.
use plant_shop.Notification.Model.{Notification, OutboxStatus}
use plant_shop.Base.{
  ℕ, suc, ◌+◌, Bool, true, false, ◌&&◌, ◌||◌, Option, none, some, List, map, ltb, leb, ◌==◌,
  if◌then◌else◌, take, Result, ok, err,
}
use plant_shop.Base.Int.{ℤ, pos, pos_part, ltb_ℤ}
use plant_shop.Base.Sort.{sort_by}
use plant_shop.Base.Table.{exists?, select, select_one, update_where, find, modify}
use plant_shop.Text.{Text, text_eq}

abbrev pub is_pending : OutboxStatus → Bool
is_pending OutboxStatus.pending = true
is_pending OutboxStatus.processing = false
is_pending OutboxStatus.sent = false
is_pending OutboxStatus.failed = false

abbrev pub is_processing : OutboxStatus → Bool
is_processing OutboxStatus.pending = false
is_processing OutboxStatus.processing = true
is_processing OutboxStatus.sent = false
is_processing OutboxStatus.failed = false

-- `(status = 'pending' AND next_attempt_at <= NOW()) OR (status = 'processing' AND updated_at <
-- NOW() - INTERVAL '10 minutes')`.
abbrev pub is_due : ℕ → Notification → Bool
is_due now n =
    is_pending n.status && leb n.next_attempt_at now
    || is_processing n.status && ltb (n.updated_at + 600) now

-- `ORDER BY next_attempt_at ASC`; of equal rows the model takes the table's order.
abbrev pub is_earlier : Notification → Notification → Bool
is_earlier n m = leb n.next_attempt_at m.next_attempt_at

-- `if limit < 1 || limit > 10 { limit = 10 }`.
unfoldable pub clamp : ℤ → ℕ
clamp limit = if ltb_ℤ limit (pos 1) || ltb_ℤ (pos 10) limit then 10 else pos_part limit

-- `SET status = 'processing', updated_at = NOW()`.
abbrev pub start : ℕ → Notification → Notification
start now n = record n { status = OutboxStatus.processing; updated_at = now }

-- `id IN (...)`.
abbrev pub id_in : List Notification → Notification → Bool
id_in picked n = exists? (λ (m : Notification). m.id == n.id) picked

unfoldable pub pick : ℕ → ℤ → List Notification → List Notification
unfolding clamp
pick now limit rows = take (clamp limit) (sort_by is_earlier (select (is_due now) rows))

-- `GetPendingDueLimit`: the claimed rows, as updated, and the table.
unfoldable pub get_pending_due_limit :
    ℕ → ℤ → List Notification → List Notification × List Notification
unfolding pick
get_pending_due_limit now limit rows =
    let p = id_in (pick now limit rows) in
    (map (start now) (select p rows), update_where p (start now) rows)

unfoldable pub get_pending_due : ℕ → List Notification → List Notification × List Notification
unfolding get_pending_due_limit
get_pending_due now rows = get_pending_due_limit now (pos 50) rows

abbrev pub find_row : ℕ → List Notification → Option Notification
find_row = find (λ (n : Notification). n.id)

abbrev pub modify_row : ℕ → (Notification → Notification) → List Notification → List Notification
modify_row = modify (λ (n : Notification). n.id)

-- `MarkSent`: a row that is not being processed is left, without an error.
unfoldable pub mark_sent : ℕ → ℕ → ℕ → List Notification → List Notification
mark_sent id sent_at now rows =
    modify_row id
      (λ n.
        if is_processing n.status
        then record n { status = OutboxStatus.sent; sent_at = some sent_at; updated_at = now }
        else n)
      rows

-- `RowsAffected() == 0`.
pub data MarkError : Type 0 where
  not_found : MarkError

-- `MarkFailed`.
unfoldable pub mark_failed :
    ℕ → Text → ℕ → ℕ → List Notification → Result MarkError (List Notification)
mark_failed id error next now rows = elim (find_row id rows) [
  | none ↦ err not_found
  | some n ↦
      if is_processing n.status
      then ok (
          modify_row id
            (λ m. record m {
              status = OutboxStatus.pending;
              last_error = some error;
              next_attempt_at = next;
              attempts = suc m.attempts;
              updated_at = now;
            })
            rows)
      else err not_found
]

-- `MarkPermanentFailure`.
unfoldable pub mark_permanent_failure :
    ℕ → Text → ℕ → List Notification → Result MarkError (List Notification)
mark_permanent_failure id error now rows = elim (find_row id rows) [
  | none ↦ err not_found
  | some n ↦
      if is_pending n.status || is_processing n.status
      then ok (
          modify_row id
            (λ m. record m {
              status = OutboxStatus.failed;
              last_error = some error;
              updated_at = now;
            })
            rows)
      else err not_found
]

-- `GetByID`.
unfoldable pub get_by_id : ℕ → List Notification → Result MarkError Notification
get_by_id id rows = elim (find_row id rows) [ none ↦ err not_found | some n ↦ ok n ]

-- `GetByEventKey`.
unfoldable pub get_by_event_key : Text → List Notification → Result MarkError Notification
get_by_event_key key rows = elim (select_one (λ (n : Notification). text_eq n.event_key key) rows) [
  | none ↦ err not_found
  | some n ↦ ok n
]
