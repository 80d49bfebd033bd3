-- ===== src/Notification/Worker.antt =====
-- The worker that sends the outbox (backend/internal/notification/workers.go). What the mail server
-- answers is a parameter, and so is the message's text. The worker logs the errors of the repository
-- and goes on.
pub mod Backoff
pub mod Claimed
pub mod Progress
use plant_shop.Notification.Model.{Notification}
use plant_shop.Notification.Queue.{
  get_pending_due_limit, mark_sent, mark_failed, mark_permanent_failure, MarkError,
}
use plant_shop.Base.{
  ℕ, zero, suc, ◌+◌, ◌-◌, ◌*◌, ◌/◌, ◌%◌, ◌^◌, ◌≤◌, ◌<◌, min, ◌≡◌, refl, sym, ap, ◌∙◌, ◌≢◌, ◌↔◌, ◌⊎◌,
  inl, inr, Bool, true, false, not, ◌&&◌, ◌||◌, Option, none, some, List, [], ◌∷◌, ◌++◌, map, arith,
  ltb, leb, ◌==◌, if◌then◌else◌, ==_iff, ==_refl, Bool-cases, Option-cases, is_some, All, length,
  take, Result, ok, err, ◌>>=◌, ◌>>◌, fail_if, >>=-eq-ok, fail_if-eq-ok, Result-cases,
}
use plant_shop.Base.Int.{
  ℤ, pos, negsuc, pos_part, neg_part, sub_ℕ, ◌≤ℤ◌, ltb_ℤ, leb_ℤ, i64, i64_pos, of_bits, ◌+ℤ◌, ◌-ℤ◌,
  ◌*ℤ◌, ◌/ℤ◌, +ℤ-pos, -ℤ-pos, *ℤ-pos, eq_ℤ, eq_of_eq_ℤ, eq_ℤ_refl,
}
use plant_shop.Text.{
  Text, codes, byte_len, text_eq, is_empty, trim_space, parse_int, text_eq_refl, eq_of_text_eq,
  text_eq_iff,
}

-- The worker's `maxRetry`, as `NewWorker` sets it.
abbrev pub max_retry_of : ℤ → ℤ
max_retry_of n = if leb_ℤ n (pos 0) then pos 5 else n

-- What `Send` answers, and the time afterwards.
pub record Delivery : Type 0 where
  pub error : Option Text
  pub at : ℕ

-- The mail server, and whether the worker's context still runs when a row's turn comes.
pub record Sender : Type 0 where
  pub send : Notification → Delivery
  pub running : Notification → Bool

-- `1 << n.Attempts`, at most an hour.
unfoldable pub backoff_seconds : ℕ → ℤ
backoff_seconds attempts =
    let shifted = i64 (pos (2 ^ attempts)) in if ltb_ℤ (pos 3600) shifted then pos 3600 else shifted

-- `time.Now().Add(time.Duration(backoffSeconds) * time.Second)`: a duration counts nanoseconds, and
-- the one negative shift, 1 << 63, makes a duration that wraps to 0.
unfoldable pub next_attempt : ℕ → ℕ → ℕ
unfolding backoff_seconds
next_attempt attempts now = now + pos_part (backoff_seconds attempts *ℤ pos 1000000000) / 1000000000

-- The table after a call whose error is only logged.
abbrev pub or_logged : List Notification → Result MarkError (List Notification) → List Notification
or_logged rows (ok t) = t
or_logged rows (err e) = rows

-- `handleSendFailure`.
unfoldable pub handle_send_failure :
    ℤ → Notification → Text → ℕ → List Notification → List Notification
unfolding next_attempt
handle_send_failure max_retry n error now rows =
    if leb_ℤ max_retry (pos n.attempts +ℤ pos 1)
    then or_logged rows (mark_permanent_failure n.id error now rows)
    else or_logged rows (mark_failed n.id error (next_attempt n.attempts now) now rows)

-- `processOne`.
unfoldable pub process_one : ℤ → Sender → Notification → List Notification → List Notification
unfolding handle_send_failure
process_one max_retry sender n rows =
    let d = sender.send n in
    elim d.error [
      | some e ↦ handle_send_failure max_retry n e d.at rows
      | none ↦ mark_sent n.id d.at d.at rows
    ]

-- The loop of `processBatch`.
unfoldable pub process_all : ℤ → Sender → List Notification → List Notification → List Notification
unfolding process_one
process_all max_retry sender [] rows = rows
process_all max_retry sender (n ∷ ns) rows =
    let rest = process_all max_retry sender ns (process_one max_retry sender n rows) in
    if sender.running n then rest else rows

-- `processBatch`.
unfoldable pub process_batch : ℤ → Sender → ℕ → List Notification → List Notification
unfolding process_all get_pending_due_limit
process_batch max_retry sender now rows =
    let (claimed, t) = get_pending_due_limit now (pos 10) rows in
    process_all max_retry sender claimed t
