-- ===== src/Notification/Worker/Progress.antt =====
-- Every batch that finds a row to send brings the outbox closer to having none left.
use plant_shop.Notification.Model.{Notification}
use plant_shop.Notification.Queue.{
  is_pending, is_processing, is_due, find_row, modify_row, mark_sent, mark_failed,
  mark_permanent_failure,
}
use plant_shop.Notification.Worker.{
  Sender, handle_send_failure, process_one, process_all, process_batch, or_logged,
}
use plant_shop.Base.{
  ℕ, suc, ◌-◌, ◌≤◌, ◌<◌, ◌≡◌, refl, inl, inr, true, false, ◌||◌, some, List, [], ◌∷◌, arith, ◌==◌,
  Bool-cases, Option-cases, All,
}
use plant_shop.Base.Int.{ℤ, pos, pos_part, leb_ℤ, ◌+ℤ◌, +ℤ-pos}
use plant_shop.Base.Table.{exists?, sum_by, find, modify, sum_by-modify}
use plant_shop.Text.{Text}
use plant_shop.Base.Keys.{IsKeyed}
use plant_shop.Notification.Worker.Claimed.{left, work, HasCount, get_pending_due_limit-Claimed}

-- A row that is found.
module _ {ℓ} {A : Type ℓ} (key : A → ℕ) (g : A → ℕ) (k : ℕ) (f : A → A) where
  sum_by-modify-le :
      (rows : List A)
      → ((r : A) → find key k rows ≡ some r → g (f r) ≤ g r)
      → sum_by g (modify key k f rows) ≤ sum_by g rows
  sum_by-modify-le [] h = omega arith
  sum_by-modify-le (x ∷ rows) h = elim (Bool-cases (key x == k)) [
    | inl e ↦ rw e (let d = h x (rw e refl) in omega arith)
    | inr e ↦ rw e (let d = sum_by-modify-le rows (λ r q. h r (rw e q)) in omega arith)
  ]

mark_sent-work :
    (m : ℤ) (id at now : ℕ) (rows : List Notification)
    → work m (mark_sent id at now rows) ≤ work m rows
unfolding mark_sent
mark_sent-work m id at now rows =
    sum_by-modify-le (λ (n : Notification). n.id) (left m) id _ rows (λ r e. ground arith)

mark_permanent_failure-work :
    (m : ℤ) (id : ℕ) (e : Text) (now : ℕ) (rows : List Notification)
    → work m (or_logged rows (mark_permanent_failure id e now rows)) ≤ work m rows
unfolding mark_permanent_failure
mark_permanent_failure-work m id e now rows = elim (Option-cases (find_row id rows)) [
  | inl n ↦ rw (or_logged, n) (omega arith)
  | inr (r, q) ↦ elim (Bool-cases (is_pending r.status || is_processing r.status)) [
    | inr b ↦ rw (or_logged, q, b) (omega arith)
    | inl b ↦
        rw (or_logged, q, b)
          (sum_by-modify-le (λ (n : Notification). n.id) (left m) id _ rows (λ r e. ground arith))
  ]
]

mark_failed-work :
    (m : ℤ) (id : ℕ) (e : Text) (next now : ℕ) (rows : List Notification)
    → work m (or_logged rows (mark_failed id e next now rows)) ≤ work m rows
unfolding mark_failed
mark_failed-work m id e next now rows = elim (Option-cases (find_row id rows)) [
  | inl n ↦ rw (or_logged, n) (omega arith)
  | inr (r, q) ↦ elim (Bool-cases (is_processing r.status)) [
    | inr b ↦ rw (or_logged, q, b) (omega arith)
    | inl b ↦
        rw (or_logged, q, b)
          (sum_by-modify-le (λ (n : Notification). n.id) (left m) id _ rows (λ s t. ground arith))
  ]
]

process_one-work :
    (m : ℤ) (sender : Sender) (n : Notification) (rows : List Notification)
    → work m (process_one m sender n rows) ≤ work m rows
unfolding process_one handle_send_failure
process_one-work m sender n rows =
    let d = sender.send n in
    elim (Option-cases d.error) [
      | inl e ↦ rw (process_one, e) (mark_sent-work m n.id d.at d.at rows)
      | inr (t, e) ↦ elim (Bool-cases (leb_ℤ m (pos n.attempts +ℤ pos 1))) [
        | inl b ↦ rw (process_one, e, b) (mark_permanent_failure-work m n.id t d.at rows)
        | inr b ↦ rw (process_one, e, b) (mark_failed-work m n.id t _ d.at rows)
      ]
    ]

process_all-work :
    (m : ℤ) (sender : Sender) (ns rows : List Notification)
    → work m (process_all m sender ns rows) ≤ work m rows
unfolding process_all
process_all-work m sender [] rows = omega arith
process_all-work m sender (n ∷ ns) rows =
    let first = process_one-work m sender n rows in
    let rest = process_all-work m sender ns (process_one m sender n rows) in ground arith

modify_row-progress :
    (m : ℤ) (id : ℕ) (f : Notification → Notification) (rows : List Notification) (n : Notification)
    → find_row id rows ≡ some n
    → left m (f n) < left m n
    → work m (modify_row id f rows) < work m rows
modify_row-progress m id f rows n e h =
    let moved = sum_by-modify (λ (x : Notification). x.id) (left m) id f rows n e in omega arith

-- A failure that is not the last one leaves an attempt less.
retry-less :
    (m : ℤ) (a : ℕ)
    → a < 2147483648
    → leb_ℤ m (pos a +ℤ pos 1) ≡ false
    → pos_part m - suc a < pos_part m - a
retry-less m a c b = let same = +ℤ-pos a 1 (omega arith) in ground arith

-- One row that is being processed as it was claimed.
process_one-progress :
    (m : ℤ) (sender : Sender) (n : Notification) (rows : List Notification)
    → find_row n.id rows ≡ some n
    → is_processing n.status ≡ true
    → HasCount n
    → work m (process_one m sender n rows) < work m rows
unfolding process_one handle_send_failure mark_sent mark_failed mark_permanent_failure
process_one-progress m sender n rows e p c =
    let d = sender.send n in
    elim (Option-cases d.error) [
      | inl q ↦ rw (process_one, q) (modify_row-progress m n.id _ rows n e (ground arith))
      | inr (t, q) ↦ elim (Bool-cases (leb_ℤ m (pos n.attempts +ℤ pos 1))) [
        | inl b ↦
            let any : is_pending n.status || is_processing n.status ≡ true = ground arith in
            rw (process_one, q, b)
              (rw (or_logged, e, any) (modify_row-progress m n.id _ rows n e (ground arith)))
        | inr b ↦
            let less = retry-less m n.attempts c b in
            rw (process_one, q, b)
              (rw (or_logged, e, p) (modify_row-progress m n.id _ rows n e (ground arith)))
      ]
    ]

process_all-progress :
    (m : ℤ) (sender : Sender) (n : Notification) (ns rows : List Notification)
    → sender.running n ≡ true
    → find_row n.id rows ≡ some n
    → is_processing n.status ≡ true
    → HasCount n
    → work m (process_all m sender (n ∷ ns) rows) < work m rows
unfolding process_all
process_all-progress m sender n ns rows r e p c =
    let one = process_one-progress m sender n rows e p c in
    let rest = process_all-work m sender ns (process_one m sender n rows) in rw r (omega arith)

-- If row ids are distinct, attempts are below 2^31 and the worker runs, a batch at a time at which
-- some row is due strictly lowers the work left: the sum, over the rows that are neither sent nor
-- failed, of one more than the attempts that are left, whatever the mail server answers.
pub process_batch-progress :
    (m : ℤ) (sender : Sender) (now : ℕ) (rows : List Notification)
    → IsKeyed (λ (n : Notification). n.id) rows
    → All HasCount rows
    → ((n : Notification) → sender.running n ≡ true)
    → exists? (is_due now) rows ≡ true
    → work m (process_batch m sender now rows) < work m rows
unfolding process_batch
process_batch-progress m sender now rows k c r d =
    let h = get_pending_due_limit-Claimed m now (pos 10) rows k c d in
    rw h.claimed_rows (
      let all =
        process_all-progress m sender h.first h.rest _ (r h.first) h.found h.processing h.counted in
      let le = h.same_work in omega arith)
