-- ===== src/Notification/Worker/Claimed.antt =====
-- What a claim of due rows hands to the worker.
use plant_shop.Notification.Model.{Notification}
use plant_shop.Notification.Queue.{
  is_pending, is_processing, is_due, is_earlier, clamp, start, id_in, pick, get_pending_due_limit,
  find_row,
}
use plant_shop.Base.{
  ℕ, zero, suc, ◌-◌, ◌≤◌, ◌<◌, ◌≡◌, refl, inl, inr, Bool, true, false, ◌||◌, some, List, [], ◌∷◌,
  map, arith, ◌==◌, if◌then◌else◌, ==_refl, Bool-cases, All, take,
}
use plant_shop.Base.Int.{ℤ, pos, negsuc, pos_part}
use plant_shop.Base.Table.{exists?, select, update_where, sum_by, All-find, All-select}
use mathlib.Core.Path.{subst}
use plant_shop.Base.Sort.{sort_by, All-sort_by, All-take, IsFilled, sort_by-IsFilled}
use plant_shop.Base.Keys.{IsKeyed, IsFound, IsKeyed-IsFound}

-- The attempts that a row may still take, and one for the row itself; none for a row that is sent or
-- given up.
abbrev pub left : ℤ → Notification → ℕ
left max_retry n =
    if is_pending n.status || is_processing n.status
    then suc (pos_part max_retry - n.attempts)
    else 0

-- What is left for all rows.
abbrev pub work : ℤ → List Notification → ℕ
work max_retry = sum_by (left max_retry)

-- The column `attempts` is a 32-bit integer.
abbrev pub HasCount : Notification → Type 0
HasCount n = n.attempts < 2147483648

-- A row of the table that is due.
IsPicked : ℕ → List Notification → Notification → Type 0
IsPicked now rows n = (find_row n.id rows ≡ some n) × (is_due now n ≡ true)

pick-IsPicked :
    (now : ℕ) (limit : ℤ) (rows : List Notification)
    → IsKeyed (λ (n : Notification). n.id) rows
    → All (IsPicked now rows) (pick now limit rows)
unfolding pick IsPicked
pick-IsPicked now limit rows k =
    All-take (IsPicked now rows) (clamp limit) (sort_by is_earlier (select (is_due now) rows)) (
      All-sort_by is_earlier (IsPicked now rows) (select (is_due now) rows) (
        All-select (IsFound (λ (n : Notification). n.id) rows) (IsPicked now rows) (is_due now) rows
          (λ r f d. (f, d)) (IsKeyed-IsFound (λ (n : Notification). n.id) rows k)))

-- A row of the table under a picked id is due.
id_in-due :
    (now : ℕ) (rows picked : List Notification) (r : Notification)
    → All (IsPicked now rows) picked
    → find_row r.id rows ≡ some r
    → id_in picked r ≡ true
    → is_due now r ≡ true
unfolding IsPicked
id_in-due now rows [] r h f e = cc
id_in-due now rows (p ∷ ps) r h f e = elim (Bool-cases (p.id == r.id)) [
  | inl t ↦
      let same : p.id ≡ r.id = ground arith in
      let found : find_row r.id rows ≡ some p = subst (λ k. find_row k rows ≡ some p) same h.0.0 in
      let one : p ≡ r = cc in subst (λ x. is_due now x ≡ true) one h.0.1
  | inr t ↦ id_in-due now rows ps r h.1 f (ground arith)
]

-- Something is picked if something is due.
IsFilled-select :
    (now : ℕ) (rows : List Notification)
    → exists? (is_due now) rows ≡ true
    → IsFilled (select (is_due now) rows)
IsFilled-select now [] d = cc
IsFilled-select now (r ∷ rows) d = elim (Bool-cases (is_due now r)) [
  | inl e ↦ rw e tt
  | inr e ↦ rw e (IsFilled-select now rows (ground arith))
]

take-first :
    (k : ℕ) (ns : List Notification)
    → 0 < k
    → IsFilled ns
    → (m : Notification) × (ms : List Notification) × (take k ns ≡ m ∷ ms)
take-first zero ns p h = let no : ⊥ = omega arith in absurd no
take-first (suc k) [] p h = absurd h
take-first (suc k) (n ∷ ns) p h = (n, take k ns, refl)

clamp-bounds : (limit : ℤ) → (0 < clamp limit) × (clamp limit ≤ 10)
unfolding clamp
clamp-bounds (pos n) = ground arith
clamp-bounds (negsuc n) = ground arith

pick-first :
    (now : ℕ) (limit : ℤ) (rows : List Notification)
    → exists? (is_due now) rows ≡ true
    → (m : Notification) × (ms : List Notification) × (pick now limit rows ≡ m ∷ ms)
unfolding pick
pick-first now limit rows d =
    take-first (clamp limit) (sort_by is_earlier (select (is_due now) rows)) (clamp-bounds limit).0
      (sort_by-IsFilled is_earlier (select (is_due now) rows) (IsFilled-select now rows d))

-- The first row that a test on the id selects is found as it is updated.
first_selected :
    (p : Notification → Bool) (now : ℕ) (rows : List Notification) (e : Notification)
    → ((x y : Notification) → x.id ≡ y.id → p x ≡ p y)
    → find_row e.id rows ≡ some e
    → p e ≡ true
    → (r : Notification) × (rs : List Notification) × (select p rows ≡ r ∷ rs)
      × (p r ≡ true)
      × (find_row r.id rows ≡ some r)
      × (find_row r.id (update_where p (start now) rows) ≡ some (start now r))
first_selected p now [] e same f t = cc
first_selected p now (x ∷ rows) e same f t = elim (Bool-cases (p x)) [
  | inl b ↦ (x, select p rows, rw b refl, b, ground arith, rw b (ground (arith, ==_refl x.id)))
  | inr b ↦
      let later : find_row e.id rows ≡ some e = elim (Bool-cases (x.id == e.id)) [
        | inl q ↦ let i : x.id ≡ e.id = ground arith in let c = same x e i in cc
        | inr q ↦ ground arith
      ] in
      let (r, rs, a, c, d, g) = first_selected p now rows e same later t in
      let apart : (x.id == r.id) ≡ false = elim (Bool-cases (x.id == r.id)) [
        | inl q ↦ let i : x.id ≡ r.id = ground arith in let z = same x r i in cc
        | inr q ↦ q
      ] in
      (r, rs, rw b a, c, rw apart d, rw (b, apart) g)
]

-- What the worker gets from a claim where something is due: a first row, as it stands in the table.
pub record Claimed (m : ℤ) (rows claimed t : List Notification) : Type 0 where
  pub first : Notification
  pub rest : List Notification
  pub claimed_rows : claimed ≡ first ∷ rest
  pub found : find_row first.id t ≡ some first
  pub processing : is_processing first.status ≡ true
  pub counted : HasCount first
  pub same_work : work m t ≤ work m rows

update_where-work :
    (m : ℤ) (now : ℕ) (p : Notification → Bool) (rows : List Notification)
    → All (λ (r : Notification). p r ≡ true → is_due now r ≡ true) rows
    → work m (update_where p (start now) rows) ≤ work m rows
update_where-work m now p [] h = omega arith
update_where-work m now p (r ∷ rows) h = elim (Bool-cases (p r)) [
  | inl e ↦ rw e (
      let d = h.0 e in
      let w = update_where-work m now p rows h.1 in
      let one : left m (start now r) ≤ left m r = ground arith in omega arith)
  | inr e ↦ rw e (let w = update_where-work m now p rows h.1 in omega arith)
]

All-map {ℓ κ} :
    {P : Notification → Type ℓ} {Q : Notification → Type κ}
    → ((n : Notification) → P n → Q n)
    → (ns : List Notification) → All P ns
    → All Q ns
All-map step [] h = tt
All-map step (n ∷ ns) h = (step n h.0, All-map step ns h.1)

pub get_pending_due_limit-Claimed :
    (m : ℤ) (now : ℕ) (limit : ℤ) (rows : List Notification)
    → IsKeyed (λ (n : Notification). n.id) rows
    → All HasCount rows
    → exists? (is_due now) rows ≡ true
    → Claimed m rows
        (get_pending_due_limit now limit rows).0
        (get_pending_due_limit now limit rows).1
unfolding get_pending_due_limit IsPicked
get_pending_due_limit-Claimed m now limit rows k c d =
    let key = λ (n : Notification). n.id in
    let picked = pick now limit rows in
    let each = pick-IsPicked now limit rows k in
    let (e, es, q) = pick-first now limit rows d in
    let h = subst (All (IsPicked now rows)) q each in
    let (r, rs, s, a, f, g) =
      first_selected (id_in picked) now rows e (λ x y i. rw i refl) h.0.0
        (rw q (ground (arith, ==_refl e.id))) in
    record {
      first = start now r;
      rest = map (start now) rs;
      claimed_rows = rw s refl;
      found = g;
      processing = refl;
      counted = All-find HasCount key r.id rows r c f;
      same_work = update_where-work m now (id_in picked) rows (
          All-map (λ x found. id_in-due now rows picked x each found) rows
            (IsKeyed-IsFound key rows k));
    }
