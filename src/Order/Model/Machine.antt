-- ===== src/Order/Model/Machine.antt =====
-- The status machine as a relation: what can follow a status, and which statuses are final.
use plant_shop.Base.{Bool, false, ◌⊎◌, ℕ, ◌+◌, ◌≤◌, ◌<◌, ◌≡◌, true, arith}
use plant_shop.Order.Model.{Status, can_transition}

-- The statuses that an order can pass through, from one to another, by accepted transitions.
pub data PathTo (s : Status) : Status → Type 0 where
  here : PathTo s s
  next : {t u : Status} → PathTo s t → can_transition t u ≡ true → PathTo s u

-- How far fulfilment has come.
abbrev rank : Status → ℕ
rank Status.pending = 0
rank Status.processing = 1
rank Status.shipped = 2
rank Status.delivered = 3
rank Status.cancelled = 3
rank (Status.other s) = 3

abbrev pub steps : {s t : Status} → PathTo s t → ℕ
steps here = 0
steps (next p h) = steps p + 1

can_transition-rank : (s t : Status) → can_transition s t ≡ true → rank s < rank t
unfolding can_transition
can_transition-rank s t h = ground arith

-- Delivered and cancelled orders are final.
abbrev pub is_final : Status → Bool
is_final Status.delivered = true
is_final Status.cancelled = true
is_final _ = false

final_steps : (s : Status) (n : ℕ) → n + rank s ≤ 3 → (is_final s ≡ false) ⊎ (n ≡ 0)
final_steps s n h = ground arith

steps-rank : (s t : Status) (p : PathTo s t) → steps p + rank s ≤ rank t
steps-rank s _ here = omega arith
steps-rank s _ (next {t = t} {u = u} p h) =
    omega (arith, steps-rank s t p, can_transition-rank t u h)

rank_bound : (s : Status) → rank s ≤ 3
rank_bound s = ground arith

-- Along accepted transitions an order changes its status at most three times, and none leads on
-- from delivered or cancelled.
pub steps_bounded :
    (s t : Status) (p : PathTo s t) → (steps p ≤ 3) × ((is_final s ≡ false) ⊎ (steps p ≡ 0))
steps_bounded s t p =
    let a = steps-rank s t p in
    let b = rank_bound t in (omega arith, final_steps s (steps p) (omega arith))
