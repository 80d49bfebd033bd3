-- ===== src/Notification/Worker/Backoff.antt =====
-- How long the worker waits before it tries again.
use plant_shop.Notification.Worker.{backoff_seconds, next_attempt}
use plant_shop.Base.{
  ℕ, zero, suc, ◌+◌, ◌-◌, ◌*◌, ◌/◌, ◌%◌, ◌^◌, ◌≤◌, ◌<◌, min, ◌≡◌, refl, ap, ◌⊎◌, inl, inr, arith,
  ltb, ◌==◌, if◌then◌else◌, Bool-cases,
}
use plant_shop.Base.Int.{ℤ, pos, negsuc, pos_part, ltb_ℤ, i64, i64_pos, ◌*ℤ◌, *ℤ-pos}
use native.Mathlib.Omega.{pow_step}

two_pow_mono : (k n m : ℕ) → k + n ≡ m → 2 ^ n ≤ 2 ^ m
two_pow_mono zero n m e = let same : n ≡ m = omega arith in rw same (omega arith)
two_pow_mono (suc k) n zero e = omega arith
two_pow_mono (suc k) n (suc m) e = omega (arith, two_pow_mono k n m (omega arith), pow_step 2 m)

two_pow-64 : (k m : ℕ) → k + 64 ≡ m → 2 ^ m ≡ 18446744073709551616 * 2 ^ k
two_pow-64 zero m e = let same : m ≡ 64 = omega arith in rw same refl
two_pow-64 (suc k) zero e = omega arith
two_pow-64 (suc k) (suc m) e =
    omega (arith, two_pow-64 k m (omega arith), pow_step 2 m, pow_step 2 k)

two_pow-lt : (n : ℕ) → n < 63 → 2 ^ n < 9223372036854775808
two_pow-lt n h = let m = two_pow_mono (62 - n) n 62 (omega arith) in omega arith

-- The three ranges of `1 << attempts`.
shifted-cases :
    (n : ℕ)
    → ((n < 63) × (i64 (pos (2 ^ n)) ≡ pos (2 ^ n)))
      ⊎ ((i64 (pos (2 ^ n)) ≡ negsuc 9223372036854775807) ⊎ (i64 (pos (2 ^ n)) ≡ pos 0))
shifted-cases n = elim (Bool-cases (ltb n 63)) [
  | inl l ↦ inl (ground arith, i64_pos (2 ^ n) (two_pow-lt n (ground arith)))
  | inr g ↦ inr (elim (Bool-cases (n == 63)) [
    | inl e ↦ let x : n ≡ 63 = ground arith in inl (rw x refl)
    | inr d ↦
        let p = two_pow-64 (n - 64) n (ground arith) in
        let m : 2 ^ n % 18446744073709551616 ≡ 0 = omega arith in inr (rw m refl)
  ])
]

-- What the wait comes to, by the shifted value.
wait : ℤ → ℕ
wait b = pos_part ((if ltb_ℤ (pos 3600) b then pos 3600 else b) *ℤ pos 1000000000) / 1000000000

wait-pos : (m : ℕ) → wait (pos m) ≡ min m 3600
unfolding wait
wait-pos m = elim (Bool-cases (ltb_ℤ (pos 3600) (pos m))) [
  | inl e ↦ rw (wait, e, *ℤ-pos 3600 1000000000 (omega arith)) (ground arith)
  | inr e ↦
      let l : m ≤ 3600 = ground arith in
      rw (wait, e, *ℤ-pos m 1000000000 (omega arith)) (ground arith)
]

wait-cases : (n : ℕ) → wait (i64 (pos (2 ^ n))) ≤ 3600
unfolding wait ◌*ℤ◌
wait-cases n = elim (shifted-cases n) [
  | inl (h, e) ↦ rw e (let w = wait-pos (2 ^ n) in omega arith)
  | inr (inl e) ↦ rw e (omega arith)
  | inr (inr e) ↦ rw e (omega arith)
]

pub next_attempt-bounds :
    (attempts now : ℕ)
    → (now ≤ next_attempt attempts now) × (next_attempt attempts now ≤ now + 3600)
unfolding next_attempt backoff_seconds wait
next_attempt-bounds attempts now = let w = wait-cases attempts in (omega arith, omega arith)

-- After fewer than 63 earlier attempts, the next attempt is after 2^attempts seconds, at most an
-- hour.
pub next_attempt-doubles :
    (attempts now : ℕ) → attempts < 63 → next_attempt attempts now ≡ now + min (2 ^ attempts) 3600
unfolding next_attempt backoff_seconds wait
next_attempt-doubles attempts now h =
    rw (next_attempt, i64_pos (2 ^ attempts) (two_pow-lt attempts h))
      (ap (λ w. now + w) (wait-pos (2 ^ attempts)))
