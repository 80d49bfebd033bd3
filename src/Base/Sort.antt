-- ===== src/Base/Sort.antt =====
-- `ORDER BY`: sorting rows by a test that says which row goes first. Rows of which neither goes first
-- stay in the order of the table.
use mathlib.Core.Bool.{Bool}
use mathlib.Core.Logic.{◌≢◌, inl, inr}
use mathlib.Core.Path.{◌≡◌, refl}
use mathlib.Core.Option.{none}
use native.Mathlib.Omega.{arith}
use plant_shop.Base.Table.{find}
use plant_shop.Base.Keys.{IsKeyed}
use mathlib.Core.List.{List, [], ◌∷◌}
use Prim.Native.Nat.{ℕ, zero, suc}
use plant_shop.Base.Tests.{if◌then◌else◌, All, Bool-cases, take}

module _ {ℓ} {A : Type ℓ} (before : A → A → Bool) where
  abbrev pub insert_by : A → List A → List A
  insert_by x [] = x ∷ []
  insert_by x (y ∷ ys) = let rest = insert_by x ys in if before x y then x ∷ y ∷ ys else y ∷ rest

  abbrev pub sort_by : List A → List A
  sort_by [] = []
  sort_by (x ∷ xs) = insert_by x (sort_by xs)

  module _ {κ} (P : A → Type κ) where
    All-insert_by : (x : A) (xs : List A) → P x → All P xs → All P (insert_by x xs)
    All-insert_by x [] p h = (p, tt)
    All-insert_by x (y ∷ ys) p h = elim (Bool-cases (before x y)) [
      | inl e ↦ rw e (p, h)
      | inr e ↦ rw e (h.0, All-insert_by x ys p h.1)
    ]

    pub All-sort_by : (xs : List A) → All P xs → All P (sort_by xs)
    All-sort_by [] h = tt
    All-sort_by (x ∷ xs) h = All-insert_by x (sort_by xs) h.0 (All-sort_by xs h.1)

-- Sorting keeps distinct keys distinct.
module _ {ℓ} {A : Type ℓ} (key : A → ℕ) (before : A → A → Bool) where
  find-insert_by-none :
      (k : ℕ) (x : A) (xs : List A)
      → key x ≢ k
      → find key k xs ≡ none
      → find key k (insert_by before x xs) ≡ none
  find-insert_by-none k x [] n h = ground arith
  find-insert_by-none k x (y ∷ ys) n h = ground (arith, find-insert_by-none k x ys n)

  find-sort_by-none :
      (k : ℕ) (xs : List A) → find key k xs ≡ none → find key k (sort_by before xs) ≡ none
  find-sort_by-none k [] h = refl
  find-sort_by-none k (x ∷ xs) h =
      find-insert_by-none k x (sort_by before xs) (ground arith)
        (find-sort_by-none k xs (ground arith))

  IsKeyed-insert_by :
      (x : A) (xs : List A)
      → find key (key x) xs ≡ none
      → IsKeyed key xs
      → IsKeyed key (insert_by before x xs)
  IsKeyed-insert_by x [] n h = (refl, tt)
  IsKeyed-insert_by x (y ∷ ys) n h = elim (Bool-cases (before x y)) [
    | inl e ↦ rw e (n, h)
    | inr e ↦ rw e (
      find-insert_by-none (key y) x ys (ground arith) h.0,
      IsKeyed-insert_by x ys (ground arith) h.1,
    )
  ]

  pub IsKeyed-sort_by : (xs : List A) → IsKeyed key xs → IsKeyed key (sort_by before xs)
  IsKeyed-sort_by [] h = tt
  IsKeyed-sort_by (x ∷ xs) h =
      IsKeyed-insert_by x (sort_by before xs) (find-sort_by-none (key x) xs h.0)
        (IsKeyed-sort_by xs h.1)

module _ {ℓ κ} {A : Type ℓ} (P : A → Type κ) where
  pub All-take : (k : ℕ) (xs : List A) → All P xs → All P (take k xs)
  All-take zero xs h = tt
  All-take (suc k) [] h = tt
  All-take (suc k) (x ∷ xs) h = (h.0, All-take k xs h.1)

-- Rows that are there.
module _ {ℓ} {A : Type ℓ} where
  abbrev pub IsFilled : List A → Type 0
  IsFilled [] = ⊥
  IsFilled (x ∷ xs) = Unit

  insert_by-IsFilled :
      (before : A → A → Bool) (x : A) (xs : List A) → IsFilled (insert_by before x xs)
  insert_by-IsFilled before x [] = tt
  insert_by-IsFilled before x (y ∷ ys) = elim (Bool-cases (before x y)) [
    | inl e ↦ rw e tt
    | inr e ↦ rw e tt
  ]

  pub sort_by-IsFilled :
      (before : A → A → Bool) (xs : List A) → IsFilled xs → IsFilled (sort_by before xs)
  sort_by-IsFilled before [] h = h
  sort_by-IsFilled before (x ∷ xs) h = insert_by-IsFilled before x (sort_by before xs)
