-- ===== src/Base/Keys.antt =====
-- Primary keys: no two rows of a table have the same key.
use Prim.Native.Nat.{ℕ, zero, suc, ◌<◌}
use mathlib.Core.Path.{◌≡◌, refl}
use mathlib.Core.Logic.{◌≢◌, inl, inr}
use mathlib.Core.Bool.{Bool}
use mathlib.Core.Option.{none, some}
use mathlib.Core.List.{List, [], ◌∷◌, ◌++◌}
use native.Mathlib.Omega.{arith}
use plant_shop.Base.Tests.{◌==◌, All, Bool-cases, take}
use plant_shop.Base.Table.{find, modify, select, select_one, find-append_none}

module _ {ℓ} {A : Type ℓ} (key : A → ℕ) where
  abbrev pub IsKeyed : List A → Type ℓ
  IsKeyed [] = Unit
  IsKeyed (r ∷ rows) = (find key (key r) rows ≡ none) × IsKeyed rows

  -- All keys are below n, the next value of the sequence.
  abbrev pub Below : ℕ → List A → Type 0
  Below n = All (λ (r : A). key r < n)

  pub Below-none : (n : ℕ) (rows : List A) → Below n rows → find key n rows ≡ none
  Below-none n [] h = refl
  Below-none n (r ∷ rows) h = ground (arith, Below-none n rows h.1)

  pub Below-suc : (n : ℕ) (rows : List A) → Below n rows → Below (suc n) rows
  Below-suc n [] h = tt
  Below-suc n (r ∷ rows) h = (omega arith, Below-suc n rows h.1)

  find_ne-append :
      (k : ℕ) (rows : List A) (r : A)
      → find key k rows ≡ none
      → key r ≢ k
      → find key k (rows ++ r ∷ []) ≡ none
  find_ne-append k rows r h n = rw (find-append_none key k rows (r ∷ []) h) (ground arith)

  -- A row under the next key of the sequence.
  pub IsKeyed-append :
      (n : ℕ) (rows : List A) (r : A)
      → Below n rows
      → key r ≡ n
      → IsKeyed rows
      → IsKeyed (rows ++ r ∷ [])
  IsKeyed-append n [] r b e h = (refl, tt)
  IsKeyed-append n (x ∷ rows) r b e h =
      (find_ne-append (key x) rows r h.0 (omega arith), IsKeyed-append n rows r b.1 e h.1)

  find-select-none :
      (k : ℕ) (p : A → Bool) (rows : List A)
      → find key k rows ≡ none
      → find key k (select p rows) ≡ none
  find-select-none k p [] h = refl
  find-select-none k p (x ∷ rows) h = ground (arith, find-select-none k p rows)

  pub IsKeyed-select : (p : A → Bool) (rows : List A) → IsKeyed rows → IsKeyed (select p rows)
  IsKeyed-select p [] h = tt
  IsKeyed-select p (x ∷ rows) h = elim (Bool-cases (p x)) [
    | inl t ↦ rw t (find-select-none (key x) p rows h.0, IsKeyed-select p rows h.1)
    | inr e ↦ rw e (IsKeyed-select p rows h.1)
  ]

  find-take-none :
      (k n : ℕ) (rows : List A) → find key k rows ≡ none → find key k (take n rows) ≡ none
  find-take-none k zero rows h = refl
  find-take-none k (suc n) [] h = refl
  find-take-none k (suc n) (x ∷ rows) h = ground (arith, find-take-none k n rows)

  pub IsKeyed-take : (n : ℕ) (rows : List A) → IsKeyed rows → IsKeyed (take n rows)
  IsKeyed-take zero rows h = tt
  IsKeyed-take (suc n) [] h = tt
  IsKeyed-take (suc n) (x ∷ rows) h = (find-take-none (key x) n rows h.0, IsKeyed-take n rows h.1)

  -- No later row has the first row's key.
  pub others_ne : (k : ℕ) (rows : List A) → find key k rows ≡ none → All (λ r. k ≢ key r) rows
  others_ne k [] h = tt
  others_ne k (x ∷ rows) h = (ground arith, others_ne k rows (ground arith))

  -- Each row is the one found under its key.
  abbrev pub IsFound : List A → A → Type ℓ
  IsFound rows r = find key (key r) rows ≡ some r

  IsFound-behind :
      (x : A) (rows rs : List A)
      → find key (key x) rows ≡ none
      → All (IsFound rows) rs
      → All (IsFound (x ∷ rows)) rs
  IsFound-behind x rows [] n h = tt
  IsFound-behind x rows (r ∷ rs) n h = (ground arith, IsFound-behind x rows rs n h.1)

  pub IsKeyed-IsFound : (rows : List A) → IsKeyed rows → All (IsFound rows) rows
  IsKeyed-IsFound [] h = tt
  IsKeyed-IsFound (x ∷ rows) h =
      (ground arith, IsFound-behind x rows rows h.0 (IsKeyed-IsFound rows h.1))

module _ {ℓ} {A : Type ℓ} (key : A → ℕ) (f : A → A) (same : (r : A) → key (f r) ≡ key r) where
  find-modify_absent :
      (k j : ℕ) (rows : List A) → find key k rows ≡ none → find key k (modify key j f rows) ≡ none
  find-modify_absent k j [] h = refl
  find-modify_absent k j (x ∷ rows) h = ground (arith, same x, find-modify_absent k j rows)

  pub IsKeyed-modify :
      (k : ℕ) (rows : List A) → IsKeyed key rows → IsKeyed key (modify key k f rows)
  IsKeyed-modify k [] h = tt
  IsKeyed-modify k (x ∷ rows) h = elim (Bool-cases (key x == k)) [
    | inl t ↦ rw (t, same x) h
    | inr e ↦ rw e (find-modify_absent (key x) k rows h.0, IsKeyed-modify k rows h.1)
  ]

  pub Below-modify :
      (n k : ℕ) (rows : List A) → Below key n rows → Below key n (modify key k f rows)
  Below-modify n k [] h = tt
  Below-modify n k (x ∷ rows) h = elim (Bool-cases (key x == k)) [
    | inl t ↦ rw (t, same x) h
    | inr e ↦ rw e (h.0, Below-modify n k rows h.1)
  ]

module _ {ℓ} {A : Type ℓ} (key : A → ℕ) (p : A → Bool) where
  select_one-key :
      (k : ℕ) (rows : List A) (r : A)
      → find key k rows ≡ none
      → select_one p rows ≡ some r
      → key r ≢ k
  select_one-key k [] r n h = cc
  select_one-key k (x ∷ rows) r n h = ground (arith, select_one-key k rows r)

  pub select_one-found :
      (rows : List A) (r : A)
      → IsKeyed key rows
      → select_one p rows ≡ some r
      → find key (key r) rows ≡ some r
  select_one-found [] r u h = cc
  select_one-found (x ∷ rows) r u h = elim (Bool-cases (p x)) [
    | inl t ↦ ground arith
    | inr f ↦
        let later : select_one p rows ≡ some r = ground arith in
        let ne = select_one-key (key x) rows r u.0 later in
        let found = select_one-found rows r u.1 later in ground arith
  ]

  -- An update of the row that p selects, which p does not see.
  pub select_one-modify :
      (k : ℕ) (f : A → A) (rows : List A) (r : A)
      → ((x : A) → p (f x) ≡ p x)
      → IsKeyed key rows
      → key r ≡ k
      → select_one p rows ≡ some r
      → select_one p (modify key k f rows) ≡ some (f r)
  select_one-modify k f [] r same u e h = cc
  select_one-modify k f (x ∷ rows) r same u e h = elim (Bool-cases (p x)) [
    | inl t ↦ ground (arith, same x)
    | inr b ↦
        let later : select_one p rows ≡ some r = ground arith in
        let ne = select_one-key (key x) rows r u.0 later in
        let found = select_one-modify k f rows r same u.1 e later in ground arith
  ]
