-- ===== src/Base/Table.antt =====
-- A table with a numeric primary key, as the list of its rows, and the statements that select,
-- update and count rows.
use Prim.Native.Nat.{ℕ, ◌+◌}
use mathlib.Core.Path.{◌≡◌, refl}
use mathlib.Core.Logic.{◌≢◌}
use mathlib.Core.Bool.{Bool, true, false, ◌||◌}
use mathlib.Core.Option.{Option, none, some}
use mathlib.Core.List.{List, [], ◌∷◌, ◌++◌}
use native.Mathlib.Omega.{arith}
use mathlib.Core.Path.{subst}
use mathlib.Core.Logic.{inl, inr}
use plant_shop.Base.Tests.{◌==◌, if◌then◌else◌, All, Bool-cases}

module _ {ℓ} {A : Type ℓ} where
  -- `SELECT EXISTS (SELECT 1 FROM rows WHERE p)`.
  abbrev pub exists? : (A → Bool) → List A → Bool
  exists? p [] = false
  exists? p (r ∷ rows) = p r || exists? p rows

  -- `SELECT COUNT(*) FROM rows WHERE p`.
  abbrev pub count : (A → Bool) → List A → ℕ
  count p [] = 0
  count p (r ∷ rows) = (if p r then 1 else 0) + count p rows

  -- `SELECT * FROM rows WHERE p`.
  abbrev pub select : (A → Bool) → List A → List A
  select p [] = []
  select p (r ∷ rows) = let rest = select p rows in if p r then r ∷ rest else rest

  -- The first row that `WHERE p` selects, where p determines at most one.
  abbrev pub select_one : (A → Bool) → List A → Option A
  select_one p [] = none
  select_one p (r ∷ rows) = if p r then some r else select_one p rows

  -- `UPDATE rows SET f WHERE p`.
  abbrev pub update_where : (A → Bool) → (A → A) → List A → List A
  update_where p f [] = []
  update_where p f (r ∷ rows) = (if p r then f r else r) ∷ update_where p f rows

  -- A sum over the rows.
  abbrev pub sum_by : (A → ℕ) → List A → ℕ
  sum_by g [] = 0
  sum_by g (r ∷ rows) = g r + sum_by g rows

  pub sum_by-append : (g : A → ℕ) (xs ys : List A) → sum_by g (xs ++ ys) ≡ sum_by g xs + sum_by g ys
  sum_by-append g [] ys = omega arith
  sum_by-append g (x ∷ xs) ys = omega (arith, sum_by-append g xs ys)

  pub count-append : (p : A → Bool) (xs ys : List A) → count p (xs ++ ys) ≡ count p xs + count p ys
  count-append p [] ys = omega arith
  count-append p (x ∷ xs) ys = omega (arith, count-append p xs ys)

module _ {ℓ κ} {A : Type ℓ} (P : A → Type κ) where
  -- What holds of every row holds of the one that is selected.
  pub All-select_one :
      (p : A → Bool) (rows : List A) (r : A) → All P rows → select_one p rows ≡ some r → P r
  All-select_one p [] r h e = cc
  All-select_one p (x ∷ rows) r h e = elim (Bool-cases (p x)) [
    | inl t ↦ subst P (ground arith) h.0
    | inr f ↦ All-select_one p rows r h.1 (ground arith)
  ]

module _ {ℓ} {A : Type ℓ} (key : A → ℕ) where
  -- `SELECT * FROM rows WHERE id = k`.
  abbrev pub find : ℕ → List A → Option A
  find k [] = none
  find k (r ∷ rows) = if key r == k then some r else find k rows

  -- `UPDATE rows SET f WHERE id = k`: the key is primary, so at most one row is meant.
  abbrev pub modify : ℕ → (A → A) → List A → List A
  modify k f [] = []
  modify k f (r ∷ rows) = if key r == k then f r ∷ rows else r ∷ modify k f rows

  pub find_key : (k : ℕ) (rows : List A) (r : A) → find k rows ≡ some r → key r ≡ k
  find_key k [] r h = cc
  find_key k (x ∷ rows) r h = ground (arith, find_key k rows r)

  pub find-append_none : (k : ℕ) (xs ys : List A) → find k xs ≡ none → find k (xs ++ ys) ≡ find k ys
  find-append_none k [] ys h = refl
  find-append_none k (x ∷ xs) ys h = ground (arith, find-append_none k xs ys)

  pub find-append_some :
      (k : ℕ) (xs ys : List A) (r : A) → find k xs ≡ some r → find k (xs ++ ys) ≡ some r
  find-append_some k [] ys r h = cc
  find-append_some k (x ∷ xs) ys r h = ground (arith, find-append_some k xs ys r)

  -- The row that is updated is found as updated, and the others as they were.
  pub find-modify_self :
      (k : ℕ) (f : A → A) (rows : List A) (r : A)
      → key (f r) ≡ k
      → find k rows ≡ some r
      → find k (modify k f rows) ≡ some (f r)
  find-modify_self k f [] r hk h = cc
  find-modify_self k f (x ∷ rows) r hk h = ground (arith, find-modify_self k f rows r)

  pub find-modify-none :
      (k j : ℕ) (f : A → A) (rows : List A)
      → find k rows ≡ none
      → find j (modify k f rows) ≡ find j rows
  find-modify-none k j f [] h = refl
  find-modify-none k j f (x ∷ rows) h = ground (arith, find-modify-none k j f rows)

  pub find-modify_ne :
      (k j : ℕ) (f : A → A) (rows : List A)
      → ((r : A) → key (f r) ≡ key r)
      → k ≢ j
      → find j (modify k f rows) ≡ find j rows
  find-modify_ne k j f [] hk h = refl
  find-modify_ne k j f (x ∷ rows) hk h = ground (arith, hk x, find-modify_ne k j f rows hk h)

  -- A sum moves by what the updated row moves.
  pub sum_by-modify :
      (g : A → ℕ) (k : ℕ) (f : A → A) (rows : List A) (r : A)
      → find k rows ≡ some r
      → sum_by g (modify k f rows) + g r ≡ sum_by g rows + g (f r)
  sum_by-modify g k f [] r h = cc
  sum_by-modify g k f (x ∷ rows) r h = ground (arith, sum_by-modify g k f rows r)

module _ {ℓ κ} {A : Type ℓ} (P : A → Type κ) where
  pub All-append : (xs ys : List A) → All P xs → All P ys → All P (xs ++ ys)
  All-append [] ys h k = k
  All-append (x ∷ xs) ys h k = (h.0, All-append xs ys h.1 k)

  pub All-find :
      (key : A → ℕ) (k : ℕ) (rows : List A) (r : A) → All P rows → find key k rows ≡ some r → P r
  All-find key k [] r h e = cc
  All-find key k (x ∷ rows) r h e = elim (Bool-cases (key x == k)) [
    | inl t ↦ subst P (ground arith) h.0
    | inr f ↦ All-find key k rows r h.1 (ground arith)
  ]

  pub All-modify :
      (key : A → ℕ) (k : ℕ) (f : A → A) (rows : List A)
      → ((r : A) → P r → P (f r))
      → All P rows
      → All P (modify key k f rows)
  All-modify key k f [] step h = tt
  All-modify key k f (x ∷ rows) step h = elim (Bool-cases (key x == k)) [
    | inl t ↦ rw t (step x h.0, h.1)
    | inr e ↦ rw e (h.0, All-modify key k f rows step h.1)
  ]

module _ {ℓ κ μ} {A : Type ℓ} (P : A → Type κ) (Q : A → Type μ) where
  -- What holds of every row, with the test, holds of the selected ones.
  pub All-select :
      (p : A → Bool) (rows : List A)
      → ((r : A) → P r → p r ≡ true → Q r)
      → All P rows
      → All Q (select p rows)
  All-select p [] step h = tt
  All-select p (x ∷ rows) step h = elim (Bool-cases (p x)) [
    | inl t ↦ rw t (step x h.0 t, All-select p rows step h.1)
    | inr e ↦ rw e (All-select p rows step h.1)
  ]

module _ {ℓ} {A : Type ℓ} (p : A → Bool) where
  pub count-no_row : (rows : List A) → exists? p rows ≡ false → count p rows ≡ 0
  count-no_row [] h = refl
  count-no_row (x ∷ rows) h = ground (arith, count-no_row rows)

  -- Of an update that the test does not see.
  pub count-modify :
      (key : A → ℕ) (k : ℕ) (f : A → A) (rows : List A)
      → ((r : A) → p (f r) ≡ p r)
      → count p (modify key k f rows) ≡ count p rows
  count-modify key k f [] h = refl
  count-modify key k f (x ∷ rows) h = ground (arith, h x, count-modify key k f rows h)

  pub exists?-append : (xs : List A) (y : A) → p y ≡ true → exists? p (xs ++ y ∷ []) ≡ true
  exists?-append [] y h = ground arith
  exists?-append (x ∷ xs) y h = ground (arith, exists?-append xs y h)

module _ {ℓ} {A : Type ℓ} (p : A → Bool) where
  -- A new row is selected if it is the first that the test accepts.
  pub select_one-append_new :
      (rows : List A) (y : A)
      → select_one p rows ≡ none
      → p y ≡ true
      → select_one p (rows ++ y ∷ []) ≡ some y
  select_one-append_new [] y h t = ground arith
  select_one-append_new (x ∷ rows) y h t = ground (arith, select_one-append_new rows y)

  pub select_one-append_other :
      (rows : List A) (y : A) → p y ≡ false → select_one p (rows ++ y ∷ []) ≡ select_one p rows
  select_one-append_other [] y t = ground arith
  select_one-append_other (x ∷ rows) y t = ground (arith, select_one-append_other rows y)

  -- An update of a row that the test does not accept.
  pub select_one-modify_other :
      (key : A → ℕ) (k : ℕ) (f : A → A) (rows : List A) (r : A)
      → ((x : A) → p (f x) ≡ p x)
      → find key k rows ≡ some r
      → p r ≡ false
      → select_one p (modify key k f rows) ≡ select_one p rows
  select_one-modify_other key k f [] r same h b = refl
  select_one-modify_other key k f (x ∷ rows) r same h b =
      ground (arith, same x, select_one-modify_other key k f rows r same)
