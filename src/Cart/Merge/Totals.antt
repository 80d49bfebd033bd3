-- ===== src/Cart/Merge/Totals.antt =====
-- The quantities of a merge: sorted by the product, each once, with its capped sum.
use plant_shop.Cart.Model.{AddItemInput}
use plant_shop.Cart.Merge.{Wanted, capped, add_wanted, quantities}
use plant_shop.Base.{
  ℕ, ◌+◌, ◌≤◌, ◌<◌, ◌≡◌, refl, inl, inr, Bool, false, Option, none, some, List, [], ◌∷◌, arith, ltb,
  ◌==◌, if◌then◌else◌, Bool-cases, All,
}
use plant_shop.Base.Table.{exists?, sum_by, find}

-- The quantity asked for a product in all.
abbrev pub asked : ℕ → List AddItemInput → ℕ
asked p = sum_by (λ (i : AddItemInput). if i.product_id == p then i.quantity else 0)

abbrev pub mentions : ℕ → List AddItemInput → Bool
mentions p = exists? (λ (i : AddItemInput). i.product_id == p)

abbrev pub find_wanted : ℕ → List Wanted → Option Wanted
find_wanted = find (λ (w : Wanted). w.product_id)

abbrev pub wanted_or_zero : Option Wanted → ℕ
wanted_or_zero none = 0
wanted_or_zero (some w) = w.quantity

-- Strictly ascending product ids.
abbrev pub Above : ℕ → List Wanted → Type 0
Above p = All (λ (w : Wanted). p < w.product_id)

abbrev pub IsAscending : List Wanted → Type 0
IsAscending [] = Unit
IsAscending (w ∷ ws) = Above w.product_id ws × IsAscending ws

Above-trans : (p q : ℕ) (ws : List Wanted) → p < q → Above q ws → Above p ws
Above-trans p q [] l h = tt
Above-trans p q (w ∷ ws) l h = (omega arith, Above-trans p q ws l h.1)

add_wanted-Above :
    (p : ℕ) (i : AddItemInput) (ws : List Wanted)
    → p < i.product_id
    → Above p ws
    → Above p (add_wanted i ws)
unfolding add_wanted
add_wanted-Above p i [] l h = (l, tt)
add_wanted-Above p i (w ∷ ws) l h = ground (arith, add_wanted-Above p i ws)

add_wanted-IsAscending :
    (i : AddItemInput) (ws : List Wanted) → IsAscending ws → IsAscending (add_wanted i ws)
unfolding add_wanted
add_wanted-IsAscending i [] h = (tt, tt)
add_wanted-IsAscending i (w ∷ ws) h = elim (Bool-cases (w.product_id == i.product_id)) [
  | inl e ↦ rw e h
  | inr e ↦ rw e (elim (Bool-cases (ltb i.product_id w.product_id)) [
    | inl l ↦ rw l ((ground arith, Above-trans i.product_id w.product_id ws (ground arith) h.0), h)
    | inr l ↦
        rw l
          (add_wanted-Above w.product_id i ws (ground arith) h.0, add_wanted-IsAscending i ws h.1)
  ])
]

pub quantities-IsAscending :
    (is : List AddItemInput) (ws : List Wanted) → IsAscending ws → IsAscending (quantities is ws)
unfolding quantities
quantities-IsAscending [] ws h = h
quantities-IsAscending (i ∷ is) ws h =
    quantities-IsAscending is (add_wanted i ws) (add_wanted-IsAscending i ws h)

-- Below the first product nothing is found.
pub Above-none : (p q : ℕ) (ws : List Wanted) → q ≤ p → Above p ws → find_wanted q ws ≡ none
Above-none p q [] l h = refl
Above-none p q (w ∷ ws) l h = ground (arith, Above-none p q ws)

-- What one item adds.
find-add_wanted :
    (p : ℕ) (i : AddItemInput) (ws : List Wanted)
    → IsAscending ws
    → find_wanted p (add_wanted i ws) ≡ (
        if i.product_id == p
        then some (record {
          product_id = p;
          quantity = capped (wanted_or_zero (find_wanted p ws) + i.quantity);
        })
        else find_wanted p ws)
unfolding add_wanted
find-add_wanted p i [] h = ground arith
find-add_wanted p i (w ∷ ws) h =
    ground (arith, find-add_wanted p i ws h.1, Above-none w.product_id i.product_id ws)

asked_none : (p : ℕ) (is : List AddItemInput) → mentions p is ≡ false → asked p is ≡ 0
asked_none p [] h = refl
asked_none p (i ∷ is) h = ground (arith, asked_none p is)

-- The quantity that a merge wants of a product: the capped sum, if an item mentions it.
pub find-quantities :
    (p : ℕ) (is : List AddItemInput) (ws : List Wanted)
    → IsAscending ws
    → find_wanted p (quantities is ws) ≡ (
        if mentions p is
        then some (record {
          product_id = p;
          quantity = capped (wanted_or_zero (find_wanted p ws) + asked p is);
        })
        else find_wanted p ws)
unfolding quantities
find-quantities p [] ws h = refl
find-quantities p (i ∷ is) ws h = ground (
  arith,
  asked_none p is,
  find-add_wanted p i ws h,
  find-quantities p is (add_wanted i ws) (add_wanted-IsAscending i ws h),
)
