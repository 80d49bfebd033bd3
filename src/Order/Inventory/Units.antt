-- ===== src/Order/Inventory/Units.antt =====
-- How the stock of each product moves under the two loops.
use plant_shop.Order.Model.{Item}
use plant_shop.Store.{Product, find_product, modify_product}
use plant_shop.Order.Inventory.{set_stock, decrement, increment, take_stock, restore_stock}
use plant_shop.Base.{
  ℕ, ◌+◌, ◌-◌, ◌≡◌, refl, ◌≢◌, inl, inr, true, Option, none, some, List, [], ◌∷◌, arith, ◌==◌,
  if◌then◌else◌, ==_iff, Bool-cases, Option-cases, is_some, All, ok, >>=-eq-ok,
}
use plant_shop.Base.Table.{sum_by, find_key, find-modify_self, find-modify_ne}

-- The stock of product p.
abbrev stock_in : Option Product → ℕ
stock_in none = 0
stock_in (some r) = r.stock

unfoldable pub stock_of : ℕ → List Product → ℕ
stock_of p ps = stock_in (find_product p ps)

-- How many units of product p the items hold.
abbrev pub quantity_of : ℕ → List Item → ℕ
quantity_of p = sum_by (λ (i : Item). if i.product_id == p then i.quantity else 0)

-- Every item is of a product that the table has: the foreign key of order_items.
abbrev pub IsStocked : List Product → List Item → Type 0
IsStocked ps = All (λ (i : Item). is_some (find_product i.product_id ps) ≡ true)

-- The second table has every product of the first.
abbrev pub Keeps : List Product → List Product → Type 0
Keeps ps qs = (p : ℕ) → is_some (find_product p ps) ≡ true → is_some (find_product p qs) ≡ true

pub IsStocked-Keeps :
    (ps qs : List Product) (is : List Item) → Keeps ps qs → IsStocked ps is → IsStocked qs is
IsStocked-Keeps ps qs [] k h = tt
IsStocked-Keeps ps qs (i ∷ is) k h = (k i.product_id h.0, IsStocked-Keeps ps qs is k h.1)

-- Setting the stock of one product.
stock_of-set_self :
    (p n : ℕ) (ps : List Product) (r : Product)
    → find_product p ps ≡ some r
    → stock_of p (modify_product p (set_stock n) ps) ≡ n
unfolding stock_of
stock_of-set_self p n ps r h =
    rw
      (find-modify_self (λ (x : Product). x.id) p (set_stock n) ps r
        (find_key (λ (x : Product). x.id) p ps r h) h)
      refl

stock_of-set_ne :
    (p j n : ℕ) (ps : List Product)
    → p ≢ j
    → stock_of j (modify_product p (set_stock n) ps) ≡ stock_of j ps
unfolding stock_of
stock_of-set_ne p j n ps h =
    rw (find-modify_ne (λ (x : Product). x.id) p j (set_stock n) ps (λ r. refl) h)

stock_of-found :
    (p : ℕ) (ps : List Product) (r : Product) → find_product p ps ≡ some r → stock_of p ps ≡ r.stock
unfolding stock_of
stock_of-found p ps r h = rw h refl

stock_of-set :
    (p j n : ℕ) (ps : List Product) (r : Product)
    → find_product p ps ≡ some r
    → stock_of j (modify_product p (set_stock n) ps) ≡ (if p == j then n else stock_of j ps)
stock_of-set p j n ps r h = elim (Bool-cases (p == j)) [
  | inl e ↦ rw (e, ← (==_iff p j).0 e) (stock_of-set_self p n ps r h)
  | inr e ↦ rw e (stock_of-set_ne p j n ps (λ q. ground arith))
]

-- One update moves the stock of its product and no other.
pub decrement-stock_of :
    (p q j : ℕ) (ps qs : List Product)
    → is_some (find_product p ps) ≡ true
    → decrement p q ps ≡ ok qs
    → stock_of j qs + (if p == j then q else 0) ≡ stock_of j ps
unfolding decrement
decrement-stock_of p q j ps qs f h = elim (Option-cases (find_product p ps)) [
  | inl e ↦ ground arith
  | inr (r, e) ↦ ground (arith, stock_of-set p j (r.stock - q) ps r e, stock_of-found p ps r e)
]

pub increment-stock_of :
    (p q j : ℕ) (ps qs : List Product)
    → is_some (find_product p ps) ≡ true
    → increment p q ps ≡ ok qs
    → stock_of j qs ≡ stock_of j ps + (if p == j then q else 0)
unfolding increment
increment-stock_of p q j ps qs f h = elim (Option-cases (find_product p ps)) [
  | inl e ↦ ground arith
  | inr (r, e) ↦ ground (arith, stock_of-set p j (r.stock + q) ps r e, stock_of-found p ps r e)
]

modify-Keeps : (p n : ℕ) (ps : List Product) → Keeps ps (modify_product p (set_stock n) ps)
modify-Keeps p n [] k h = h
modify-Keeps p n (x ∷ ps) k h = ground (arith, modify-Keeps p n ps k)

pub decrement-Keeps : (p q : ℕ) (ps qs : List Product) → decrement p q ps ≡ ok qs → Keeps ps qs
unfolding decrement
decrement-Keeps p q ps qs h k f = elim (Option-cases (find_product p ps)) [
  | inl e ↦ ground arith
  | inr (r, e) ↦ ground (arith, modify-Keeps p (r.stock - q) ps k)
]

pub increment-Keeps : (p q : ℕ) (ps qs : List Product) → increment p q ps ≡ ok qs → Keeps ps qs
unfolding increment
increment-Keeps p q ps qs h k f = elim (Option-cases (find_product p ps)) [
  | inl e ↦ ground arith
  | inr (r, e) ↦ ground (arith, modify-Keeps p (r.stock + q) ps k)
]

pub take_stock-Keeps :
    (is : List Item) (ps qs : List Product) → take_stock is ps ≡ ok qs → Keeps ps qs
unfolding take_stock
take_stock-Keeps [] ps qs h k f = ground arith
take_stock-Keeps (i ∷ is) ps qs h k f =
    let (rs, first, rest) = >>=-eq-ok (decrement i.product_id i.quantity ps) (take_stock is) h in
    take_stock-Keeps is rs qs rest k (decrement-Keeps i.product_id i.quantity ps rs first k f)

pub restore_stock-Keeps :
    (is : List Item) (ps qs : List Product) → restore_stock is ps ≡ ok qs → Keeps ps qs
unfolding restore_stock
restore_stock-Keeps [] ps qs h k f = ground arith
restore_stock-Keeps (i ∷ is) ps qs h k f =
    let (rs, first, rest) = >>=-eq-ok (increment i.product_id i.quantity ps) (restore_stock is) h in
    restore_stock-Keeps is rs qs rest k (increment-Keeps i.product_id i.quantity ps rs first k f)

-- A checkout's loop that succeeds takes exactly the ordered units of every product.
pub take_stock-stock_of :
    (is : List Item) (j : ℕ) (ps qs : List Product)
    → IsStocked ps is
    → take_stock is ps ≡ ok qs
    → stock_of j qs + quantity_of j is ≡ stock_of j ps
unfolding take_stock
take_stock-stock_of [] j ps qs f h = ground arith
take_stock-stock_of (i ∷ is) j ps qs f h =
    let (rs, first, rest) = >>=-eq-ok (decrement i.product_id i.quantity ps) (take_stock is) h in
    let kept = decrement-Keeps i.product_id i.quantity ps rs first in
    omega (
      arith,
      decrement-stock_of i.product_id i.quantity j ps rs f.0 first,
      take_stock-stock_of is j rs qs (IsStocked-Keeps ps rs is kept f.1) rest,
    )

-- A restoration that succeeds gives exactly the ordered units of every product back.
pub restore_stock-stock_of :
    (is : List Item) (j : ℕ) (ps qs : List Product)
    → IsStocked ps is
    → restore_stock is ps ≡ ok qs
    → stock_of j qs ≡ stock_of j ps + quantity_of j is
unfolding restore_stock
restore_stock-stock_of [] j ps qs f h = ground arith
restore_stock-stock_of (i ∷ is) j ps qs f h =
    let (rs, first, rest) = >>=-eq-ok (increment i.product_id i.quantity ps) (restore_stock is) h in
    let kept = increment-Keeps i.product_id i.quantity ps rs first in
    omega (
      arith,
      increment-stock_of i.product_id i.quantity j ps rs f.0 first,
      restore_stock-stock_of is j rs qs (IsStocked-Keeps ps rs is kept f.1) rest,
    )
