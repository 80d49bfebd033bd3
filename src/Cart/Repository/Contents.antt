-- ===== src/Cart/Repository/Contents.antt =====
-- What a cart holds after an item is added.
use plant_shop.Cart.Model.{CartItem}
use plant_shop.Cart.Repository.{row_of, quantity_or_zero, set_quantity, put, add_item}
use plant_shop.Store.{Store, Product, find_product}
use plant_shop.Base.Keys.{
  Below, Below-suc, Below-modify, IsKeyed-append, IsKeyed-modify, IsKeyed, select_one-found,
  select_one-modify,
}
use plant_shop.Base.{
  ◌<◌, suc, ℕ, ◌≤◌, ◌≡◌, refl, sym, ap, ◌∙◌, inl, inr, Bool, true, false, ◌&&◌, none, some, List,
  [], ◌∷◌, ◌++◌, arith, ◌==◌, if◌then◌else◌, Bool-cases, Option-cases, ok,
}
use plant_shop.Base.Int.{ℤ, pos, negsuc, pos_part, ltb_ℤ, leb_ℤ, ◌+ℤ◌}
use plant_shop.Base.Table.{
  All-append, select_one, modify, select_one-append_new, select_one-append_other,
  select_one-modify_other,
}

-- How many units of a product a user's cart holds.
abbrev pub in_cart : ℕ → ℕ → List CartItem → ℕ
in_cart user product cs = quantity_or_zero (select_one (row_of user product) cs)

abbrev pub item_id : CartItem → ℕ
item_id c = c.id

select_one-passes :
    (p : CartItem → Bool) (cs : List CartItem) (c : CartItem)
    → select_one p cs ≡ some c
    → p c ≡ true
select_one-passes p [] c h = cc
select_one-passes p (x ∷ cs) c h = ground (arith, select_one-passes p cs c)

abbrev new_item : ℕ → ℕ → ℕ → Store → CartItem
new_item user product n s = record {
  id = s.next_cart;
  user_id = user;
  product_id = product;
  quantity = n;
}

put-carts_new :
    (user product n : ℕ) (s : Store)
    → select_one (row_of user product) s.carts ≡ none
    → (put user product n s).1.carts ≡ s.carts ++ new_item user product n s ∷ []
unfolding put
put-carts_new user product n s e = ground arith

put-carts_old :
    (user product n : ℕ) (s : Store) (c : CartItem)
    → select_one (row_of user product) s.carts ≡ some c
    → (put user product n s).1.carts ≡ modify item_id c.id (set_quantity n) s.carts
unfolding put
put-carts_old user product n s c e = ground arith

put-in_cart :
    (user product n : ℕ) (s : Store)
    → IsKeyed item_id s.carts
    → in_cart user product (put user product n s).1.carts ≡ n
put-in_cart user product n s u = elim (Option-cases (select_one (row_of user product) s.carts)) [
  | inl e ↦
      let found =
        select_one-append_new (row_of user product) s.carts (new_item user product n s) e
          (ground arith) in
      rw (put-carts_new user product n s e, found) refl
  | inr (c, e) ↦
      let found =
        select_one-modify item_id (row_of user product) c.id (set_quantity n) s.carts c (λ x. refl)
          u refl e in
      rw (put-carts_old user product n s c e, found) refl
]

row_of-ne :
    (user product v r : ℕ) (c : CartItem)
    → (v == user && r == product) ≡ false
    → row_of user product c ≡ true
    → row_of v r c ≡ false
row_of-ne user product v r c d h = ground arith

put-others :
    (user product n v r : ℕ) (s : Store)
    → IsKeyed item_id s.carts
    → (v == user && r == product) ≡ false
    → in_cart v r (put user product n s).1.carts ≡ in_cart v r s.carts
put-others user product n v r s u d =
    elim (Option-cases (select_one (row_of user product) s.carts)) [
      | inl e ↦
          let same =
            select_one-append_other (row_of v r) s.carts (new_item user product n s)
              (row_of-ne user product v r (new_item user product n s) d (ground arith)) in
          rw (put-carts_new user product n s e, same) refl
      | inr (c, e) ↦
          let same =
            select_one-modify_other (row_of v r) item_id c.id (set_quantity n) s.carts c (λ x. refl)
              (select_one-found item_id (row_of user product) s.carts c u e)
              (row_of-ne user product v r c d
                (select_one-passes (row_of user product) s.carts c e)) in
          rw (put-carts_old user product n s c e, same) refl
    ]

positive : (z : ℤ) → leb_ℤ z (pos 0) ≡ false → z ≡ pos (pos_part z)
positive (pos n) h = refl
positive (negsuc n) h = ground arith

at_least_one : (z : ℤ) → leb_ℤ z (pos 0) ≡ false → 1 ≤ pos_part z
at_least_one z h = ground arith

within_stock : (k : ℕ) (z : ℤ) → ltb_ℤ (pos k) z ≡ false → pos_part z ≤ k
within_stock k z h = ground arith

-- What a successful call has checked, and that it puts the new quantity.
add_item-steps :
    (user product : ℕ) (q : ℤ) (s : Store) (r : CartItem × Store)
    → add_item user product q s ≡ ok r
    → (p : Product) × (find_product product s.products ≡ some p)
      × (n : ℕ) × (pos (in_cart user product s.carts) +ℤ q ≡ pos n)
      × (1 ≤ n)
      × (n ≤ p.stock)
      × (r ≡ put user product n s)
unfolding add_item
add_item-steps user product q s r h = elim (Option-cases (find_product product s.products)) [
  | inl e ↦ ground arith
  | inr (p, e) ↦
      let n = pos (in_cart user product s.carts) +ℤ q in
      (
        p,
        e,
        pos_part n,
        positive n (ground arith),
        at_least_one n (ground arith),
        within_stock p.stock n (ground arith),
        ground arith,
      )
]

-- The carts after q units of a product are added to a user's cart.
pub record Added (user product : ℕ) (q : ℤ) (s t : Store) : Type 0 where
  pub the_product : Product
  pub found : find_product product s.products ≡ some the_product
  pub grown : pos (in_cart user product t.carts) ≡ pos (in_cart user product s.carts) +ℤ q
  pub some_units : 1 ≤ in_cart user product t.carts
  pub in_stock : in_cart user product t.carts ≤ the_product.stock
  pub contents :
      (v r : ℕ)
      → in_cart v r t.carts
        ≡ (if v == user && r == product then in_cart user product t.carts else in_cart v r s.carts)

pub put-contents :
    (user product n v r : ℕ) (s : Store)
    → IsKeyed item_id s.carts
    → in_cart v r (put user product n s).1.carts
      ≡ (if v == user && r == product then n else in_cart v r s.carts)
put-contents user product n v r s u = elim (Bool-cases (v == user && r == product)) [
  | inl e ↦
      let own = put-in_cart user product n s u in
      let a : v ≡ user = ground arith in let b : r ≡ product = ground arith in rw (e, a, b) own
  | inr e ↦ rw e (put-others user product n v r s u e)
]

-- If the ids of all cart rows are distinct, units of a product that are added to a user's cart
-- without an error are added to what the cart held of it, the sum is positive and at most the
-- product's stock, and every other quantity in any cart is as before.
pub add_item-Added :
    (user product : ℕ) (q : ℤ) (s t : Store) (c : CartItem)
    → IsKeyed (λ (c : CartItem). c.id) s.carts
    → add_item user product q s ≡ ok (c, t)
    → Added user product q s t
add_item-Added user product q s t c u h =
    let (p, f, n, sum, one, le, e) = add_item-steps user product q s (c, t) h in
    let st : t ≡ (put user product n s).1 = ap (λ (r : CartItem × Store). r.1) e in
    let own : in_cart user product t.carts ≡ n =
      ap (λ (t : Store). in_cart user product t.carts) st ∙ put-in_cart user product n s u in
    record {
      the_product = p;
      found = f;
      grown = ap pos own ∙ sym sum;
      some_units = rw own one;
      in_stock = rw own le;
      contents = λ v r.
          rw own (ap (λ (t : Store). in_cart v r t.carts) st ∙ put-contents user product n v r s u);
    }

-- The ids of the rows stay distinct and below the sequence.
pub record IsFresh (s : Store) : Type 0 where
  pub keyed : IsKeyed (λ (c : CartItem). c.id) s.carts
  pub below : Below (λ (c : CartItem). c.id) s.next_cart s.carts

pub put-IsFresh : (user product n : ℕ) (s : Store) → IsFresh s → IsFresh (put user product n s).1
unfolding put
put-IsFresh user product n s h = elim (Option-cases (select_one (row_of user product) s.carts)) [
  | inl e ↦
      rw (put, e)
        (record {
          keyed =
              IsKeyed-append item_id s.next_cart s.carts (new_item user product n s) h.below refl
                h.keyed;
          below =
              All-append (λ (c : CartItem). c.id < suc s.next_cart) s.carts
                (new_item user product n s ∷ []) (Below-suc item_id s.next_cart s.carts h.below)
                (omega arith, tt);
        })
  | inr (c, e) ↦
      rw (put, e)
        (record {
          keyed = IsKeyed-modify item_id (set_quantity n) (λ r. refl) c.id s.carts h.keyed;
          below =
              Below-modify item_id (set_quantity n) (λ r. refl) s.next_cart c.id s.carts h.below;
        })
]
