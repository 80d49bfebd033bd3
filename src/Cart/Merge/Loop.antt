-- ===== src/Cart/Merge/Loop.antt =====
-- What the loop of a merge does to the carts.
use plant_shop.Cart.Model.{Warning}
use plant_shop.Cart.Repository.{put}
use plant_shop.Cart.Repository.Contents.{in_cart, put-contents, IsFresh, put-IsFresh}
use plant_shop.Cart.Merge.{Wanted, put_wanted, merge_one, merge_all}
use plant_shop.Cart.Merge.Totals.{find_wanted, IsAscending, Above-none}
use plant_shop.Store.{Store, Product, find_product}
use plant_shop.Base.{
  ℕ, ◌+◌, min, ◌≡◌, refl, ap, inl, inr, ◌&&◌, Option, none, some, List, [], ◌∷◌, arith, ltb, ◌==◌,
  if◌then◌else◌, Bool-cases, Option-cases,
}

-- The quantity of a product after a merge that wants q more: at most the stock, and as it was where
-- the product is gone or sold out.
unfoldable pub merged : Option Product → ℕ → ℕ → ℕ
merged none c q = c
merged (some p) c q = if min p.stock (c + q) == 0 then c else min p.stock (c + q)

-- A table of the contents that changes nothing.
in_cart-unchanged :
    (user product v r : ℕ) (s : Store)
    → in_cart v r s.carts
      ≡ (if v == user && r == product then in_cart user product s.carts else in_cart v r s.carts)
in_cart-unchanged user product v r s = elim (Bool-cases (v == user && r == product)) [
  | inl e ↦
      let a : v ≡ user = ground arith in let b : r ≡ product = ground arith in rw (e, a, b) refl
  | inr e ↦ rw e refl
]

put_wanted-contents :
    (user product n v r : ℕ) (s : Store)
    → IsFresh s
    → in_cart v r (put_wanted user product n s).carts ≡ (
        if v == user && r == product
        then (if n == 0 then in_cart user product s.carts else n)
        else in_cart v r s.carts)
put_wanted-contents user product n v r s h = elim (Bool-cases (n == 0)) [
  | inl e ↦ rw e (in_cart-unchanged user product v r s)
  | inr e ↦ rw e (put-contents user product n v r s h.keyed)
]

put_wanted-IsFresh :
    (user product n : ℕ) (s : Store) → IsFresh s → IsFresh (put_wanted user product n s)
put_wanted-IsFresh user product n s h = elim (Bool-cases (n == 0)) [
  | inl e ↦ rw e h
  | inr e ↦ rw e (put-IsFresh user product n s h)
]

put_wanted-products :
    (user product n : ℕ) (s : Store) → (put_wanted user product n s).products ≡ s.products
unfolding put
put_wanted-products user product n s = ground arith

-- The store after one round.
merge_one-store :
    (user : ℕ) (w : Wanted) (l : List Warning) (s : Store) (p : Product)
    → find_product w.product_id s.products ≡ some p
    → (merge_one user w (l, s)).1
      ≡ put_wanted user w.product_id
          (min p.stock (in_cart user w.product_id s.carts + w.quantity))
          s
unfolding merge_one
merge_one-store user w l s p e =
    let n = in_cart user w.product_id s.carts + w.quantity in
    elim (Bool-cases (ltb p.stock n)) [
      | inl b ↦ rw (merge_one, e, b) (ap (λ k. put_wanted user w.product_id k s) (ground arith))
      | inr b ↦ rw (merge_one, e, b) (ap (λ k. put_wanted user w.product_id k s) (ground arith))
    ]

merge_one-none :
    (user : ℕ) (w : Wanted) (l : List Warning) (s : Store)
    → find_product w.product_id s.products ≡ none
    → (merge_one user w (l, s)).1 ≡ s
unfolding merge_one
merge_one-none user w l s e = ground arith

-- What a round keeps and changes.
record Round (user : ℕ) (w : Wanted) (s t : Store) : Type 0 where
  fresh : IsFresh t
  products : t.products ≡ s.products
  contents :
      (v r : ℕ)
      → in_cart v r t.carts ≡ (
          if v == user && r == w.product_id
          then merged
              (find_product w.product_id s.products)
              (in_cart user w.product_id s.carts)
              w.quantity
          else in_cart v r s.carts)

merge_one-Round :
    (user : ℕ) (w : Wanted) (l : List Warning) (s : Store)
    → IsFresh s
    → Round user w s (merge_one user w (l, s)).1
unfolding merged
merge_one-Round user w l s h = elim (Option-cases (find_product w.product_id s.products)) [
  | inl e ↦ rw (merge_one-none user w l s e) (record {
    fresh = h;
    products = refl;
    contents = λ v r. rw e (in_cart-unchanged user w.product_id v r s);
  })
  | inr (p, e) ↦
      let n = min p.stock (in_cart user w.product_id s.carts + w.quantity) in
      rw (merge_one-store user w l s p e) (record {
        fresh = put_wanted-IsFresh user w.product_id n s h;
        products = put_wanted-products user w.product_id n s;
        contents = λ v r. rw e (put_wanted-contents user w.product_id n v r s h);
      })
]

-- What a product's quantity in a user's cart is after the rounds.
abbrev pub after : Option Product → ℕ → Option Wanted → ℕ
after p c none = c
after p c (some w) = merged p c w.quantity

-- The loop: each product that is wanted is merged once, and nothing else changes.
pub record Merged (user : ℕ) (ws : List Wanted) (s t : Store) : Type 0 where
  pub fresh : IsFresh t
  pub contents :
      (v r : ℕ)
      → in_cart v r t.carts ≡ (
          if v == user
          then after (find_product r s.products) (in_cart v r s.carts) (find_wanted r ws)
          else in_cart v r s.carts)

contents_then :
    (user : ℕ) (w : Wanted) (ws : List Wanted) (s t u : Store) (v r : ℕ)
    → IsAscending (w ∷ ws)
    → Round user w s t
    → Merged user ws t u
    → in_cart v r u.carts ≡ (
        if v == user
        then after (find_product r s.products) (in_cart v r s.carts) (find_wanted r (w ∷ ws))
        else in_cart v r s.carts)
contents_then user w ws s t u v r a k m =
    let first = k.contents v r in
    let rest = m.contents v r in
    let ps = ap (find_product r) k.products in
    elim (Bool-cases (v == user)) [
      | inr e ↦ ground arith
      | inl e ↦ elim (Bool-cases (r == w.product_id)) [
        | inr d ↦ ground arith
        | inl d ↦
            let gone = Above-none w.product_id r ws (ground arith) a.0 in
            let x : v ≡ user = ground arith in
            let y : r ≡ w.product_id = ground arith in ground arith
      ]
    ]

pub merge_all-Merged :
    (user : ℕ) (ws : List Wanted) (l : List Warning) (s : Store)
    → IsFresh s
    → IsAscending ws
    → Merged user ws s (merge_all user ws (l, s)).1
unfolding merge_all
merge_all-Merged user [] l s h a = record { fresh = h; contents = λ v r. ground arith }
merge_all-Merged user (w ∷ ws) l s h a =
    let k = merge_one-Round user w l s h in
    let (l', t) = merge_one user w (l, s) in
    let m = merge_all-Merged user ws l' t k.fresh a.1 in
    record { fresh = m.fresh; contents = λ v r. contents_then user w ws s t _ v r a k m }
