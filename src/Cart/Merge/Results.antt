-- ===== src/Cart/Merge/Results.antt =====
-- What a merge does, and that a repeated merge does nothing.
use plant_shop.Cart.Model.{AddItemInput, Warning}
use plant_shop.Cart.Repository.{put}
use plant_shop.Cart.Repository.Contents.{in_cart, IsFresh}
use plant_shop.Cart.Merge.{
  Wanted, MergeInput, violates_check, add_batch, put_wanted, merge_one, merge_all, merge,
  quantities, batch_of,
}
use plant_shop.Cart.Merge.Totals.{
  find_wanted, asked, mentions, quantities-IsAscending, find-quantities,
}
use plant_shop.Cart.Merge.Loop.{merged, after, merge_all-Merged}
use plant_shop.Store.{Store, Product, MergeBatch, constraint, find_product}
use plant_shop.Base.{
  ℕ, ◌+◌, ◌≤◌, length, ok, err, min, ◌≡◌, ◌⊎◌, refl, ap, ◌∙◌, inl, inr, ◌&&◌, Option, none, some,
  List, [], ◌∷◌, ◌++◌, arith, ltb, ◌==◌, if◌then◌else◌, ==_refl, Bool-cases, Option-cases,
}
use plant_shop.Base.Table.{select_one, select_one-append_new}
use plant_shop.Text.{Text, text_eq_refl}

-- What a first merge leaves in every cart: of each product that is mentioned, the user has what was
-- there and the sum of what is asked, capped at 1000, as far as the stock goes.
pub record IsMerged (user : ℕ) (is : List AddItemInput) (s t : Store) : Type 0 where
  pub fresh : IsFresh t
  pub contents :
      (v r : ℕ)
      → in_cart v r t.carts ≡ (
          if v == user && mentions r is
          then merged (find_product r s.products) (in_cart v r s.carts) (min 1000 (asked r is))
          else in_cart v r s.carts)

wanted_after :
    (p : Option Product) (c r : ℕ) (is : List AddItemInput)
    → after p c (find_wanted r (quantities is []))
      ≡ (if mentions r is then merged p c (min 1000 (asked r is)) else c)
wanted_after p c r is = elim (Bool-cases (mentions r is)) [
  | inl e ↦ rw (find-quantities r is [] tt, e) (ap (merged p c) (ground arith))
  | inr e ↦ rw (find-quantities r is [] tt, e) refl
]

-- A key of 16 to 128 characters.
abbrev pub Fits : Text → Type 0
Fits key = (16 ≤ length key) × (length key ≤ 128)

-- How a first merge ends: in an error under a key that the table refuses.
abbrev pub FirstMerge : ℕ → MergeInput → Store → Type 0
FirstMerge user input s =
    (¬ Fits input.key × (merge user input s ≡ err constraint))
    ⊎ (Fits input.key
        × (l : List Warning) × (t : Store) × (merge user input s ≡ ok (l, t))
        × IsMerged user input.items s t)

-- If the ids of all cart rows are distinct and below the next one, a first merge under a key that
-- has not 16 to 128 characters is an error, and one under any other key succeeds and leaves in the
-- user's cart, of each product mentioned, what was there plus the sum asked, capped at 1000, as
-- far as the stock goes; it leaves the quantity as it was where the product is gone or sold out,
-- and every other quantity in any cart as it was.
pub merge-IsMerged :
    (user : ℕ) (input : MergeInput) (s : Store)
    → IsFresh s
    → select_one (batch_of user input.key) s.batches ≡ none
    → FirstMerge user input s
unfolding merge violates_check
merge-IsMerged user input s h e =
    let ws = quantities input.items [] in
    let m = merge_all-Merged user ws [] s h (quantities-IsAscending input.items [] tt) in
    elim (Bool-cases (violates_check input.key)) [
      | inl bad ↦ inl (λ fits. ground arith, rw (merge, e, bad) refl)
      | inr fine ↦ inr (
        (ground arith, ground arith),
        (merge_all user ws ([], s)).0,
        add_batch user input.key (merge_all user ws ([], s)).0 (merge_all user ws ([], s)).1,
        rw (merge, e, fine) refl,
        record {
          fresh = record { keyed = m.fresh.keyed; below = m.fresh.below };
          contents = λ v r.
              let w =
                wanted_after (find_product r s.products) (in_cart v r s.carts) r input.items in
              let c = m.contents v r in ground arith;
        },
      )
    ]

put-batches : (user product n : ℕ) (s : Store) → (put_wanted user product n s).batches ≡ s.batches
unfolding put
put-batches user product n s = ground arith

merge_one-batches :
    (user : ℕ) (w : Wanted) (l : List Warning) (s : Store)
    → (merge_one user w (l, s)).1.batches ≡ s.batches
unfolding merge_one
merge_one-batches user w l s = elim (Option-cases (find_product w.product_id s.products)) [
  | inl e ↦ rw (merge_one, e) refl
  | inr (p, e) ↦ elim (Bool-cases (ltb p.stock (in_cart user w.product_id s.carts + w.quantity))) [
    | inl b ↦ rw (merge_one, e, b) (put-batches user w.product_id _ s)
    | inr b ↦ rw (merge_one, e, b) (put-batches user w.product_id _ s)
  ]
]

merge_all-batches :
    (user : ℕ) (ws : List Wanted) (l : List Warning) (s : Store)
    → (merge_all user ws (l, s)).1.batches ≡ s.batches
unfolding merge_all
merge_all-batches user [] l s = refl
merge_all-batches user (w ∷ ws) l s =
    let (l', t) = merge_one user w (l, s) in
    merge_all-batches user ws l' t ∙ merge_one-batches user w l s

-- The batch of a merge that succeeds is there afterwards, with the warnings that the merge returned.
merge-batch :
    (user : ℕ) (input : MergeInput) (s t : Store) (l : List Warning)
    → merge user input s ≡ ok (l, t)
    → (b : MergeBatch) × (select_one (batch_of user input.key) t.batches ≡ some b)
      × (b.warnings ≡ l)
unfolding merge
merge-batch user input s t l h =
    elim (Option-cases (select_one (batch_of user input.key) s.batches)) [
      | inr (b, e) ↦ let same : t ≡ s = ground arith in (b, rw same e, ground arith)
      | inl e ↦
          let r = merge_all user (quantities input.items []) ([], s) in
          let b : MergeBatch = record { user_id = user; merge_key = input.key; warnings = r.0 } in
          let same = merge_all-batches user (quantities input.items []) [] s in
          let now : t.batches ≡ r.1.batches ++ b ∷ [] = ground arith in
          (
            b,
            rw (now, same)
                (select_one-append_new (batch_of user input.key) s.batches b e
                  (ground (arith, ==_refl user, text_eq_refl input.key))),
            ground arith,
          )
    ]

-- After a merge that succeeds, merging again under the same key, with any items, changes nothing
-- and returns the warnings of the first merge.
pub merge-repeats :
    (user : ℕ) (input : MergeInput) (items : List AddItemInput) (s t : Store) (l : List Warning)
    → merge user input s ≡ ok (l, t)
    → merge user (record input { items = items }) t ≡ ok (l, t)
unfolding merge
merge-repeats user input items s t l h =
    let (b, e, w) = merge-batch user input s t l h in rw (merge, e, w) refl
