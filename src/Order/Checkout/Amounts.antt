-- ===== src/Order/Checkout/Amounts.antt =====
-- The amounts of an order: below the bound the int64 arithmetic of a checkout is exact.
use mathlib.Core.Path.{subst}
use plant_shop.Order.Model.{Order}
use plant_shop.Order.Shipping.{fee}
use plant_shop.Order.Shipping.Bounds.{IsFee, HasFees, fee-IsFee}
use plant_shop.Order.Input.{CheckoutInput}
use plant_shop.Order.Errors.{Error}
use plant_shop.Order.Checkout.{
  cart_lines, Line, Discount, Priced, line_subtotal, items_subtotal, resolve_coupon, price, place,
  order_of, create_from_cart,
}
use plant_shop.Coupon.Model.{Coupon, normalize_code, calculate_discount}
use plant_shop.Coupon.Model.Discount.{calculate_discount_bounds}
use plant_shop.Coupon.Repository.{eligible}
use plant_shop.Store.{Store, Env}
use plant_shop.Base.{
  ℕ, ◌+◌, ◌-◌, ◌*◌, ◌≤◌, ◌<◌, ◌≡◌, refl, sym, ap, ◌∙◌, inl, inr, Bool, true, false, none, some,
  List, [], ◌∷◌, arith, if◌then◌else◌, ok, err, >>=-eq-ok, Result-cases,
}
use plant_shop.Base.Int.{ℤ, pos, negsuc, ◌≤ℤ◌, ◌+ℤ◌, ◌-ℤ◌, +ℤ-pos, -ℤ-pos, *ℤ-pos}
use plant_shop.Base.Table.{sum_by}
use plant_shop.Text.{Text, is_empty}

-- The lines' value, without wrapping.
abbrev pub gross : List Line → ℕ
gross = sum_by (λ (l : Line). l.price * l.quantity)

items_subtotal-gross :
    (acc : ℕ) (ls : List Line)
    → acc + gross ls < 9223372036854775808
    → items_subtotal (pos acc) ls ≡ pos (acc + gross ls)
unfolding items_subtotal line_subtotal
items_subtotal-gross acc [] h = ground arith
items_subtotal-gross acc (l ∷ ls) h =
    rw (*ℤ-pos l.price l.quantity (omega arith), +ℤ-pos acc (l.price * l.quantity) (omega arith))
      (items_subtotal-gross (acc + l.price * l.quantity) ls (omega arith) ∙ ap pos (omega arith))

-- A discount between 0 and the subtotal.
abbrev pub IsDiscount : ℕ → ℤ → Type 0
IsDiscount n d = (k : ℕ) × (d ≡ pos k) × (k ≤ n)

IsDiscount-bounds : (n : ℕ) (d : ℤ) → pos 0 ≤ℤ d → d ≤ℤ pos n → IsDiscount n d
IsDiscount-bounds n (pos k) a b = (k, refl, omega arith)
IsDiscount-bounds n (negsuc k) a b = ground arith

calculate_discount-IsDiscount :
    (c : Coupon) (n : ℕ) → IsDiscount n (calculate_discount c.discount_type c.value (pos n))
calculate_discount-IsDiscount c n =
    let (low, high) = calculate_discount_bounds c.discount_type c.value (pos n) in
    let d = calculate_discount c.discount_type c.value (pos n) in
    elim high [ inl h ↦ IsDiscount-bounds n d low h | inr h ↦ (0, h.1, omega arith) ]

eligible-discount :
    (env : Env) (raw : Text) (user : ℕ) (subtotal d : ℤ) (s : Store) (c : Coupon)
    → eligible env raw user subtotal s ≡ ok (c, d)
    → d ≡ calculate_discount c.discount_type c.value subtotal
unfolding eligible
eligible-discount env raw user subtotal d s c h = ground arith

resolved-IsDiscount :
    (env : Env) (code : Text) (user n : ℕ) (s : Store) (d : Discount) (b : Bool)
    → (if b
        then ok (record { amount = pos 0; coupon = none })
        else elim (eligible env code user (pos n) s) [
          | err r ↦ err (Error.coupon_eligibility r)
          | ok (c, d) ↦ ok (record { amount = d; coupon = some c })
        ])
      ≡ ok d
    → IsDiscount n d.amount
resolved-IsDiscount env code user n s d true h = (0, ground arith, omega arith)
resolved-IsDiscount env code user n s d false h =
    elim (Result-cases (eligible env code user (pos n) s)) [
      | inl ((c, x), e) ↦
          let q = eligible-discount env code user (pos n) x s c e in
          let same : d.amount ≡ x = ground arith in rw (same, q) (calculate_discount-IsDiscount c n)
      | inr (r, e) ↦ ground arith
    ]

resolve_coupon-IsDiscount :
    (env : Env) (raw : Text) (user n : ℕ) (s : Store) (d : Discount)
    → resolve_coupon env raw user (pos n) s ≡ ok d
    → IsDiscount n d.amount
unfolding resolve_coupon
resolve_coupon-IsDiscount env raw user n s d h =
    resolved-IsDiscount env (normalize_code raw) user n s d (is_empty (normalize_code raw)) h

-- The amounts of a checkout of lines worth n, in numbers that do not wrap.
pub record Amounts (n : ℕ) (subtotal discount fee total : ℤ) : Type 0 where
  pub taken_off : ℕ
  pub shipping : ℕ
  pub subtotal_is : subtotal ≡ pos n
  pub discount_is : discount ≡ pos taken_off
  pub discount_le : taken_off ≤ n
  pub shipping_is : fee ≡ pos shipping
  pub shipping_le : shipping ≤ 100000000000
  pub total_is : total ≡ pos (n - taken_off + shipping)

total-exact :
    (a b c : ℤ) (n d f : ℕ)
    → a ≡ pos n
    → b ≡ pos d
    → c ≡ pos f
    → d ≤ n
    → n < 4611686018427387904
    → f ≤ 100000000000
    → (a -ℤ b) +ℤ c ≡ pos (n - d + f)
total-exact a b c n d f p q r h k l =
    rw (p, q, r, -ℤ-pos n d h (omega arith)) (+ℤ-pos (n - d) f (omega arith))

fee_number : (z : ℤ) → IsFee z → (f : ℕ) × (z ≡ pos f) × (f ≤ 100000000000)
fee_number (pos f) h = (f, refl, omega arith)
fee_number (negsuc f) h = ground arith

-- The parts of a priced cart.
price-parts :
    (env : Env) (user : ℕ) (i : CheckoutInput) (s : Store) (p : Priced)
    → price env user i s ≡ ok p
    → (p.lines ≡ cart_lines env.today user s.products s.carts)
      × (p.subtotal ≡ items_subtotal (pos 0) p.lines)
      × (resolve_coupon env i.coupon_code user p.subtotal s ≡ ok p.discount)
      × (p.shipping_fee ≡ (fee env.shipping p.shipping_method (p.subtotal -ℤ p.discount.amount)).0)
      × (p.total ≡ (p.subtotal -ℤ p.discount.amount) +ℤ p.shipping_fee)
unfolding price
price-parts env user i s p h =
    (ground arith, ground arith, ground arith, ground arith, ground arith)

price-Amounts :
    (env : Env) (user : ℕ) (i : CheckoutInput) (s : Store) (p : Priced)
    → HasFees env.shipping
    → gross p.lines < 4611686018427387904
    → price env user i s ≡ ok p
    → Amounts (gross p.lines) p.subtotal p.discount.amount p.shipping_fee p.total
price-Amounts env user i s p fees small h =
    let (_, st, dc, sh, tot) = price-parts env user i s p h in
    let sub : p.subtotal ≡ pos (gross p.lines) =
      st ∙ items_subtotal-gross 0 p.lines (omega arith) ∙ ap pos (omega arith) in
    let (d, de, dl) =
      resolve_coupon-IsDiscount env i.coupon_code user (gross p.lines) s p.discount
        (subst (λ z. resolve_coupon env i.coupon_code user z s ≡ ok p.discount) sub dc) in
    let (f, fe, fl) =
      fee_number p.shipping_fee
        (rw sh (fee-IsFee env.shipping p.shipping_method (p.subtotal -ℤ p.discount.amount) fees)) in
    record {
      taken_off = d;
      shipping = f;
      subtotal_is = sub;
      discount_is = de;
      discount_le = dl;
      shipping_is = fe;
      shipping_le = fl;
      total_is =
          tot
          ∙ total-exact p.subtotal p.discount.amount p.shipping_fee (gross p.lines) d f sub de fe dl
              small fl;
    }

-- The value of a user's cart.
abbrev pub cart_value : Env → ℕ → Store → ℕ
cart_value env user s = gross (cart_lines env.today user s.products s.carts)

abbrev pub OrderAmounts : ℕ → Order → Type 0
OrderAmounts n o = Amounts n o.items_subtotal o.discount_amount o.shipping_fee o.total

place-Amounts :
    (env : Env) (user : ℕ) (i : CheckoutInput) (p : Priced) (s t : Store) (o : Order) (n : ℕ)
    → place env user i p s ≡ ok (o, t)
    → Amounts n p.subtotal p.discount.amount p.shipping_fee p.total
    → OrderAmounts n o
unfolding place order_of
place-Amounts env user i p s t o n h a =
    let e : o ≡ order_of env user i p s.next_order = ground arith in
    subst (OrderAmounts n) (sym e) a

-- With configured fees from 0 to 10^11 and a cart worth less than 2^62, the order of a checkout
-- that succeeds has the exact value of the cart as its subtotal, a discount of at most the
-- subtotal, a fee of at most 10^11, and the total that is the subtotal less the discount plus the
-- fee.
pub create_from_cart-Amounts :
    (env : Env) (user : ℕ) (i : CheckoutInput) (s t : Store) (o : Order)
    → HasFees env.shipping
    → cart_value env user s < 4611686018427387904
    → create_from_cart env user i s ≡ ok (o, t)
    → OrderAmounts (cart_value env user s) o
unfolding create_from_cart
create_from_cart-Amounts env user i s t o fees small h =
    let (p, priced, written) = >>=-eq-ok (price env user i s) (λ p. place env user i p s) h in
    let lines = (price-parts env user i s p priced).0 in
    let value : gross p.lines ≡ cart_value env user s = ap gross lines in
    place-Amounts env user i p s t o (cart_value env user s) written (
      subst (λ n. Amounts n p.subtotal p.discount.amount p.shipping_fee p.total) value
        (price-Amounts env user i s p fees (omega arith) priced))
