-- ===== src/Payment/Json/Accepted.antt =====
-- Nothing else is read: what the decoder accepts is a value that it may accept, from its tokens.
use plant_shop.Payment.Json.{
  Token, Json, Items, Members, DecodeError, invalid_response, Decoded, is_refused, decode_value,
  decode_items, decode_members, decode_unique_json, brace_open, brace_close, bracket_open,
  bracket_close, null_token, string_token, number_token, bool_token, item,
}
use plant_shop.Payment.Json.RoundTrip.{
  tokens, item_tokens, member_tokens, IsReadable, AreReadable, HasReadable,
  decode_unique_json-tokens,
}
use mathlib.Core.Path.{subst}
use plant_shop.Base.{
  ℕ, zero, suc, ◌*◌, ◌≤◌, ◌≡◌, refl, ap, ◌∙◌, ◌↔◌, false, List, [], ◌∷◌, arith, ltb, length, Result,
  ok, ◌>>=◌, >>=-eq-ok, fail_if-eq-ok,
}
use plant_shop.Text.{Text}

ok_inj : {A : Type 0} {x y : A} → ◌≡◌ {A = Result DecodeError A} (ok x) (ok y) → x ≡ y
ok_inj h = cc

deep : (d : ℕ) → ltb 64 d ≡ false → d ≤ 64
deep d h = ground arith

-- One item and the rest.
abbrev item_chain : ℕ → (Text → Text) → ℕ → List Token → Decoded Items
item_chain f lower d ts = do
  v ← decode_value f lower d ts
  r ← decode_items f lower d v.1
  ok (item v.0 r.0, r.1)

-- What they mean, from what the two calls mean.
item-step :
    (f : ℕ) (lower : Text → Text) (d : ℕ) (ts : List Token) (is : Items) (rest : List Token)
    → ((v : Json) (us : List Token)
        → decode_value f lower d ts ≡ ok (v, us)
        → IsReadable lower d v × (ts ≡ tokens v us))
    → ((us : List Token) (js : Items) (ws : List Token)
        → decode_items f lower d us ≡ ok (js, ws)
        → AreReadable lower d js × (us ≡ item_tokens js (bracket_close ∷ ws)))
    → item_chain f lower d ts ≡ ok (is, rest)
    → AreReadable lower d is × (ts ≡ item_tokens is (bracket_close ∷ rest))
unfolding tokens IsReadable
item-step f lower d ts is rest value items h =
    let ((v, us), e, k) = >>=-eq-ok (decode_value f lower d ts) _ h in
    let ((js, ws), e', q) = >>=-eq-ok (decode_items f lower d us) _ k in
    let (r, t) = value v us e in
    let (r', t') = items us js ws e' in
    subst
      (λ (x : Items × List Token).
        AreReadable lower d x.0 × (ts ≡ item_tokens x.0 (bracket_close ∷ x.1)))
      (ok_inj q) ((r, r'), t ∙ ap (tokens v) t')

mutual
  unfolding tokens IsReadable decode_value

  decode_value-IsReadable :
      (f : ℕ) (lower : Text → Text) (d : ℕ) (ts : List Token) (v : Json) (rest : List Token)
      → decode_value f lower d ts ≡ ok (v, rest)
      → IsReadable lower d v × (ts ≡ tokens v rest)
  decode_value-IsReadable zero lower d ts v rest h = cc
  decode_value-IsReadable (suc f) lower d [] v rest h = cc
  decode_value-IsReadable (suc f) lower d (brace_close ∷ ts) v rest h = cc
  decode_value-IsReadable (suc f) lower d (bracket_close ∷ ts) v rest h = cc
  decode_value-IsReadable (suc f) lower d (null_token ∷ ts) v rest h =
      let (b, k) = fail_if-eq-ok (ltb 64 d) invalid_response _ h in
      subst (λ (x : Json × List Token). IsReadable lower d x.0 × (null_token ∷ ts ≡ tokens x.0 x.1))
        (ok_inj k) (deep d b, refl)
  decode_value-IsReadable (suc f) lower d (string_token s ∷ ts) v rest h =
      let (b, k) = fail_if-eq-ok (ltb 64 d) invalid_response _ h in
      subst
        (λ (x : Json × List Token). IsReadable lower d x.0 × (string_token s ∷ ts ≡ tokens x.0 x.1))
        (ok_inj k) (deep d b, refl)
  decode_value-IsReadable (suc f) lower d (number_token n ∷ ts) v rest h =
      let (b, k) = fail_if-eq-ok (ltb 64 d) invalid_response _ h in
      subst
        (λ (x : Json × List Token). IsReadable lower d x.0 × (number_token n ∷ ts ≡ tokens x.0 x.1))
        (ok_inj k) (deep d b, refl)
  decode_value-IsReadable (suc f) lower d (bool_token c ∷ ts) v rest h =
      let (b, k) = fail_if-eq-ok (ltb 64 d) invalid_response _ h in
      subst
        (λ (x : Json × List Token). IsReadable lower d x.0 × (bool_token c ∷ ts ≡ tokens x.0 x.1))
        (ok_inj k) (deep d b, refl)
  decode_value-IsReadable (suc f) lower d (brace_open ∷ ts) v rest h =
      let (b, k) = fail_if-eq-ok (ltb 64 d) invalid_response _ h in
      let ((ms, us), e, q) = >>=-eq-ok (decode_members f lower (suc d) [] ts) _ k in
      let (r, t) = decode_members-HasReadable f lower (suc d) [] ts ms us e in
      subst (λ (x : Json × List Token). IsReadable lower d x.0 × (brace_open ∷ ts ≡ tokens x.0 x.1))
        (ok_inj q) ((deep d b, r), ap (λ us. brace_open ∷ us) t)
  decode_value-IsReadable (suc f) lower d (bracket_open ∷ ts) v rest h =
      let (b, k) = fail_if-eq-ok (ltb 64 d) invalid_response _ h in
      let ((is, us), e, q) = >>=-eq-ok (decode_items f lower (suc d) ts) _ k in
      let (r, t) = decode_items-AreReadable f lower (suc d) ts is us e in
      subst
        (λ (x : Json × List Token). IsReadable lower d x.0 × (bracket_open ∷ ts ≡ tokens x.0 x.1))
        (ok_inj q) ((deep d b, r), ap (λ us. bracket_open ∷ us) t)

  decode_items-AreReadable :
      (f : ℕ) (lower : Text → Text) (d : ℕ) (ts : List Token) (is : Items) (rest : List Token)
      → decode_items f lower d ts ≡ ok (is, rest)
      → AreReadable lower d is × (ts ≡ item_tokens is (bracket_close ∷ rest))
  decode_items-AreReadable zero lower d ts is rest h = cc
  decode_items-AreReadable (suc f) lower d [] is rest h =
      item-step f lower d [] is rest (decode_value-IsReadable f lower d [])
        (decode_items-AreReadable f lower d) h
  decode_items-AreReadable (suc f) lower d (bracket_close ∷ ts) is rest h =
      subst
        (λ (x : Items × List Token).
          AreReadable lower d x.0 × (bracket_close ∷ ts ≡ item_tokens x.0 (bracket_close ∷ x.1)))
        (ok_inj h) (tt, refl)
  decode_items-AreReadable (suc f) lower d (brace_close ∷ ts) is rest h = cc
  decode_items-AreReadable (suc f) lower d (brace_open ∷ ts) is rest h =
      item-step f lower d (brace_open ∷ ts) is rest
        (decode_value-IsReadable f lower d (brace_open ∷ ts)) (decode_items-AreReadable f lower d) h
  decode_items-AreReadable (suc f) lower d (bracket_open ∷ ts) is rest h =
      item-step f lower d (bracket_open ∷ ts) is rest
        (decode_value-IsReadable f lower d (bracket_open ∷ ts)) (decode_items-AreReadable f lower d)
        h
  decode_items-AreReadable (suc f) lower d (null_token ∷ ts) is rest h =
      item-step f lower d (null_token ∷ ts) is rest
        (decode_value-IsReadable f lower d (null_token ∷ ts)) (decode_items-AreReadable f lower d) h
  decode_items-AreReadable (suc f) lower d (string_token x ∷ ts) is rest h =
      item-step f lower d (string_token x ∷ ts) is rest
        (decode_value-IsReadable f lower d (string_token x ∷ ts))
        (decode_items-AreReadable f lower d) h
  decode_items-AreReadable (suc f) lower d (number_token x ∷ ts) is rest h =
      item-step f lower d (number_token x ∷ ts) is rest
        (decode_value-IsReadable f lower d (number_token x ∷ ts))
        (decode_items-AreReadable f lower d) h
  decode_items-AreReadable (suc f) lower d (bool_token x ∷ ts) is rest h =
      item-step f lower d (bool_token x ∷ ts) is rest
        (decode_value-IsReadable f lower d (bool_token x ∷ ts)) (decode_items-AreReadable f lower d)
        h

  decode_members-HasReadable :
      (f : ℕ) (lower : Text → Text) (d : ℕ) (seen : List Text) (ts : List Token) (ms : Members)
      (rest : List Token)
      → decode_members f lower d seen ts ≡ ok (ms, rest)
      → HasReadable lower d seen ms × (ts ≡ member_tokens ms (brace_close ∷ rest))
  decode_members-HasReadable zero lower d seen ts ms rest h = cc
  decode_members-HasReadable (suc f) lower d seen [] ms rest h = cc
  decode_members-HasReadable (suc f) lower d seen (brace_close ∷ ts) ms rest h =
      subst
        (λ (x : Members × List Token).
          HasReadable lower d seen x.0 × (brace_close ∷ ts ≡ member_tokens x.0 (brace_close ∷ x.1)))
        (ok_inj h) (tt, refl)
  decode_members-HasReadable (suc f) lower d seen (string_token key ∷ ts) ms rest h =
      let (b, k) = fail_if-eq-ok (is_refused lower seen key) invalid_response _ h in
      let ((v, us), e, k') = >>=-eq-ok (decode_value f lower d ts) _ k in
      let ((ns, ws), e', q) = >>=-eq-ok (decode_members f lower d (lower key ∷ seen) us) _ k' in
      let (r, t) = decode_value-IsReadable f lower d ts v us e in
      let (r', t') = decode_members-HasReadable f lower d (lower key ∷ seen) us ns ws e' in
      subst
        (λ (x : Members × List Token).
          HasReadable lower d seen x.0
          × (string_token key ∷ ts ≡ member_tokens x.0 (brace_close ∷ x.1)))
        (ok_inj q) ((b, r, r'), ap (λ xs. string_token key ∷ xs) (t ∙ ap (tokens v) t'))
  decode_members-HasReadable (suc f) lower d seen (brace_open ∷ ts) ms rest h = cc
  decode_members-HasReadable (suc f) lower d seen (bracket_open ∷ ts) ms rest h = cc
  decode_members-HasReadable (suc f) lower d seen (bracket_close ∷ ts) ms rest h = cc
  decode_members-HasReadable (suc f) lower d seen (null_token ∷ ts) ms rest h = cc
  decode_members-HasReadable (suc f) lower d seen (number_token x ∷ ts) ms rest h = cc
  decode_members-HasReadable (suc f) lower d seen (bool_token x ∷ ts) ms rest h = cc

-- The decoder reads a value from tokens, with a rest behind it, exactly if they are the tokens of
-- the value followed by the rest and the value is readable: it is nested at most 64 deep, no
-- object has a key twice up to the case mapping, and the reserved keys are in lower case.
pub decode_unique_json_iff :
    (lower : Text → Text) (v : Json) (ts rest : List Token)
    → (decode_unique_json lower ts ≡ ok (v, rest)) ↔ (IsReadable lower 0 v × (ts ≡ tokens v rest))
unfolding decode_unique_json
decode_unique_json_iff lower v ts rest = (
  λ h. decode_value-IsReadable (2 * length ts) lower 0 ts v rest h,
  λ p. ap (decode_unique_json lower) p.1 ∙ decode_unique_json-tokens lower v rest p.0,
)
