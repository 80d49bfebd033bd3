-- ===== src/Payment/Json/RoundTrip.antt =====
-- Every value that the decoder may accept is read back from its tokens.
use plant_shop.Payment.Json.{
  Token, Json, Items, Members, is_refused, decode_value, decode_items, decode_members,
  decode_unique_json, brace_open, brace_close, bracket_open, bracket_close, null_token,
  string_token, number_token, bool_token, null, boolean, number, string, array, object, no_item,
  item, no_member, member,
}
use plant_shop.Base.{
  ℕ, zero, suc, ◌+◌, ◌*◌, ◌≤◌, ◌<◌, ◌≡◌, refl, ◌∙◌, false, List, [], ◌∷◌, arith, ltb, length, ok,
  ◌>>=◌,
}
use plant_shop.Text.{Text}

-- The tokens of a value, before those that follow.
unfoldable mutual
  pub tokens : Json → List Token → List Token
  tokens null ts = null_token ∷ ts
  tokens (boolean b) ts = bool_token b ∷ ts
  tokens (number n) ts = number_token n ∷ ts
  tokens (string s) ts = string_token s ∷ ts
  tokens (array is) ts = bracket_open ∷ item_tokens is (bracket_close ∷ ts)
  tokens (object ms) ts = brace_open ∷ member_tokens ms (brace_close ∷ ts)

  pub item_tokens : Items → List Token → List Token
  item_tokens no_item ts = ts
  item_tokens (item v is) ts = tokens v (item_tokens is ts)

  pub member_tokens : Members → List Token → List Token
  member_tokens no_member ts = ts
  member_tokens (member k v ms) ts = string_token k ∷ tokens v (member_tokens ms ts)

-- A value at its depth: nothing below depth 64, no key twice under `lower`, and the reserved keys in
-- lower case.
unfoldable mutual
  pub IsReadable : (Text → Text) → ℕ → Json → Type 0
  IsReadable lower d null = d ≤ 64
  IsReadable lower d (boolean b) = d ≤ 64
  IsReadable lower d (number n) = d ≤ 64
  IsReadable lower d (string s) = d ≤ 64
  IsReadable lower d (array is) = (d ≤ 64) × AreReadable lower (suc d) is
  IsReadable lower d (object ms) = (d ≤ 64) × HasReadable lower (suc d) [] ms

  pub AreReadable : (Text → Text) → ℕ → Items → Type 0
  AreReadable lower d no_item = Unit
  AreReadable lower d (item v is) = IsReadable lower d v × AreReadable lower d is

  pub HasReadable : (Text → Text) → ℕ → List Text → Members → Type 0
  HasReadable lower d seen no_member = Unit
  HasReadable lower d seen (member k v ms) =
      (is_refused lower seen k ≡ false)
      × IsReadable lower d v
      × HasReadable lower d (lower k ∷ seen) ms

mutual
  unfolding tokens

  tokens-length : (v : Json) (ts : List Token) → length ts < length (tokens v ts)
  tokens-length null ts = omega arith
  tokens-length (boolean b) ts = omega arith
  tokens-length (number n) ts = omega arith
  tokens-length (string s) ts = omega arith
  tokens-length (array is) ts = omega (arith, item_tokens-length is (bracket_close ∷ ts))
  tokens-length (object ms) ts = omega (arith, member_tokens-length ms (brace_close ∷ ts))

  item_tokens-length : (is : Items) (ts : List Token) → length ts ≤ length (item_tokens is ts)
  item_tokens-length no_item ts = omega arith
  item_tokens-length (item v is) ts =
      omega (arith, tokens-length v (item_tokens is ts), item_tokens-length is ts)

  member_tokens-length : (ms : Members) (ts : List Token) → length ts ≤ length (member_tokens ms ts)
  member_tokens-length no_member ts = omega arith
  member_tokens-length (member k v ms) ts =
      omega (arith, tokens-length v (member_tokens ms ts), member_tokens-length ms ts)

shallow : (d : ℕ) → d ≤ 64 → ltb 64 d ≡ false
shallow d h = ground arith

-- No value begins with the end of an array.
decode_items-value :
    (v : Json) (lower : Text → Text) (f d : ℕ) (ts : List Token)
    → decode_items (suc f) lower d (tokens v ts) ≡ (
        decode_value f lower d (tokens v ts) >>= λ (x : Json × List Token).
        decode_items f lower d x.1 >>= λ (r : Items × List Token). ok (item x.0 r.0, r.1))
unfolding tokens decode_value
decode_items-value null lower f d ts = refl
decode_items-value (boolean b) lower f d ts = refl
decode_items-value (number n) lower f d ts = refl
decode_items-value (string s) lower f d ts = refl
decode_items-value (array is) lower f d ts = refl
decode_items-value (object ms) lower f d ts = refl

mutual
  unfolding tokens IsReadable decode_value

  decode_value-tokens :
      (v : Json) (lower : Text → Text) (f d : ℕ) (ts : List Token)
      → IsReadable lower d v
      → 2 * length (tokens v ts) ≤ f + 2 * length ts
      → decode_value f lower d (tokens v ts) ≡ ok (v, ts)
  decode_value-tokens v lower zero d ts r h = let more = tokens-length v ts in absurd (omega arith)
  decode_value-tokens null lower (suc f) d ts r h = rw (shallow d r) refl
  decode_value-tokens (boolean b) lower (suc f) d ts r h = rw (shallow d r) refl
  decode_value-tokens (number n) lower (suc f) d ts r h = rw (shallow d r) refl
  decode_value-tokens (string s) lower (suc f) d ts r h = rw (shallow d r) refl
  decode_value-tokens (array is) lower (suc f) d ts r h =
      let rest = decode_items-tokens is lower f (suc d) ts r.1 (omega arith) in
      rw (shallow d r.0, rest) refl
  decode_value-tokens (object ms) lower (suc f) d ts r h =
      let rest = decode_members-tokens ms lower f (suc d) [] ts r.1 (omega arith) in
      rw (shallow d r.0, rest) refl

  decode_items-tokens :
      (is : Items) (lower : Text → Text) (f d : ℕ) (ts : List Token)
      → AreReadable lower d is
      → 2 * length (item_tokens is (bracket_close ∷ ts)) ≤ suc (f + 2 * length ts)
      → decode_items f lower d (item_tokens is (bracket_close ∷ ts)) ≡ ok (is, ts)
  decode_items-tokens is lower zero d ts r h =
      let more = item_tokens-length is (bracket_close ∷ ts) in absurd (omega arith)
  decode_items-tokens no_item lower (suc f) d ts r h = refl
  decode_items-tokens (item v is) lower (suc f) d ts r h =
      let later = item_tokens is (bracket_close ∷ ts) in
      let more = item_tokens-length is (bracket_close ∷ ts) in
      let one = tokens-length v later in
      let first = decode_value-tokens v lower f d later r.0 (omega arith) in
      let rest = decode_items-tokens is lower f d ts r.1 (omega arith) in
      decode_items-value v lower f d later ∙ rw (first, rest) refl

  decode_members-tokens :
      (ms : Members) (lower : Text → Text) (f d : ℕ) (seen : List Text) (ts : List Token)
      → HasReadable lower d seen ms
      → 2 * length (member_tokens ms (brace_close ∷ ts)) ≤ suc (f + 2 * length ts)
      → decode_members f lower d seen (member_tokens ms (brace_close ∷ ts)) ≡ ok (ms, ts)
  decode_members-tokens ms lower zero d seen ts r h =
      let more = member_tokens-length ms (brace_close ∷ ts) in absurd (omega arith)
  decode_members-tokens no_member lower (suc f) d seen ts r h = refl
  decode_members-tokens (member k v ms) lower (suc f) d seen ts r h =
      let later = member_tokens ms (brace_close ∷ ts) in
      let more = member_tokens-length ms (brace_close ∷ ts) in
      let one = tokens-length v later in
      let first = decode_value-tokens v lower f d later r.1 (omega arith) in
      let rest = decode_members-tokens ms lower f d (lower k ∷ seen) ts r.2 (omega arith) in
      rw (r.0, first, rest) refl

pub decode_unique_json-tokens :
    (lower : Text → Text) (v : Json) (ts : List Token)
    → IsReadable lower 0 v
    → decode_unique_json lower (tokens v ts) ≡ ok (v, ts)
unfolding decode_unique_json
decode_unique_json-tokens lower v ts r =
    decode_value-tokens v lower (2 * length (tokens v ts)) 0 ts r (omega arith)
