-- ===== src/Payment/Json.antt =====
-- Reading the gateway's JSON (backend/internal/payment/zarinpal.go, `decodeUniqueJSON`). The tokens are
-- those of encoding/json's Decoder, and a list of them ends where the Decoder reports an error or the
-- end of the input. `strings.ToLower` is a parameter.
pub mod RoundTrip
pub mod Accepted
use plant_shop.Base.{
  ℕ, zero, suc, ◌+◌, ◌-◌, ◌*◌, ◌/◌, ◌%◌, ◌^◌, ◌≤◌, ◌<◌, min, ◌≡◌, refl, sym, ap, ◌∙◌, ◌≢◌, ◌↔◌, ◌⊎◌,
  inl, inr, Bool, true, false, not, ◌&&◌, ◌||◌, Option, none, some, List, [], ◌∷◌, ◌++◌, map, arith,
  ltb, leb, ◌==◌, if◌then◌else◌, ==_iff, ==_refl, Bool-cases, Option-cases, is_some, All, length,
  take, Result, ok, err, ◌>>=◌, ◌>>◌, fail_if, >>=-eq-ok, fail_if-eq-ok, Result-cases,
}
use plant_shop.Text.{
  Text, codes, byte_len, text_eq, is_empty, trim_space, parse_int, text_eq_refl, eq_of_text_eq,
  text_eq_iff,
}

pub data Token : Type 0 where
  brace_open brace_close bracket_open bracket_close null_token : Token
  string_token number_token : Text → Token
  bool_token : Bool → Token

-- The `any` that is decoded. The keys of an object are distinct, so its members are a list.
mutual
  pub data Json : Type 0 where
    null : Json
    boolean : Bool → Json
    number string : Text → Json
    array : Items → Json
    object : Members → Json

  pub data Items : Type 0 where
    no_item : Items
    item : Json → Items → Items

  pub data Members : Type 0 where
    no_member : Members
    member : Text → Json → Members → Members

-- `errInvalidResponse` and the Decoder's errors.
pub data DecodeError : Type 0 where
  invalid_response : DecodeError

abbrev pub any_text_eq : Text → List Text → Bool
any_text_eq k [] = false
any_text_eq k (s ∷ ss) = text_eq k s || any_text_eq k ss

-- The keys that must be written in lower case.
unfoldable pub reserved : List Text
reserved =
    codes "data"
    ∷ codes "errors"
    ∷ codes "code"
    ∷ codes "message"
    ∷ codes "authority"
    ∷ codes "ref_id"
    ∷ codes "fee"
    ∷ codes "fee_type"
    ∷ codes "card_hash"
    ∷ codes "card_pan"
    ∷ codes "validations"
    ∷ []

-- A key that is refused beside the keys before it.
unfoldable pub is_refused : (Text → Text) → List Text → Text → Bool
unfolding reserved
is_refused lower seen k =
    any_text_eq (lower k) seen || (any_text_eq (lower k) reserved && not (text_eq k (lower k)))

abbrev pub Decoded : Type 0 → Type 0
Decoded A = Result DecodeError (A × List Token)

-- `decodeUniqueJSON`, on fuel: a value at its depth, the items of an array, the members of an object
-- with the keys seen.
unfoldable mutual
  unfolding is_refused

  pub decode_value : ℕ → (Text → Text) → ℕ → List Token → Decoded Json
  decode_value zero lower depth ts = err invalid_response
  decode_value (suc f) lower depth [] = err invalid_response
  decode_value (suc f) lower depth (brace_open ∷ ts) = do
    fail_if (ltb 64 depth) invalid_response
    r ← decode_members f lower (suc depth) [] ts
    ok (object r.0, r.1)
  decode_value (suc f) lower depth (bracket_open ∷ ts) = do
    fail_if (ltb 64 depth) invalid_response
    r ← decode_items f lower (suc depth) ts
    ok (array r.0, r.1)
  decode_value (suc f) lower depth (brace_close ∷ ts) = err invalid_response
  decode_value (suc f) lower depth (bracket_close ∷ ts) = err invalid_response
  decode_value (suc f) lower depth (null_token ∷ ts) =
      fail_if (ltb 64 depth) invalid_response >> ok (null, ts)
  decode_value (suc f) lower depth (string_token s ∷ ts) =
      fail_if (ltb 64 depth) invalid_response >> ok (string s, ts)
  decode_value (suc f) lower depth (number_token n ∷ ts) =
      fail_if (ltb 64 depth) invalid_response >> ok (number n, ts)
  decode_value (suc f) lower depth (bool_token b ∷ ts) =
      fail_if (ltb 64 depth) invalid_response >> ok (boolean b, ts)

  pub decode_items : ℕ → (Text → Text) → ℕ → List Token → Decoded Items
  decode_items zero lower depth ts = err invalid_response
  decode_items (suc f) lower depth (bracket_close ∷ ts) = ok (no_item, ts)
  decode_items (suc f) lower depth (brace_close ∷ ts) = err invalid_response
  decode_items (suc f) lower depth ts = do
    v ← decode_value f lower depth ts
    r ← decode_items f lower depth v.1
    ok (item v.0 r.0, r.1)

  pub decode_members : ℕ → (Text → Text) → ℕ → List Text → List Token → Decoded Members
  decode_members zero lower depth seen ts = err invalid_response
  decode_members (suc f) lower depth seen (brace_close ∷ ts) = ok (no_member, ts)
  decode_members (suc f) lower depth seen (string_token k ∷ ts) = do
    fail_if (is_refused lower seen k) invalid_response
    v ← decode_value f lower depth ts
    r ← decode_members f lower depth (lower k ∷ seen) v.1
    ok (member k v.0 r.0, r.1)
  decode_members (suc f) lower depth seen ts = err invalid_response

-- Two units of fuel for each token are enough: a token takes one call or two.
unfoldable pub decode_unique_json : (Text → Text) → List Token → Decoded Json
unfolding decode_value
decode_unique_json lower ts = decode_value (2 * length ts) lower 0 ts
