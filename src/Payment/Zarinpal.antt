-- ===== src/Payment/Zarinpal.antt =====
-- The client of ZarinPal: what it makes of a response (backend/internal/payment/zarinpal.go). The HTTP
-- exchange is a parameter.
pub mod Answers
use plant_shop.Payment.Model.{irr, valid_authority}
use plant_shop.Payment.Json.{
  Token, Json, Items, Members, decode_unique_json, null, boolean, number, string, array, object,
  no_item, item, no_member, member,
}
use plant_shop.Payment.Gateway.{
  Client, ClientError, RequestPaymentInput, RequestPaymentOutput, VerifyPaymentInput,
  VerifyPaymentOutput,
}
use plant_shop.Base.{
  ℕ, zero, suc, ◌+◌, ◌-◌, ◌*◌, ◌/◌, ◌%◌, ◌^◌, ◌≤◌, ◌<◌, min, ◌≡◌, refl, sym, ap, ◌∙◌, ◌≢◌, ◌↔◌, ◌⊎◌,
  inl, inr, Bool, true, false, not, ◌&&◌, ◌||◌, Option, none, some, List, [], ◌∷◌, ◌++◌, map, arith,
  ltb, leb, ◌==◌, if◌then◌else◌, ==_iff, ==_refl, Bool-cases, Option-cases, is_some, All, length,
  take, Result, ok, err, ◌>>=◌, ◌>>◌, fail_if, >>=-eq-ok, fail_if-eq-ok, Result-cases,
}
use plant_shop.Base.Int.{
  ℤ, pos, negsuc, pos_part, neg_part, sub_ℕ, ◌≤ℤ◌, ltb_ℤ, leb_ℤ, i64, i64_pos, of_bits, ◌+ℤ◌, ◌-ℤ◌,
  ◌*ℤ◌, ◌/ℤ◌, +ℤ-pos, -ℤ-pos, *ℤ-pos, eq_ℤ, eq_of_eq_ℤ, eq_ℤ_refl,
}
use plant_shop.Text.{
  Text, codes, byte_len, text_eq, is_empty, trim_space, parse_int, text_eq_refl, eq_of_text_eq,
  text_eq_iff,
}

-- The body of a response, as encoding/json reads it: whether it is valid UTF-8, its tokens, and whether
-- they end at the end of the body rather than at an error.
pub record Body : Type 0 where
  pub size : ℕ
  pub is_utf8 : Bool
  pub token_list : List Token
  pub clean_end : Bool

pub record HttpResponse : Type 0 where
  pub status_code : ℕ
  pub body : Body

-- What is posted, with the path.
pub data Payload : Type 0 where
  request_body : Text → RequestPaymentInput → Payload
  verify_body : Text → VerifyPaymentInput → Payload

-- The client's fields, with the exchange: `none` where it fails.
pub record ZarinPalClient : Type 0 where
  pub merchant_id : Text
  pub sandbox : Bool
  pub exchange : Payload → Option HttpResponse
  pub lower : Text → Text

-- `data[key]`.
unfoldable pub member_of : Text → Members → Option Json
member_of key no_member = none
member_of key (member k v ms) =
    let rest = member_of key ms in if text_eq k key then some v else rest

abbrev pub nonblank : Json → Option Text
nonblank (string s) = if is_empty (trim_space s) then none else some s
nonblank _ = none

abbrev pub integer : Json → Option ℤ
integer (number n) = parse_int n
integer _ = none

-- `requiredString` and `requiredInteger`.
unfoldable pub required_string : Members → Text → Option Text
unfolding member_of
required_string data_ key = elim (member_of key data_) [ none ↦ none | some v ↦ nonblank v ]

unfoldable pub required_integer : Members → Text → Option ℤ
unfolding member_of
required_integer data_ key = elim (member_of key data_) [ none ↦ none | some v ↦ integer v ]

-- `responseCode`, the message being checked only; an int has 64 bits.
unfoldable pub response_code : Members → Option ℤ
unfolding required_string required_integer
response_code data_ =
    if is_some (required_string data_ (codes "message"))
    then required_integer data_ (codes "code")
    else none

abbrev is_text_if_there : Members → Text → Bool
is_text_if_there data_ key =
    not (is_some (member_of key data_)) || is_some (required_string data_ key)

abbrev is_natural : Option ℤ → Bool
is_natural none = false
is_natural (some n) = leb_ℤ (pos 0) n

abbrev is_natural_if_there : Members → Text → Bool
is_natural_if_there data_ key =
    not (is_some (member_of key data_)) || is_natural (required_integer data_ key)

abbrev is_container : Option Json → Bool
is_container none = true
is_container (some (object ms)) = true
is_container (some (array is)) = true
is_container (some _) = false

-- `validResponseFields`.
unfoldable pub valid_response_fields : Members → Bool
unfolding required_string required_integer
valid_response_fields data_ =
    is_text_if_there data_ (codes "authority")
    && is_text_if_there data_ (codes "fee_type")
    && is_text_if_there data_ (codes "card_hash")
    && is_text_if_there data_ (codes "card_pan")
    && is_natural_if_there data_ (codes "fee")
    && is_natural_if_there data_ (codes "ref_id")
    && is_container (member_of (codes "validations") data_)

-- `providerResponse`, without the message.
pub record ProviderResponse : Type 0 where
  pub code : ℤ
  pub fields : Members

abbrev pub has_result : Members → Bool
has_result ms =
    is_some (member_of (codes "authority") ms) || is_some (member_of (codes "ref_id") ms)

-- A rejection: `data` is an empty array, `errors` an object with a negative code.
unfoldable pub decode_rejection : Json → Members → Option ProviderResponse
unfolding response_code valid_response_fields
decode_rejection (array no_item) rejection = elim (response_code rejection) [
  | none ↦ none
  | some c ↦
      if leb_ℤ (pos 0) c || not (valid_response_fields rejection) || has_result rejection
      then none
      else some (record { code = c; fields = no_member })
]
decode_rejection _ rejection = none

abbrev is_known_code : ℤ → Bool
is_known_code c = ltb_ℤ c (pos 0) || eq_ℤ c (pos 100) || eq_ℤ c (pos 101)

-- What an object in `data` is refused for.
abbrev pub bad_data : Members → ℤ → Bool
bad_data ms c =
    not (valid_response_fields ms) || not (is_known_code c) || (ltb_ℤ c (pos 0) && has_result ms)

-- An answer: `errors` is an empty array, `data` an object.
unfoldable pub decode_data : Json → Option ProviderResponse
unfolding response_code valid_response_fields
decode_data (object ms) = elim (response_code ms) [
  | none ↦ none
  | some c ↦ if bad_data ms c then none else some (record { code = c; fields = ms })
]
decode_data _ = none

unfoldable pub decode_envelope : Json → Json → Option ProviderResponse
unfolding decode_rejection decode_data
decode_envelope data_ (object rejection) = decode_rejection data_ rejection
decode_envelope data_ (array no_item) = decode_data data_
decode_envelope data_ (array (item v is)) = none
decode_envelope data_ null = none
decode_envelope data_ (boolean b) = none
decode_envelope data_ (number n) = none
decode_envelope data_ (string s) = none

abbrev pub envelope_of : Json → Option ProviderResponse
envelope_of (object ms) = elim (member_of (codes "data") ms) [
  | none ↦ none
  | some d ↦ elim (member_of (codes "errors") ms) [ none ↦ none | some e ↦ decode_envelope d e ]
]
envelope_of _ = none

abbrev pub is_whole : List Token → Bool
is_whole [] = true
is_whole (t ∷ ts) = false

-- `decodeProviderResponse`.
unfoldable pub decode_provider_response : (Text → Text) → Body → Option ProviderResponse
unfolding decode_unique_json member_of decode_envelope
decode_provider_response lower b =
    if not b.is_utf8 then none else elim (decode_unique_json lower b.token_list) [
      | err e ↦ none
      | ok r ↦ if is_whole r.1 && b.clean_end then envelope_of r.0 else none
    ]

abbrev pub is_redirection : ℕ → Bool
is_redirection n = leb 300 n && ltb n 400

abbrev pub is_success : ℕ → Bool
is_success n = leb 200 n && ltb n 300

-- `post`.
unfoldable pub post : ZarinPalClient → Payload → Option ProviderResponse
unfolding decode_provider_response
post z payload = elim (z.exchange payload) [
  | none ↦ none
  | some h ↦
      if ltb 1048576 h.body.size then none else elim (decode_provider_response z.lower h.body) [
        | none ↦ none
        | some r ↦
            if is_redirection h.status_code
              || (not (is_success h.status_code) && leb_ℤ (pos 0) r.code)
            then none
            else some r
      ]
]

abbrev start_pay_url : Bool → Text
start_pay_url true = codes "https://sandbox.zarinpal.com/pg/StartPay/"
start_pay_url false = codes "https://www.zarinpal.com/pg/StartPay/"

unfoldable pub request_answer :
    ZarinPalClient → Option ProviderResponse → Result ClientError RequestPaymentOutput
unfolding required_string
request_answer z none = err ClientError.unavailable
request_answer z (some r) =
    if ltb_ℤ r.code (pos 0)
    then err (ClientError.rejected r.code)
    else elim (required_string r.fields (codes "authority")) [
      | none ↦ err ClientError.unavailable
      | some t ↦
          if not (eq_ℤ r.code (pos 100)) || not (valid_authority t)
          then err ClientError.unavailable
          else ok
              (record { authority = t; redirect_url = start_pay_url z.sandbox ++ t; code = r.code })
    ]

-- `RequestPayment`.
unfoldable pub request_payment :
    ZarinPalClient → RequestPaymentInput → Result ClientError RequestPaymentOutput
unfolding post request_answer
request_payment z i =
    if ltb_ℤ i.amount (pos 10000)
    then err ClientError.unavailable
    else request_answer z (post z (request_body z.merchant_id i))

unfoldable pub verify_answer : Option ProviderResponse → Result ClientError VerifyPaymentOutput
unfolding required_integer
verify_answer none = err ClientError.unavailable
verify_answer (some r) =
    if ltb_ℤ r.code (pos 0)
    then ok (record { code = r.code; ref_id = pos 0 })
    else elim (required_integer r.fields (codes "ref_id")) [
      | none ↦ err ClientError.unavailable
      | some ref ↦
          if leb_ℤ ref (pos 0) || (not (eq_ℤ r.code (pos 100)) && not (eq_ℤ r.code (pos 101)))
          then err ClientError.unavailable
          else ok (record { code = r.code; ref_id = ref })
    ]

-- `VerifyPayment`.
unfoldable pub verify_payment :
    ZarinPalClient → VerifyPaymentInput → Result ClientError VerifyPaymentOutput
unfolding post verify_answer
verify_payment z i =
    if ltb_ℤ i.amount (pos 10000) || not (valid_authority i.authority)
    then err ClientError.unavailable
    else verify_answer (post z (verify_body z.merchant_id i))

-- The client that the handlers take.
abbrev pub client_of : ZarinPalClient → Client
client_of z = record { request_payment = request_payment z; verify_payment = verify_payment z }
