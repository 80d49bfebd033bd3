-- ===== src/Payment/Zarinpal/Answers.antt =====
-- What an answer of the client means of the gateway's response.
use plant_shop.Payment.Model.{valid_authority}
use plant_shop.Payment.Json.{
  Token, Json, Members, decode_unique_json, null, boolean, number, string, array, object, no_item,
  item, no_member,
}
use plant_shop.Payment.Gateway.{ClientError, VerifyPaymentInput}
use plant_shop.Payment.Handler.{is_verified}
use plant_shop.Payment.Zarinpal.{
  Body, HttpResponse, Payload, ZarinPalClient, member_of, required_integer, response_code,
  valid_response_fields, ProviderResponse, decode_rejection, has_result, bad_data, decode_data,
  decode_envelope, envelope_of, is_whole, decode_provider_response, is_redirection, is_success,
  post, verify_answer, verify_payment, verify_body,
}
use plant_shop.Base.{
  ◌≤◌, ◌≡◌, refl, sym, ap, ◌∙◌, inl, inr, Bool, true, false, not, ◌&&◌, ◌||◌, Option, none, some,
  List, [], ◌∷◌, arith, ltb, Bool-cases, Option-cases, ok, err, Result-cases,
}
use plant_shop.Base.Int.{ℤ, pos, negsuc, ltb_ℤ, leb_ℤ, eq_ℤ}
use plant_shop.Text.{Text, codes}

-- A response that carries data: one object with `data` and an empty `errors`, and nothing behind it.
pub record CarriesData (lower : Text → Text) (b : Body) (ms : Members) : Type 0 where
  pub top : Members
  pub decoded : decode_unique_json lower b.token_list ≡ ok (object top, [])
  pub ended : b.clean_end ≡ true
  pub data_member : member_of (codes "data") top ≡ some (object ms)
  pub no_errors : member_of (codes "errors") top ≡ some (array no_item)

first_false : (a b c : Bool) → a || b || c ≡ false → a ≡ false
first_false a b c h = ground arith

decode_rejection-code :
    (d : Json) (ms : Members) (r : ProviderResponse)
    → decode_rejection d ms ≡ some r
    → leb_ℤ (pos 0) r.code ≡ false
unfolding decode_rejection
decode_rejection-code (array no_item) ms r h = elim (Option-cases (response_code ms)) [
  | inl n ↦
      let no : decode_rejection (array no_item) ms ≡ none = rw (decode_rejection, n) refl in cc
  | inr (c, n) ↦
      elim (Bool-cases (leb_ℤ (pos 0) c || not (valid_response_fields ms) || has_result ms)) [
        | inl b ↦
            let no : decode_rejection (array no_item) ms ≡ none =
              rw (decode_rejection, n, b) refl in
            cc
        | inr b ↦
            let made : decode_rejection (array no_item) ms
                ≡ some (record { code = c; fields = no_member }) =
              rw (decode_rejection, n, b) refl in
            let same : some r ≡ some (record { code = c; fields = no_member }) = sym h ∙ made in
            let code : r.code ≡ c = cc in
            let neg =
              first_false (leb_ℤ (pos 0) c) (not (valid_response_fields ms)) (has_result ms) b in
            ap (leb_ℤ (pos 0)) code ∙ neg
      ]
]
decode_rejection-code (array (item v is)) ms r h = cc
decode_rejection-code null ms r h = cc
decode_rejection-code (boolean b) ms r h = cc
decode_rejection-code (number n) ms r h = cc
decode_rejection-code (string s) ms r h = cc
decode_rejection-code (object ns) ms r h = cc

decode_data-fields :
    (d : Json) (r : ProviderResponse) → decode_data d ≡ some r → d ≡ object r.fields
unfolding decode_data
decode_data-fields (object ms) r h = elim (Option-cases (response_code ms)) [
  | inl n ↦ let no : decode_data (object ms) ≡ none = rw (decode_data, n) refl in cc
  | inr (c, n) ↦ elim (Bool-cases (bad_data ms c)) [
    | inl b ↦ let no : decode_data (object ms) ≡ none = rw (decode_data, n, b) refl in cc
    | inr b ↦
        let made : decode_data (object ms) ≡ some (record { code = c; fields = ms }) =
          rw (decode_data, n, b) refl in
        let same : some r ≡ some (record { code = c; fields = ms }) = sym h ∙ made in
        let fields : r.fields ≡ ms = cc in ap object (sym fields)
  ]
]
decode_data-fields null r h = cc
decode_data-fields (boolean b) r h = cc
decode_data-fields (number n) r h = cc
decode_data-fields (string s) r h = cc
decode_data-fields (array is) r h = cc

decode_envelope-data :
    (d e : Json) (r : ProviderResponse)
    → decode_envelope d e ≡ some r
    → leb_ℤ (pos 0) r.code ≡ true
    → (d ≡ object r.fields) × (e ≡ array no_item)
unfolding decode_envelope
decode_envelope-data d (object ms) r h c = let no = decode_rejection-code d ms r h in cc
decode_envelope-data d (array no_item) r h c = (decode_data-fields d r h, refl)
decode_envelope-data d (array (item v is)) r h c = cc
decode_envelope-data d null r h c = cc
decode_envelope-data d (boolean b) r h c = cc
decode_envelope-data d (number n) r h c = cc
decode_envelope-data d (string s) r h c = cc

envelope_of-data :
    (v : Json) (r : ProviderResponse)
    → envelope_of v ≡ some r
    → leb_ℤ (pos 0) r.code ≡ true
    → (top : Members) × (v ≡ object top)
      × (member_of (codes "data") top ≡ some (object r.fields))
      × (member_of (codes "errors") top ≡ some (array no_item))
envelope_of-data (object top) r h c = elim (Option-cases (member_of (codes "data") top)) [
  | inl n ↦ let no : envelope_of (object top) ≡ none = rw (envelope_of, n) refl in cc
  | inr (d, n) ↦ elim (Option-cases (member_of (codes "errors") top)) [
    | inl m ↦ let no : envelope_of (object top) ≡ none = rw (envelope_of, n, m) refl in cc
    | inr (e, m) ↦
        let made : envelope_of (object top) ≡ decode_envelope d e = rw (envelope_of, n, m) refl in
        let (p, q) = decode_envelope-data d e r (sym made ∙ h) c in
        (top, refl, n ∙ ap some p, m ∙ ap some q)
  ]
]
envelope_of-data null r h c = cc
envelope_of-data (boolean b) r h c = cc
envelope_of-data (number n) r h c = cc
envelope_of-data (string s) r h c = cc
envelope_of-data (array is) r h c = cc

is_whole-none : (ts : List Token) → is_whole ts ≡ true → ts ≡ []
is_whole-none [] h = refl
is_whole-none (t ∷ ts) h = cc

both : (a b : Bool) → a && b ≡ true → (a ≡ true) × (b ≡ true)
both a b h = ground arith

decode_provider_response-CarriesData :
    (lower : Text → Text) (b : Body) (r : ProviderResponse)
    → decode_provider_response lower b ≡ some r
    → leb_ℤ (pos 0) r.code ≡ true
    → CarriesData lower b r.fields
unfolding decode_provider_response
decode_provider_response-CarriesData lower b r h c = elim (Bool-cases b.is_utf8) [
  | inr u ↦
      let no : decode_provider_response lower b ≡ none = rw (decode_provider_response, u) refl in cc
  | inl u ↦ elim (Result-cases (decode_unique_json lower b.token_list)) [
    | inr (x, e) ↦
        let no : decode_provider_response lower b ≡ none =
          rw (decode_provider_response, u, e) refl in
        cc
    | inl ((v, ts), e) ↦ elim (Bool-cases (is_whole ts && b.clean_end)) [
      | inr w ↦
          let no : decode_provider_response lower b ≡ none =
            rw (decode_provider_response, u, e, w) refl in
          cc
      | inl w ↦
          let made : decode_provider_response lower b ≡ envelope_of v =
            rw (decode_provider_response, u, e, w) refl in
          let (top, p, d, q) = envelope_of-data v r (sym made ∙ h) c in
          let (whole, end) = both (is_whole ts) b.clean_end w in
          record {
            top = top;
            decoded =
                e
                ∙ ap (λ x. ok (x, ts)) p
                ∙ ap (λ us. ok (object top, us)) (is_whole-none ts whole);
            ended = end;
            data_member = d;
            no_errors = q;
          }
    ]
  ]
]

-- A response of a successful HTTP exchange that carries data.
pub record Answered (z : ZarinPalClient) (payload : Payload) (ms : Members) : Type 0 where
  pub response : HttpResponse
  pub exchanged : z.exchange payload ≡ some response
  pub succeeded : is_success response.status_code ≡ true
  pub small : response.body.size ≤ 1048576
  pub carried : CarriesData z.lower response.body ms

second_false : (a b c : Bool) → a || (not b && c) ≡ false → c ≡ true → b ≡ true
second_false a b c h k = ground arith

post-Answered :
    (z : ZarinPalClient) (payload : Payload) (r : ProviderResponse)
    → post z payload ≡ some r
    → leb_ℤ (pos 0) r.code ≡ true
    → Answered z payload r.fields
unfolding post
post-Answered z payload r h c = elim (Option-cases (z.exchange payload)) [
  | inl n ↦ let no : post z payload ≡ none = rw (post, n) refl in cc
  | inr (w, n) ↦ elim (Bool-cases (ltb 1048576 w.body.size)) [
    | inl l ↦ let no : post z payload ≡ none = rw (post, n, l) refl in cc
    | inr l ↦ elim (Option-cases (decode_provider_response z.lower w.body)) [
      | inl d ↦ let no : post z payload ≡ none = rw (post, n, l, d) refl in cc
      | inr (q, d) ↦
          elim (Bool-cases (
            is_redirection w.status_code
            || (not (is_success w.status_code) && leb_ℤ (pos 0) q.code))) [
              | inl b ↦ let no : post z payload ≡ none = rw (post, n, l, d, b) refl in cc
              | inr b ↦
                  let made : post z payload ≡ some q = rw (post, n, l, d, b) refl in
                  let same : some q ≡ some r = sym made ∙ h in
                  let one : q ≡ r = cc in
                  record {
                    response = w;
                    exchanged = n;
                    succeeded =
                        second_false (is_redirection w.status_code) (is_success w.status_code)
                          (leb_ℤ (pos 0) q.code) b
                          (ap (λ (x : ProviderResponse). leb_ℤ (pos 0) x.code) one ∙ c);
                    small = ground arith;
                    carried =
                        decode_provider_response-CarriesData z.lower w.body r (d ∙ ap some one) c;
                  }
            ]
    ]
  ]
]

-- What a verification that counts rests on.
pub record Confirmation (z : ZarinPalClient) (i : VerifyPaymentInput) : Type 0 where
  pub fields : Members
  pub answered : Answered z (verify_body z.merchant_id i) fields
  pub ref : ℤ
  pub ref_member : required_integer fields (codes "ref_id") ≡ some ref
  pub positive : ltb_ℤ (pos 0) ref ≡ true
  pub enough : ltb_ℤ i.amount (pos 10000) ≡ false

not_negative : (n : ℤ) → ltb_ℤ n (pos 0) ≡ false → leb_ℤ (pos 0) n ≡ true
not_negative (pos n) h = ground arith
not_negative (negsuc n) h = ground arith

above_zero : (n : ℤ) → leb_ℤ n (pos 0) ≡ false → ltb_ℤ (pos 0) n ≡ true
above_zero (pos n) h = ground arith
above_zero (negsuc n) h = ground arith

and_false : (a : Bool) → a && false ≡ false
and_false true = refl
and_false false = refl

left_false : (a b : Bool) → a || b ≡ false → a ≡ false
left_false a b h = ground arith

verify_answer-data :
    (p : Option ProviderResponse)
    → is_verified (verify_answer p) ≡ true
    → (r : ProviderResponse) × (ref : ℤ) × (p ≡ some r)
      × (leb_ℤ (pos 0) r.code ≡ true)
      × (required_integer r.fields (codes "ref_id") ≡ some ref)
      × (ltb_ℤ (pos 0) ref ≡ true)
unfolding verify_answer
verify_answer-data none h = cc
verify_answer-data (some r) h = elim (Bool-cases (ltb_ℤ r.code (pos 0))) [
  | inl n ↦
      let made : verify_answer (some r) ≡ ok (record { code = r.code; ref_id = pos 0 }) =
        rw (verify_answer, n) refl in
      let no = ap is_verified made ∙ and_false (eq_ℤ r.code (pos 100) || eq_ℤ r.code (pos 101)) in
      cc
  | inr n ↦ elim (Option-cases (required_integer r.fields (codes "ref_id"))) [
    | inl m ↦
        let made : verify_answer (some r) ≡ err ClientError.unavailable =
          rw (verify_answer, n, m) refl in
        let no = ap is_verified made in cc
    | inr (ref, m) ↦
        elim (Bool-cases
          (leb_ℤ ref (pos 0) || (not (eq_ℤ r.code (pos 100)) && not (eq_ℤ r.code (pos 101))))) [
            | inl b ↦
                let made : verify_answer (some r) ≡ err ClientError.unavailable =
                  rw (verify_answer, n, m, b) refl in
                let no = ap is_verified made in cc
            | inr b ↦ (
              r,
              ref,
              refl,
              not_negative r.code n,
              m,
              above_zero ref (left_false (leb_ℤ ref (pos 0)) _ b),
            )
          ]
  ]
]

-- If the client's answer to a verification counts as a success, the amount is at least 10000 and
-- the gateway answered the request with a status of 2xx and a body of at most 2^20 bytes, which is
-- one JSON object with an empty array under errors and, under data, an object whose ref_id is a
-- positive integer.
pub verify_payment-Confirmation :
    (z : ZarinPalClient) (i : VerifyPaymentInput)
    → is_verified (verify_payment z i) ≡ true
    → Confirmation z i
unfolding verify_payment
verify_payment-Confirmation z i h =
    elim (Bool-cases (ltb_ℤ i.amount (pos 10000) || not (valid_authority i.authority))) [
      | inl b ↦
          let made : verify_payment z i ≡ err ClientError.unavailable =
            rw (verify_payment, b) refl in
          let no = ap is_verified made in cc
      | inr b ↦
          let made : verify_payment z i ≡ verify_answer (post z (verify_body z.merchant_id i)) =
            rw (verify_payment, b) refl in
          let (r, ref, p, c, m, q) =
            verify_answer-data (post z (verify_body z.merchant_id i))
              (ap is_verified (sym made) ∙ h) in
          record {
            fields = r.fields;
            answered = post-Answered z (verify_body z.merchant_id i) r p c;
            ref = ref;
            ref_member = m;
            positive = q;
            enough = left_false (ltb_ℤ i.amount (pos 10000)) _ b;
          }
    ]
