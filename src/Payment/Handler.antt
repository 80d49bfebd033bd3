-- ===== src/Payment/Handler.antt =====
-- The payment handlers and the task that expires abandoned attempts
-- (backend/internal/payment/handler.go, maintenance.go). A handler consists of several transactions,
-- and what one of them has committed stays when a later one fails.
pub mod Outcomes
pub mod Requests
pub mod Checks
use plant_shop.Payment.Model.{
  Attempt, AttemptStatus, irr, is_pending, is_failed, is_paid, valid_authority,
}
use plant_shop.Payment.Errors.{Error}
use plant_shop.Payment.Repository.{
  matches_provider, create_attempt_for_order, set_authority, mark_attempt_failed,
  get_attempt_by_authority, expire_rejected,
}
use plant_shop.Payment.Settlement.{VerifyResult, finalize_verified_payment, finalize_failed_payment}
use plant_shop.Payment.Reconciliation.{
  Reconciliation, Reason, LastOutcome, get_reconciliation, is_reconciliation,
}
use plant_shop.Payment.Gateway.{
  Gateway, Client, ClientError, RequestPaymentInput, RequestPaymentOutput, VerifyPaymentInput,
  VerifyPaymentOutput,
}
use plant_shop.Notification.Model.{decimal}
use plant_shop.Http.{path_id}
use plant_shop.Store.{Store, Env}
use plant_shop.Base.{
  ℕ, zero, suc, ◌+◌, ◌-◌, ◌*◌, ◌/◌, ◌%◌, ◌^◌, ◌≤◌, ◌<◌, min, ◌≡◌, refl, sym, ap, ◌∙◌, ◌≢◌, ◌↔◌, ◌⊎◌,
  inl, inr, Bool, true, false, not, ◌&&◌, ◌||◌, Option, none, some, List, [], ◌∷◌, ◌++◌, map, arith,
  ltb, leb, ◌==◌, if◌then◌else◌, ==_iff, ==_refl, Bool-cases, Option-cases, is_some, All, length,
  take, Result, ok, err, ◌>>=◌, ◌>>◌, fail_if, >>=-eq-ok, fail_if-eq-ok, Result-cases,
}
use plant_shop.Base.Sort.{sort_by}
use plant_shop.Base.Int.{
  ℤ, pos, negsuc, pos_part, neg_part, sub_ℕ, ◌≤ℤ◌, ltb_ℤ, leb_ℤ, i64, i64_pos, of_bits, ◌+ℤ◌, ◌-ℤ◌,
  ◌*ℤ◌, ◌/ℤ◌, +ℤ-pos, -ℤ-pos, *ℤ-pos, eq_ℤ, eq_of_eq_ℤ, eq_ℤ_refl,
}
use plant_shop.Base.Table.{
  exists?, count, select, select_one, update_where, sum_by, sum_by-append, count-append, find,
  modify, find_key, find-append_none, find-append_some, find-modify_self, find-modify-none,
  find-modify_ne, sum_by-modify, All-select_one, All-append, All-find, All-modify, All-select,
  count-no_row, count-modify, exists?-append, select_one-append_new, select_one-append_other,
  select_one-modify_other,
}
use plant_shop.Text.{
  Text, codes, byte_len, text_eq, is_empty, trim_space, parse_int, text_eq_refl, eq_of_text_eq,
  text_eq_iff,
}

-- The answer to a request for a payment: where the browser goes, or an error status.
pub data RequestReply : Type 0 where
  redirect : Text → RequestReply
  http_error : ℕ → RequestReply

unfoldable pub status_of : Error → ℕ
status_of Error.order_not_found = 404
status_of Error.order_already_paid = 409
status_of Error.order_not_payable = 409
status_of Error.payment_in_progress = 409
status_of Error.provider_mismatch = 500
status_of Error.invalid_authority = 500
status_of Error.invalid_verification = 500
status_of Error.attempt_not_found = 500
status_of Error.already_processed = 500
status_of (Error.db e) = 500

-- The store after a transaction whose error is only logged.
abbrev pub or_keep : Store → Result Error Store → Store
or_keep s (ok t) = t
or_keep s (err e) = s

abbrev code_of : ClientError → Option ℤ
code_of (ClientError.rejected c) = some c
code_of ClientError.unavailable = none

-- `out.Code != codeSuccess || len(out.Authority) > 64 || !validAuthority(out.Authority) || ...`.
abbrev pub is_bad_output : RequestPaymentOutput → Bool
is_bad_output out =
    not (eq_ℤ out.code (pos 100))
    || ltb 64 (byte_len out.authority)
    || not (valid_authority out.authority)
    || is_empty out.redirect_url

-- What follows the gateway's answer for a new attempt.
unfoldable pub accept_output :
    Env → ℕ → Store → Result ClientError RequestPaymentOutput → RequestReply × Store
accept_output env id s (err e) =
    (RequestReply.http_error 503, or_keep s (mark_attempt_failed env id (code_of e) s))
accept_output env id s (ok out) =
    if is_bad_output out
    then (RequestReply.http_error 503, or_keep s (mark_attempt_failed env id none s))
    else elim (set_authority env id out.authority s) [
      | err e ↦ (RequestReply.http_error 500, s)
      | ok t ↦ (RequestReply.redirect out.redirect_url, t)
    ]

abbrev pub payment_of : Gateway → Attempt → RequestPaymentInput
payment_of g a = record {
  amount = a.amount;
  description = codes "Order #" ++ decimal a.order_id;
  callback_url = g.callback_url;
}

-- `RequestZarinPal`; `none` is a caller that is not authenticated.
unfoldable pub request_zarin_pal : Gateway → Env → Option ℕ → Text → Store → RequestReply × Store
unfolding accept_output status_of
request_zarin_pal g env caller raw s = elim g.client [
  | none ↦ (RequestReply.http_error 503, s)
  | some c ↦ elim caller [
    | none ↦ (RequestReply.http_error 401, s)
    | some user ↦ elim (path_id raw) [
      | none ↦ (RequestReply.http_error 400, s)
      | some id ↦ elim (create_attempt_for_order env user id s) [
        | err e ↦ (RequestReply.http_error (status_of e), s)
        | ok r ↦ accept_output env r.0.id r.1 (c.request_payment (payment_of g r.0))
      ]
    ]
  ]
]

-- What the browser is told of a payment, with the order, or 0.
pub data BrowserOutcome : Type 0 where
  unknown success cancelled : BrowserOutcome

-- `verifyErr == nil && (Code == codeSuccess || Code == codeAlreadyVerified) && RefID > 0`.
abbrev pub is_verified : Result ClientError VerifyPaymentOutput → Bool
is_verified (err e) = false
is_verified (ok out) =
    (eq_ℤ out.code (pos 100) || eq_ℤ out.code (pos 101)) && ltb_ℤ (pos 0) out.ref_id

abbrev pub negative_code : Result ClientError VerifyPaymentOutput → Option ℤ
negative_code (err e) = none
negative_code (ok out) = if ltb_ℤ out.code (pos 0) then some out.code else none

abbrev outcome_if_paid : VerifyResult → BrowserOutcome
outcome_if_paid v =
    if is_paid v.final_status then BrowserOutcome.success else BrowserOutcome.unknown

-- The end of the callback, where the answer to the verification is no success.
unfoldable pub callback_failed : Env → Text → ℕ → Option ℤ → Store → (ℕ × BrowserOutcome) × Store
callback_failed env authority id code s = elim (finalize_failed_payment env authority code s) [
  | err e ↦ ((id, BrowserOutcome.unknown), s)
  | ok r ↦ ((id, outcome_if_paid r.0), r.1)
]

-- The end of the callback, where it is one.
unfoldable pub callback_verified : Env → Text → ℕ → ℤ → ℤ → Store → (ℕ × BrowserOutcome) × Store
callback_verified env authority id ref code s =
    elim (finalize_verified_payment env authority ref code s) [
      | err e ↦ ((id, BrowserOutcome.unknown), s)
      | ok r ↦ ((r.0.order_id, outcome_if_paid r.0), r.1)
    ]

unfoldable pub callback_answered :
    Env → Text → ℕ → Result ClientError VerifyPaymentOutput → Store → (ℕ × BrowserOutcome) × Store
unfolding callback_failed callback_verified
callback_answered env authority id (err e) s = callback_failed env authority id none s
callback_answered env authority id (ok out) s =
    if is_verified (ok out)
    then callback_verified env authority id out.ref_id out.code s
    else callback_failed env authority id (negative_code (ok out)) s

-- `Callback`, with the two values of the query.
unfoldable pub callback : Gateway → Env → Text → Text → Store → (ℕ × BrowserOutcome) × Store
unfolding callback_answered
callback g env authority status s =
    if is_empty authority
    then ((0, BrowserOutcome.unknown), s)
    else elim (get_attempt_by_authority authority s) [
      | none ↦ ((0, BrowserOutcome.unknown), s)
      | some a ↦
          if is_paid a.status then ((a.order_id, BrowserOutcome.success), s) else elim g.client [
            | none ↦ ((a.order_id, BrowserOutcome.unknown), s)
            | some c ↦
                if not (matches_provider env a)
                  || not (text_eq a.currency irr)
                  || is_reconciliation a.status
                then ((a.order_id, BrowserOutcome.unknown), s)
                else if not (text_eq status (codes "OK"))
                then ((a.order_id, BrowserOutcome.cancelled), s)
                else callback_answered env authority a.order_id
                    (c.verify_payment (record { authority = authority; amount = a.amount })) s
          ]
    ]

-- `reconciliationAvailability`.
unfoldable pub reconciliation_availability : Gateway → Reconciliation → Reconciliation
reconciliation_availability g item =
    if not (is_some g.client) && item.retryable
    then record item { retryable = false; reason = Reason.payments_disabled }
    else item

-- The code of an answer that is no success.
abbrev pub rejection_code : Result ClientError VerifyPaymentOutput → Option ℤ
rejection_code (ok out) = if ltb_ℤ out.code (pos 0) then some out.code else none
rejection_code (err (ClientError.rejected c)) = if ltb_ℤ c (pos 0) then some c else none
rejection_code (err ClientError.unavailable) = none

unfoldable pub settle_answer :
    Env
    → Text
    → Result ClientError VerifyPaymentOutput
    → Store
    → Result Error (VerifyResult × Store)
settle_answer env authority (err e) s =
    finalize_failed_payment env authority (rejection_code (err e)) s
settle_answer env authority (ok out) s =
    if is_verified (ok out)
    then finalize_verified_payment env authority out.ref_id out.code s
    else finalize_failed_payment env authority (rejection_code (ok out)) s

-- The second half of `ReconcilePayment`, where the attempt may be verified.
unfoldable pub verify_again :
    Gateway → Env → Client → ℕ → Attempt → Text → Store → Result Error Reconciliation × Store
unfolding settle_answer reconciliation_availability
verify_again g env c id a authority s =
    elim (settle_answer env authority
      (c.verify_payment (record { authority = authority; amount = a.amount })) s) [
        | err e ↦ (err e, s)
        | ok r ↦ elim (get_reconciliation env id r.1) [
          | err e ↦ (err e, r.1)
          | ok item ↦ (ok (reconciliation_availability g item), r.1)
        ]
      ]

-- What follows the lookup. A retryable item has a client and an authority.
unfoldable pub check_item :
    Gateway → Env → ℕ → Reconciliation → Store → Result Error Reconciliation × Store
unfolding verify_again
check_item g env id item s =
    if not item.retryable
    then (
      ok (
          if is_paid item.attempt.status
          then record item { last_outcome = LastOutcome.already_settled }
          else item),
      s,
    )
    else elim g.client [
      | none ↦ (ok item, s)
      | some c ↦ elim item.attempt.authority [
        | none ↦ (ok item, s)
        | some t ↦ verify_again g env c id item.attempt t s
      ]
    ]

-- `ReconcilePayment`.
unfoldable pub reconcile_payment : Gateway → Env → ℕ → Store → Result Error Reconciliation × Store
unfolding check_item
reconcile_payment g env id s = elim (get_reconciliation env id s) [
  | err e ↦ (err e, s)
  | ok found ↦ check_item g env id (reconciliation_availability g found) s
]

abbrev pub is_rejected : Reconciliation → Bool
is_rejected item =
    (is_pending item.attempt.status || is_failed item.attempt.status)
    && elim item.last_outcome [ LastOutcome.definitive_rejection ↦ true | _ ↦ false ]
    && elim item.attempt.provider_code [ none ↦ false | some c ↦ eq_ℤ c (negsuc 50) ]

-- An attempt without an authority is failed; one with an authority is checked with the gateway first.
unfoldable pub expire_attempt : Gateway → Env → ℕ → ℕ → Reconciliation → Store → Store
unfolding reconcile_payment
expire_attempt g env cutoff id item s = elim item.attempt.authority [
  | none ↦
      if is_pending item.attempt.status then or_keep s (mark_attempt_failed env id none s) else s
  | some t ↦
      if not (is_some g.client) || not item.retryable
      then s
      else let (checked, u) = reconcile_payment g env id s in
        elim checked [
          | err e ↦ u
          | ok after ↦ if is_rejected after then or_keep u (expire_rejected env id cutoff u) else u
        ]
]

-- The loop of `ExpireAbandoned`; an error ends it and keeps what is done.
unfoldable pub expire_each : Gateway → Env → ℕ → List Attempt → Store → Store
unfolding expire_attempt
expire_each g env cutoff [] s = s
expire_each g env cutoff (a ∷ rest) s = elim (get_reconciliation env a.id s) [
  | err e ↦ s
  | ok item ↦ expire_each g env cutoff rest (expire_attempt g env cutoff a.id item s)
]

-- `WHERE (status='pending' OR (status='failed' AND authority IS NOT NULL)) AND created_at<$1 AND ...`.
abbrev pub is_abandoned : Env → ℕ → Attempt → Bool
is_abandoned env cutoff a =
    (is_pending a.status || (is_failed a.status && is_some a.authority))
    && ltb a.created_at cutoff
    && text_eq a.environment env.environment
    && text_eq a.account_key env.identity

-- `ExpireAbandoned`. The column `updated_at` is not kept, so the order by it is a parameter.
unfoldable pub expire_abandoned : Gateway → Env → (Attempt → Attempt → Bool) → ℕ → Store → Store
unfolding expire_each
expire_abandoned g env is_earlier cutoff s =
    expire_each g env cutoff
      (take 20 (sort_by is_earlier (select (is_abandoned env cutoff) s.attempts))) s
