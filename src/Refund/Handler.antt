-- ===== src/Refund/Handler.antt =====
-- The refund actions of an administrator (backend/internal/refund/handler.go, provider.go). An action
-- consists of several transactions, and an error keeps those that are committed.
pub mod Exclusive
use plant_shop.Order.Model.{Order, PaymentMethod}
use plant_shop.Returns.Model.{ReturnRequest, ReturnStatus}
use plant_shop.Returns.Repository.{find_return}
use plant_shop.Refund.Model.{Refund, RefundStatus, is_pending, is_succeeded}
use plant_shop.Refund.Repository.{Error, Json, find_refund, refund_of, update_status, create}
use plant_shop.Http.{Access, path_id}
use plant_shop.Store.{Store, Env, find_order}
use plant_shop.Base.{
  ℕ, zero, suc, ◌+◌, ◌-◌, ◌*◌, ◌/◌, ◌%◌, ◌^◌, ◌≤◌, ◌<◌, min, ◌≡◌, refl, sym, ap, ◌∙◌, ◌≢◌, ◌↔◌, ◌⊎◌,
  inl, inr, Bool, true, false, not, ◌&&◌, ◌||◌, Option, none, some, List, [], ◌∷◌, ◌++◌, map, arith,
  ltb, leb, ◌==◌, if◌then◌else◌, ==_iff, ==_refl, Bool-cases, Option-cases, is_some, All, length,
  take, Result, ok, err, ◌>>=◌, ◌>>◌, fail_if, >>=-eq-ok, fail_if-eq-ok, Result-cases,
}
use plant_shop.Base.Int.{
  ℤ, pos, negsuc, pos_part, neg_part, sub_ℕ, ◌≤ℤ◌, ltb_ℤ, leb_ℤ, i64, i64_pos, of_bits, ◌+ℤ◌, ◌-ℤ◌,
  ◌*ℤ◌, ◌/ℤ◌, +ℤ-pos, -ℤ-pos, *ℤ-pos, eq_ℤ, eq_of_eq_ℤ, eq_ℤ_refl,
}
use plant_shop.Base.Table.{
  exists?, count, select, select_one, update_where, sum_by, sum_by-append, count-append, find,
  modify, find_key, find-append_none, find-append_some, find-modify_self, find-modify-none,
  find-modify_ne, sum_by-modify, All-select_one, All-append, All-find, All-modify, All-select,
  count-no_row, count-modify, exists?-append, select_one-append_new, select_one-append_other,
  select_one-modify_other,
}
use plant_shop.Text.{
  Text, codes, byte_len, text_eq, is_empty, trim_space, parse_int, text_eq_refl, eq_of_text_eq,
  text_eq_iff,
}

-- What is answered: a refund, a conflict that shows the current refund, or an error status.
pub data Reply : Type 0 where
  refund_reply conflict_reply : Refund → Reply
  error_reply : ℕ → Reply

-- `RefundInput` and `RefundResult`.
pub record RefundInput : Type 0 where
  pub order_id : ℕ
  pub amount : ℤ
  pub payment_method : PaymentMethod
  pub provider_refund_id : Option Text

pub record RefundResult : Type 0 where
  pub success : Bool
  pub provider_refund_id : Option Text
  pub error_message : Text

-- `RefundProvider`: its result, with an error if it returns one, and `json.Marshal` of a result.
pub record Provider : Type 0 where
  pub refund : RefundInput → RefundResult × Option Text
  pub marshal : RefundResult → Text

-- `ZarinPalRefundProvider.Refund`.
unfoldable pub zarinpal_refund : RefundInput → RefundResult × Option Text
zarinpal_refund i = (
  record {
    success = false;
    provider_refund_id = none;
    error_message = codes "ZarinPal does not provide a refund API. Manual review required.";
  },
  none,
)

-- `refundEligibleReturnStatuses`.
unfoldable pub is_refundable : ReturnStatus → Bool
is_refundable ReturnStatus.received = true
is_refundable ReturnStatus.refund_pending = true
is_refundable _ = false

-- `loadRefundableReturn`: the request and its refund, or the status of the error.
unfoldable pub load_refundable_return : ℕ → Store → Result ℕ (ReturnRequest × Refund)
load_refundable_return id s = elim (find_return id s.returns) [
  | none ↦ err 404
  | some r ↦
      if not (is_refundable r.status)
      then err 409
      else elim (select_one (refund_of r.order_id) s.refunds) [
        | none ↦ err 404
        | some f ↦ ok (r, f)
      ]
]

-- The status that an error of `UpdateStatus` is answered with.
unfoldable pub code_of : Error → ℕ
code_of Error.refund_invalid_transition = 409
code_of _ = 500

-- The refund that a successful `UpdateStatus` returns.
unfoldable pub reply_refund : ℕ → Store → Reply
reply_refund id s = elim (find_refund id s.refunds) [
  | none ↦ error_reply 500
  | some f ↦ refund_reply f
]

-- The last step of both actions: to succeeded.
unfoldable pub succeed : Env → Json → ℕ → Option Text → Text → (Error → ℕ) → Store → Reply × Store
unfolding reply_refund
succeed env json id provider_id raw code s =
    elim (update_status env json id RefundStatus.succeeded provider_id raw none s) [
      | err e ↦ (error_reply (code e), s)
      | ok t ↦ (reply_refund id t, t)
    ]

unfoldable pub is_manual : PaymentMethod → Bool
is_manual PaymentMethod.manual = true
is_manual _ = false

-- `AdminManualRefund` behind the loading.
unfoldable pub confirm_manually : Env → Json → Refund → Store → Reply × Store
unfolding is_manual succeed code_of
confirm_manually env json f s =
    if not (is_manual f.payment_method)
    then (error_reply 400, s)
    else if is_succeeded f.status
    then (refund_reply f, s)
    else if is_pending f.status
    then elim (update_status env json f.id RefundStatus.processing none [] none s) [
      | err e ↦ (error_reply (code_of e), s)
      | ok t ↦ succeed env json f.id none [] code_of t
    ]
    else succeed env json f.id none [] code_of s

-- `AdminManualRefund`.
unfoldable pub admin_manual_refund : Env → Json → Access → Text → Store → Reply × Store
admin_manual_refund env json Access.forbidden raw s = (error_reply 403, s)
admin_manual_refund env json Access.unauthorized raw s = (error_reply 401, s)
admin_manual_refund env json (Access.admin a) raw s = elim (path_id raw) [
  | none ↦ (error_reply 400, s)
  | some id ↦ elim (load_refundable_return id s) [
    | err c ↦ (error_reply c, s)
    | ok (r, f) ↦ confirm_manually env json f s
  ]
]

-- The store after a step whose error is ignored.
abbrev pub or_keep : Store → Result Error Store → Store
or_keep s (ok t) = t
or_keep s (err e) = s

-- To manual review, for every result that is not a success.
abbrev pub review : Env → Json → ℕ → Text → Option Text → Store → Reply × Store
review env json id raw last s = (
  error_reply 409,
  or_keep s (update_status env json id RefundStatus.manual_review none raw last s),
)

-- `lastErr`: the result's message, or else the error.
abbrev pub last_error_of : RefundResult → Text → Text
last_error_of r e = if is_empty r.error_message then e else r.error_message

-- `AdminRefund` behind the call of the provider.
unfoldable pub settle_refund :
    Env → Json → Provider → ℕ → RefundResult × Option Text → Store → Reply × Store
unfolding succeed
settle_refund env json provider id (r, some e) s =
    review env json id (provider.marshal r) (some (last_error_of r e)) s
settle_refund env json provider id (r, none) s =
    if not r.success && not (is_empty r.error_message)
    then review env json id (provider.marshal r) (some r.error_message) s
    else if not r.success
    then review env json id (provider.marshal r) none s
    else succeed env json id r.provider_refund_id (provider.marshal r) (λ e. 500) s

abbrev pub input_of : ReturnRequest → Refund → Order → RefundInput
input_of r f o = record {
  order_id = r.order_id;
  amount = o.total;
  payment_method = f.payment_method;
  provider_refund_id = f.provider_refund_id;
}

-- The answer to a refused claim: the current refund if the transition was refused.
unfoldable pub refused : ℕ → Error → Store → Reply
refused id Error.refund_invalid_transition s = elim (find_refund id s.refunds) [
  | none ↦ error_reply 409
  | some f ↦ conflict_reply f
]
refused id _ s = error_reply 500

-- What an action answers, the store after it, and its calls of the provider.
pub record Outcome : Type 0 where
  pub reply : Reply
  pub store : Store
  pub calls : List RefundInput

abbrev pub no_call : Reply × Store → Outcome
no_call r = record { reply = r.0; store = r.1; calls = [] }

-- `AdminRefund` behind the claim of the refund.
unfoldable pub call_provider : Env → Json → Provider → ReturnRequest → Refund → Store → Outcome
unfolding settle_refund
call_provider env json provider r f s = elim (find_order r.order_id s.orders) [
  | none ↦ no_call (error_reply 500, s)
  | some o ↦
      let i = input_of r f o in
      let a = settle_refund env json provider f.id (provider.refund i) s in
      record { reply = a.0; store = a.1; calls = i ∷ [] }
]

-- `AdminRefund` behind the loading.
unfoldable pub refund_through : Env → Json → Provider → ReturnRequest → Refund → Store → Outcome
unfolding is_manual refused
refund_through env json provider r f s =
    if is_manual f.payment_method
    then no_call (error_reply 400, s)
    else if is_succeeded f.status
    then no_call (refund_reply f, s)
    else elim (update_status env json f.id RefundStatus.processing none [] none s) [
      | err e ↦ no_call (refused f.id e s, s)
      | ok t ↦ call_provider env json provider r f t
    ]

-- `AdminRefund`.
unfoldable pub admin_refund : Env → Json → Provider → Access → Text → Store → Outcome
admin_refund env json provider Access.forbidden raw s = no_call (error_reply 403, s)
admin_refund env json provider Access.unauthorized raw s = no_call (error_reply 401, s)
admin_refund env json provider (Access.admin a) raw s = elim (path_id raw) [
  | none ↦ no_call (error_reply 400, s)
  | some id ↦ elim (load_refundable_return id s) [
    | err c ↦ no_call (error_reply c, s)
    | ok (r, f) ↦ refund_through env json provider r f s
  ]
]

-- The statuses that `AdminCreate` answers with.
unfoldable pub create_code : Error → ℕ
create_code Error.refund_not_found = 404
create_code Error.refund_already_refunded = 409
create_code Error.refund_not_eligible = 409
create_code _ = 500

-- `AdminCreate`, with a body that decodes.
unfoldable pub admin_create : Access → Text → Store → Reply × Store
unfolding create_code
admin_create Access.forbidden raw s = (error_reply 403, s)
admin_create Access.unauthorized raw s = (error_reply 401, s)
admin_create (Access.admin a) raw s = elim (path_id raw) [
  | none ↦ (error_reply 400, s)
  | some id ↦ elim (find_order id s.orders) [
    | none ↦ (error_reply 500, s)
    | some o ↦ elim (create id none (pos 0) o.payment_method (some a) s) [
      | err e ↦ (error_reply (create_code e), s)
      | ok (f, t) ↦ (refund_reply f, t)
    ]
  ]
]
