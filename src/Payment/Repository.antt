-- ===== src/Payment/Repository.antt =====
-- The transactions on payment attempts (backend/internal/payment/repository.go and maintenance.go).
use plant_shop.Order.Model.{Order, PaymentMethod, is_unpaid}
pub mod Exclusive
use plant_shop.Order.Model as OrderModel
use plant_shop.Order.Cancel.{blocks}
use plant_shop.Payment.Model.{
  Attempt, AttemptStatus, irr, provider_zarinpal, is_pending, is_failed, valid_authority,
}
use plant_shop.Payment.Errors.{Error}
use plant_shop.Store.{
  Store, Env, constraint, find_order, modify_order, find_attempt, modify_attempt,
}
use plant_shop.Base.{
  ◌>>◌, ◌>>=◌, ℕ, suc, Bool, true, false, not, ◌&&◌, ◌||◌, Option, none, some, List, [], ◌∷◌, ◌++◌,
  ltb, ◌==◌, if◌then◌else◌, is_some, Result, ok, err, fail_if,
}
use plant_shop.Base.Int.{ℤ, pos, negsuc, ltb_ℤ, eq_ℤ}
use plant_shop.Base.Table.{exists?, select_one}
use plant_shop.Text.{Text, codes, byte_len, text_eq, is_empty}

-- `matchesProvider`.
unfoldable pub matches_provider : Env → Attempt → Bool
matches_provider env a =
    if not (text_eq a.provider provider_zarinpal)
      || not (text_eq a.environment env.environment)
      || text_eq a.environment (codes "legacy")
      || is_empty a.environment
    then false
    else if text_eq env.environment (codes "test")
        && text_eq env.identity (codes "test")
        && is_empty a.account_key
    then true
    else not (is_empty env.identity) && text_eq a.account_key env.identity

-- `lockPaymentAttempt`: the attempt and its order.
unfoldable pub lock_payment_attempt : ℕ → Store → Result Error (Order × Attempt)
lock_payment_attempt id s = elim (find_attempt id s.attempts) [
  | none ↦ err Error.attempt_not_found
  | some a ↦ elim (find_order a.order_id s.orders) [
    | none ↦ err Error.order_not_found
    | some o ↦ ok (o, a)
  ]
]

abbrev pub has_authority : Text → Attempt → Bool
has_authority authority a = elim a.authority [ none ↦ false | some t ↦ text_eq t authority ]

-- `GetAttemptByAuthority`; authority is UNIQUE.
unfoldable pub get_attempt_by_authority : Text → Store → Option Attempt
get_attempt_by_authority authority s = select_one (has_authority authority) s.attempts

-- `lockPaymentAuthority`.
unfoldable pub lock_payment_authority : Text → Store → Result Error (Order × Attempt)
lock_payment_authority authority s = elim (get_attempt_by_authority authority s) [
  | none ↦ err Error.attempt_not_found
  | some a ↦ lock_payment_attempt a.id s
]

-- The row that `CreateAttemptForOrder` inserts.
unfoldable pub new_attempt : Env → ℕ → Order → Attempt
new_attempt env id o = record {
  id = id;
  order_id = o.id;
  provider = provider_zarinpal;
  currency = irr;
  environment = env.environment;
  account_key = env.identity;
  authority = none;
  amount = o.total;
  status = AttemptStatus.pending;
  ref_id = none;
  provider_code = none;
  created_at = env.now;
  verified_at = none;
}

abbrev pub set_zarinpal : Order → Order
set_zarinpal o = record o { payment_method = PaymentMethod.zarinpal }

-- `o.Status != "pending" || payment_status not pending or failed || total < 10000 || currency`.
abbrev pub not_payable : Order → Bool
not_payable o =
    not (OrderModel.is_pending o.status)
    || not (is_unpaid o.payment_status)
    || ltb_ℤ o.total (pos 10000)
    || not (text_eq o.currency irr)

-- The checks of `CreateAttemptForOrder` on the locked order, in their order.
unfoldable pub check_payable : Env → ℕ → Order → List Attempt → Option Error
check_payable env user o attempts =
    if not (o.user_id == user)
    then some Error.order_not_found
    else if OrderModel.is_paid o.payment_status
    then some Error.order_already_paid
    else if not_payable o
    then some Error.order_not_payable
    else if not (matches_provider env (new_attempt env 0 o))
    then some Error.provider_mismatch
    else if exists? (blocks o.id) attempts
    then some Error.payment_in_progress
    else none

-- `CreateAttemptForOrder`.
unfoldable pub create_attempt_for_order : Env → ℕ → ℕ → Store → Result Error (Attempt × Store)
create_attempt_for_order env user id s = elim (find_order id s.orders) [
  | none ↦ err Error.order_not_found
  | some o ↦ elim (check_payable env user o s.attempts) [
    | some e ↦ err e
    | none ↦
        let a : Attempt = new_attempt env s.next_attempt o in
        ok (
          a,
          record s {
            attempts = s.attempts ++ a ∷ [];
            orders = modify_order id set_zarinpal s.orders;
            next_attempt = suc s.next_attempt;
          },
        )
  ]
]

abbrev pub set_authority_to : Text → Attempt → Attempt
set_authority_to authority a = record a { authority = some authority }

-- `status = 'pending' AND (authority IS NULL OR authority = $1)`.
abbrev pub can_set : Text → Attempt → Bool
can_set authority a =
    is_pending a.status && (not (is_some a.authority) || has_authority authority a)

-- `SetAuthority`.
unfoldable pub set_authority : Env → ℕ → Text → Store → Result Error Store
set_authority env id authority s = do
  fail_if (ltb 64 (byte_len authority) || not (valid_authority authority)) Error.invalid_authority
  oa ← lock_payment_attempt id s
  fail_if (not (matches_provider env oa.1)) Error.provider_mismatch
  fail_if (not (can_set authority oa.1)) Error.already_processed
  fail_if (exists? (λ (a : Attempt). not (a.id == id) && has_authority authority a) s.attempts)
      (Error.db constraint)
  ok (record s { attempts = modify_attempt id (set_authority_to authority) s.attempts })

abbrev pub set_failed : Option ℤ → Attempt → Attempt
set_failed code a = record a { status = AttemptStatus.failed; provider_code = code }

-- A code that the column provider_code, an INTEGER of 32 bits, does not hold.
abbrev pub out_of_range : Option ℤ → Bool
out_of_range none = false
out_of_range (some c) = ltb_ℤ c (negsuc 2147483647) || ltb_ℤ (pos 2147483647) c

-- `MarkAttemptFailed`.
unfoldable pub mark_attempt_failed : Env → ℕ → Option ℤ → Store → Result Error Store
mark_attempt_failed env id code s = do
  oa ← lock_payment_attempt id s
  fail_if (not (matches_provider env oa.1)) Error.provider_mismatch
  fail_if (not (is_pending oa.1.status) || is_some oa.1.authority) Error.already_processed
  fail_if (out_of_range code) (Error.db constraint)
  ok (record s { attempts = modify_attempt id (set_failed code) s.attempts })

abbrev pub set_expired : Attempt → Attempt
set_expired a = record a { status = AttemptStatus.expired }

abbrev pub is_code : ℤ → Option ℤ → Bool
is_code c none = false
is_code c (some d) = eq_ℤ d c

-- `expireRejected`: code -51 is a definitive rejection.
unfoldable pub expire_rejected : Env → ℕ → ℕ → Store → Result Error Store
expire_rejected env id cutoff s = do
  oa ← lock_payment_attempt id s
  fail_if
      (not (matches_provider env oa.1)
        || ltb cutoff oa.1.created_at
        || (not (is_pending oa.1.status) && not (is_failed oa.1.status))
        || not (is_code (negsuc 50) oa.1.provider_code)
        || not (OrderModel.is_pending oa.0.status)
        || OrderModel.is_paid oa.0.payment_status)
      Error.already_processed
  ok (record s { attempts = modify_attempt id set_expired s.attempts })
