-- ===== src/Payment/Model.antt =====
-- Payment attempts and provider bindings (backend/internal/payment/model.go, zarinpal.go).
use plant_shop.Base.{
  ℕ, Bool, true, false, not, ◌&&◌, ◌||◌, Option, [], ◌∷◌, ltb, leb, ◌==◌, is_some,
}
use plant_shop.Base.Int.{ℤ}
use plant_shop.Text.{Text, codes, byte_len}

pub data AttemptStatus : Type 0 where
  pending paid failed reconciliation expired : AttemptStatus

-- A row of payment_attempts.
pub record Attempt : Type 0 where
  pub id : ℕ
  pub order_id : ℕ
  pub provider : Text
  pub currency : Text
  pub environment : Text
  pub account_key : Text
  pub authority : Option Text
  pub amount : ℤ
  pub status : AttemptStatus
  pub ref_id : Option ℤ
  pub provider_code : Option ℤ
  pub created_at : ℕ
  pub verified_at : Option ℕ

-- A row of payment_attempt_events of the types that the code reads: `paid` and `reconciliation` are
-- inserted by the trigger on payment_attempts where the status becomes that one.
pub data EventType : Type 0 where
  paid reconciliation verify_rejected verify_uncertain : EventType

pub record Event : Type 0 where
  pub attempt_id : ℕ
  pub event_type : EventType

abbrev pub irr : Text
irr = codes "IRR"

abbrev pub provider_zarinpal : Text
provider_zarinpal = codes "zarinpal"

unfoldable pub is_pending : AttemptStatus → Bool
is_pending AttemptStatus.pending = true
is_pending _ = false

unfoldable pub is_paid : AttemptStatus → Bool
is_paid AttemptStatus.paid = true
is_paid _ = false

-- `status = 'paid' || status = 'reconciliation'`.
unfoldable pub is_settled : AttemptStatus → Bool
is_settled AttemptStatus.paid = true
is_settled AttemptStatus.reconciliation = true
is_settled _ = false

unfoldable pub is_expired : AttemptStatus → Bool
is_expired AttemptStatus.expired = true
is_expired _ = false

unfoldable pub is_failed : AttemptStatus → Bool
is_failed AttemptStatus.failed = true
is_failed _ = false

-- `status IN ('pending','paid','reconciliation') OR (authority IS NOT NULL AND status <> 'expired')`:
-- the attempt may still take the customer's money.
unfoldable pub is_active : Attempt → Bool
unfolding is_pending is_settled is_expired
is_active a =
    (is_pending a.status || is_settled a.status)
    || (is_some a.authority && not (is_expired a.status))

abbrev is_alnum : ℕ → Bool
is_alnum c = (leb b'a' c && leb c b'z') || (leb b'A' c && leb c b'Z') || (leb b'0' c && leb c b'9')

unfoldable pub all_alnum : Text → Bool
all_alnum [] = true
all_alnum (c ∷ s) = is_alnum c && all_alnum s

-- `validAuthority`.
unfoldable pub valid_authority : Text → Bool
unfolding all_alnum
valid_authority s = not (byte_len s == 0 || ltb 255 (byte_len s)) && all_alnum s
