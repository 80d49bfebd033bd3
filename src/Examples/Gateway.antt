-- ===== src/Examples/Gateway.antt =====
-- An order that is being paid: the gateway's answers, read from the tokens of their JSON.
use plant_shop.Examples.{shop, opened}
use plant_shop.Order.Model.{
  Order, Status, PaymentMethod, PaymentStatus, is_paid, is_refunded, is_unpaid, is_pending,
  is_cancelled,
}
use plant_shop.Payment.Model as PaymentModel
use plant_shop.Payment.Model.{Attempt, AttemptStatus, provider_zarinpal, irr}
use plant_shop.Payment.Repository.{
  matches_provider, lock_payment_attempt, get_attempt_by_authority, lock_payment_authority,
  new_attempt, check_payable, create_attempt_for_order, set_authority, expire_rejected,
}
use plant_shop.Payment.Settlement.{
  conflicts, must_reconcile, pay_order, settle_attempt, finalize_verified_payment,
  finalize_failed_payment, reject_attempt,
}
use plant_shop.Payment.Reconciliation as Reconciliation
use plant_shop.Payment.Json.{
  Token, Json, brace_open, brace_close, bracket_open, bracket_close, string_token, number_token,
  object, array, member, no_member, no_item, string, number, reserved, is_refused, decode_value,
  decode_unique_json,
}
use plant_shop.Payment.Json.RoundTrip.{tokens, IsReadable}
use plant_shop.Payment.Json.Accepted.{decode_unique_json_iff}
use plant_shop.Payment.Gateway.{Gateway, Client, VerifyPaymentInput}
use plant_shop.Payment.Zarinpal.{
  Payload, request_body, verify_body, ZarinPalClient, member_of, required_string, required_integer,
  response_code, valid_response_fields, decode_data, decode_envelope, decode_provider_response,
  post, request_answer, request_payment, verify_answer, verify_payment, client_of,
}
use plant_shop.Payment.Zarinpal.Answers.{Confirmation, verify_payment-Confirmation}
use plant_shop.Payment.Handler.{
  RequestReply, BrowserOutcome, accept_output, request_zarin_pal, callback, callback_answered,
  callback_verified, is_verified, expire_abandoned, expire_each, expire_attempt, reconcile_payment,
  check_item, verify_again, settle_answer, reconciliation_availability,
}
use plant_shop.Payment.Handler.Outcomes.{
  IsPaidFor, IsConfirmed, callback-IsPaidFor, callback-orders,
}
use plant_shop.Payment.Handler.Requests.{IsStarted, request_zarin_pal-IsStarted}
use plant_shop.Payment.Handler.Checks.{ConfirmsNothing, expire_abandoned-orders}
use plant_shop.Notification.Outbox.{notify}
use plant_shop.Notification.Model.{decimal_from, decimal}
use plant_shop.System.{start, onward, returns_from_gateway}
use plant_shop.System.Orders.{WellFormed}
use plant_shop.System.Reachable.{Steps-WellFormed}
use plant_shop.Http.{path_id}
use mathlib.Core.Path.{subst}
use plant_shop.Store.{Store, Env}
use plant_shop.Base.{
  arith, ◌≡◌, ◌⊎◌, ◌↔◌, refl, sym, ℕ, false, List, true, none, some, [], ◌∷◌, ◌++◌, ok, ltb,
}
use plant_shop.Base.Int.{pos, negsuc}
use plant_shop.Text.{
  Text, rune_len, byte_len, text_eq, is_space, trim_left, trim_right, trim_space, codes,
  digits_from, parse_int,
}

abbrev quiet : Env
quiet = record shop { notifications = false }

abbrev order : Order
order = record {
  id = 1;
  user_id = 7;
  status = Status.pending;
  total = pos 41000;
  created_at = 1000;
  delivery = record {
    recipient_name = codes "Ada";
    phone = codes "0912";
    address_line1 = codes "Main 1";
    address_line2 = none;
    city = codes "Shiraz";
    postal_code = codes "71";
    country = codes "Iran";
  };
  shipping_method = codes "standard";
  shipping_fee = pos 500;
  items_subtotal = pos 40500;
  payment_status = PaymentStatus.pending;
  payment_method = PaymentMethod.zarinpal;
  coupon_id = none;
  coupon_code = none;
  discount_amount = pos 0;
  currency = codes "IRR";
  items = [];
}

abbrev unpaid : Store
unpaid = record opened { orders = order ∷ []; next_order = 2 }

abbrev attempt : Attempt
attempt = record {
  id = 1;
  order_id = 1;
  provider = provider_zarinpal;
  currency = irr;
  environment = codes "test";
  account_key = codes "test";
  authority = some (codes "A1");
  amount = pos 41000;
  status = AttemptStatus.pending;
  ref_id = none;
  provider_code = none;
  created_at = 1000;
  verified_at = none;
}

abbrev issued : Store
issued = record unpaid { attempts = attempt ∷ []; next_attempt = 2 }

-- {"data": {"code": 100, "message": "ok", KEY: VALUE}, "errors": []}.
abbrev answer : Text → Json → Json
answer key v = object (
    member (codes "data")
      (object (
        member (codes "code") (number (codes "100"))
          (member (codes "message") (string (codes "ok")) (member key v no_member))))
      (member (codes "errors") (array no_item) no_member))

abbrev answer_tokens : Text → Token → List Token
answer_tokens key t =
    brace_open
    ∷ string_token (codes "data")
    ∷ brace_open
    ∷ string_token (codes "code")
    ∷ number_token (codes "100")
    ∷ string_token (codes "message")
    ∷ string_token (codes "ok")
    ∷ string_token key
    ∷ t
    ∷ brace_close
    ∷ string_token (codes "errors")
    ∷ bracket_open
    ∷ bracket_close
    ∷ brace_close
    ∷ []

abbrev reply_tokens : Payload → List Token
reply_tokens (request_body m i) = answer_tokens (codes "authority") (string_token (codes "A1"))
reply_tokens (verify_body m i) = answer_tokens (codes "ref_id") (number_token (codes "55"))

abbrev zarinpal : ZarinPalClient
zarinpal = record {
  merchant_id = codes "m";
  sandbox = true;
  exchange = λ p. some (record {
    status_code = 200;
    body = record { size = 80; is_utf8 = true; token_list = reply_tokens p; clean_end = true };
  });
  lower = λ t. t;
}

abbrev gateway : Gateway
gateway = record { client = some (client_of zarinpal); callback_url = codes "https://shop/back" }

abbrev asked : VerifyPaymentInput
asked = record { authority = codes "A1"; amount = pos 41000 }

verified : is_verified (verify_payment zarinpal asked) ≡ true
unfolding is_paid is_refunded is_unpaid is_pending is_cancelled PaymentModel.is_pending
    PaymentModel.is_paid PaymentModel.is_settled PaymentModel.is_expired PaymentModel.is_failed
    PaymentModel.is_active PaymentModel.all_alnum PaymentModel.valid_authority matches_provider
    lock_payment_attempt get_attempt_by_authority lock_payment_authority new_attempt check_payable
    create_attempt_for_order set_authority conflicts must_reconcile pay_order settle_attempt
    finalize_verified_payment reserved is_refused decode_value decode_unique_json member_of
    required_string required_integer response_code valid_response_fields decode_data decode_envelope
    decode_provider_response post request_answer request_payment verify_answer verify_payment
    accept_output request_zarin_pal callback callback_answered callback_verified decimal_from
    decimal path_id rune_len byte_len text_eq is_space trim_left trim_right trim_space digits_from
    parse_int notify
verified = refl

verify_payment-Confirmation_example : Confirmation zarinpal asked
verify_payment-Confirmation_example = verify_payment-Confirmation zarinpal asked verified

decode_unique_json_iff_example :
    (decode_unique_json (λ t. t) (answer_tokens (codes "ref_id") (number_token (codes "55")))
      ≡ ok (answer (codes "ref_id") (number (codes "55")), []))
    ↔ (IsReadable (λ t. t) 0 (answer (codes "ref_id") (number (codes "55")))
        × (answer_tokens (codes "ref_id") (number_token (codes "55"))
            ≡ tokens (answer (codes "ref_id") (number (codes "55"))) []))
decode_unique_json_iff_example =
    decode_unique_json_iff (λ t. t) (answer (codes "ref_id") (number (codes "55")))
      (answer_tokens (codes "ref_id") (number_token (codes "55"))) []

abbrev told : (ℕ × BrowserOutcome) × Store
told = callback gateway quiet (codes "A1") (codes "OK") issued

told_lem : told ≡ ((1, BrowserOutcome.success), told.1)
unfolding is_paid is_refunded is_unpaid is_pending is_cancelled PaymentModel.is_pending
    PaymentModel.is_paid PaymentModel.is_settled PaymentModel.is_expired PaymentModel.is_failed
    PaymentModel.is_active PaymentModel.all_alnum PaymentModel.valid_authority matches_provider
    lock_payment_attempt get_attempt_by_authority lock_payment_authority new_attempt check_payable
    create_attempt_for_order set_authority conflicts must_reconcile pay_order settle_attempt
    finalize_verified_payment reserved is_refused decode_value decode_unique_json member_of
    required_string required_integer response_code valid_response_fields decode_data decode_envelope
    decode_provider_response post request_answer request_payment verify_answer verify_payment
    accept_output request_zarin_pal callback callback_answered callback_verified decimal_from
    decimal path_id rune_len byte_len text_eq is_space trim_left trim_right trim_space digits_from
    parse_int notify
told_lem = refl

callback-IsPaidFor_example : IsPaidFor (codes "A1") 1 told.1
callback-IsPaidFor_example =
    callback-IsPaidFor gateway quiet (codes "A1") (codes "OK") 1 issued told.1 (refl, tt) told_lem

callback-orders_example :
    (told.1.orders ≡ issued.orders)
    ⊎ ((text_eq (codes "OK") (codes "OK") ≡ true) × IsConfirmed gateway (codes "A1") issued)
callback-orders_example = callback-orders gateway quiet (codes "A1") (codes "OK") issued

abbrev start_url : Text
start_url = codes "https://sandbox.zarinpal.com/pg/StartPay/" ++ codes "A1"

abbrev started : RequestReply × Store
started = request_zarin_pal gateway quiet (some 7) (codes "1") unpaid

started_lem : started ≡ (RequestReply.redirect start_url, started.1)
unfolding is_paid is_refunded is_unpaid is_pending is_cancelled PaymentModel.is_pending
    PaymentModel.is_paid PaymentModel.is_settled PaymentModel.is_expired PaymentModel.is_failed
    PaymentModel.is_active PaymentModel.all_alnum PaymentModel.valid_authority matches_provider
    lock_payment_attempt get_attempt_by_authority lock_payment_authority new_attempt check_payable
    create_attempt_for_order set_authority conflicts must_reconcile pay_order settle_attempt
    finalize_verified_payment reserved is_refused decode_value decode_unique_json member_of
    required_string required_integer response_code valid_response_fields decode_data decode_envelope
    decode_provider_response post request_answer request_payment verify_answer verify_payment
    accept_output request_zarin_pal callback callback_answered callback_verified decimal_from
    decimal path_id rune_len byte_len text_eq is_space trim_left trim_right trim_space digits_from
    parse_int notify
started_lem = refl

request_zarin_pal-IsStarted_example :
    IsStarted gateway (some 7) (codes "1") start_url unpaid started.1
request_zarin_pal-IsStarted_example =
    request_zarin_pal-IsStarted gateway quiet (some 7) (codes "1") start_url unpaid started.1 tt
      started_lem

-- A gateway that refuses every payment, with {"data": [], "errors": {"code": -51, "message": "no"}}.
abbrev refusal_tokens : List Token
refusal_tokens =
    brace_open
    ∷ string_token (codes "data")
    ∷ bracket_open
    ∷ bracket_close
    ∷ string_token (codes "errors")
    ∷ brace_open
    ∷ string_token (codes "code")
    ∷ number_token (codes "-51")
    ∷ string_token (codes "message")
    ∷ string_token (codes "no")
    ∷ brace_close
    ∷ brace_close
    ∷ []

abbrev refusing : ZarinPalClient
refusing = record zarinpal {
  exchange = λ p. some (record {
    status_code = 200;
    body = record { size = 80; is_utf8 = true; token_list = refusal_tokens; clean_end = true };
  });
}

abbrev refusing_gateway : Gateway
refusing_gateway = record gateway { client = some (client_of refusing) }

refused : (i : VerifyPaymentInput) → is_verified (verify_payment refusing i) ≡ false
unfolding is_paid is_refunded is_unpaid is_pending is_cancelled PaymentModel.is_pending
    PaymentModel.is_paid PaymentModel.is_settled PaymentModel.is_expired PaymentModel.is_failed
    PaymentModel.is_active PaymentModel.all_alnum PaymentModel.valid_authority matches_provider
    lock_payment_attempt get_attempt_by_authority lock_payment_authority new_attempt check_payable
    create_attempt_for_order set_authority conflicts must_reconcile pay_order settle_attempt
    finalize_verified_payment reserved is_refused decode_value decode_unique_json member_of
    required_string required_integer response_code valid_response_fields decode_data decode_envelope
    decode_provider_response post request_answer request_payment verify_answer verify_payment
    accept_output request_zarin_pal callback callback_answered callback_verified decimal_from
    decimal path_id rune_len byte_len text_eq is_space trim_left trim_right trim_space digits_from
    parse_int notify
refused i = ground arith

confirms_nothing : ConfirmsNothing refusing_gateway
confirms_nothing c i e =
    let no = refused i in
    let same : c ≡ client_of refusing = cc in
    subst (λ (d : Client). is_verified (d.verify_payment i) ≡ false) (sym same) no

abbrev expired : Store
expired = expire_abandoned refusing_gateway quiet (λ x y. ltb x.id y.id) 2000 issued

-- The attempt is checked with the gateway and expires.
expired_attempt :
    expired.attempts
    ≡ record attempt { status = AttemptStatus.expired; provider_code = some (negsuc 50) } ∷ []
unfolding is_paid is_refunded is_unpaid is_pending is_cancelled PaymentModel.is_pending
    PaymentModel.is_paid PaymentModel.is_settled PaymentModel.is_expired PaymentModel.is_failed
    PaymentModel.is_active PaymentModel.all_alnum PaymentModel.valid_authority matches_provider
    lock_payment_attempt get_attempt_by_authority lock_payment_authority new_attempt check_payable
    create_attempt_for_order set_authority conflicts must_reconcile pay_order settle_attempt
    finalize_verified_payment reserved is_refused decode_value decode_unique_json member_of
    required_string required_integer response_code valid_response_fields decode_data decode_envelope
    decode_provider_response post request_answer request_payment verify_answer verify_payment
    accept_output request_zarin_pal callback callback_answered callback_verified decimal_from
    decimal path_id rune_len byte_len text_eq is_space trim_left trim_right trim_space digits_from
    parse_int notify expire_abandoned expire_each expire_attempt reconcile_payment check_item
    verify_again settle_answer reconciliation_availability Reconciliation.get_reconciliation
    finalize_failed_payment reject_attempt expire_rejected
expired_attempt = refl

expire_abandoned-orders_example : expired.orders ≡ issued.orders
expire_abandoned-orders_example =
    expire_abandoned-orders refusing_gateway quiet (λ x y. ltb x.id y.id) 2000 issued
      confirms_nothing

issued-WellFormed : WellFormed issued
unfolding is_paid is_refunded is_cancelled
issued-WellFormed = record {
  keyed = (refl, tt);
  below = (omega arith, tt);
  sound = ((λ c. refl), tt);
}

Steps-WellFormed_example : WellFormed told.1
Steps-WellFormed_example =
    Steps-WellFormed issued told.1 issued-WellFormed
      (onward start (returns_from_gateway gateway quiet (codes "A1") (codes "OK") refl))
