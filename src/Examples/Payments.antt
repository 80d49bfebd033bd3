-- ===== src/Examples/Payments.antt =====
-- The order of the shop is paid through the gateway.
use plant_shop.Base.{◌≡◌, refl, true, some, Result, ok}
use plant_shop.Base.Int.{◌+ℤ◌, ◌-ℤ◌, ◌*ℤ◌, ◌/ℤ◌, pos, negsuc}
use plant_shop.Base.Keys.{IsKeyed}
use plant_shop.Coupon.Model.{normalize_code, check_eligibility, calculate_discount}
use plant_shop.Coupon.Repository.{
  find_by_code, count_active_redemptions, count_active_redemptions_for_user, eligible,
  insert_redemption, release_redemption_for_order,
}
use plant_shop.Examples.{shop, is_ok, get, get_lem}
use plant_shop.Examples.Orders.{ordered, sold}
use plant_shop.Notification.Model.{
  decimal_from, decimal, event_key, event_key_for_order_status, event_key_for_return_request,
  event_key_for_refund,
}
use plant_shop.Notification.Outbox.{enqueue_tx, event_of, kind_of_status, order_event_tx, notify}
use plant_shop.Order.Cancel.{
  payment_blocks_cancellation, items_of, give_back, move, cancel_part, settle, advance,
  update_status, cancel_own, cancel_own_order, is_expirable, expire_one, expire_all, expiring,
  expire_reservations,
}
use plant_shop.Order.Checkout.{
  insert_line, cart_lines, line_subtotal, items_subtotal, resolve_coupon, price, item_of,
  nullable_string, order_of, violates_checks, place, create_from_cart,
}
use plant_shop.Order.Inventory.{decrement, increment, take_stock, restore_stock}
use plant_shop.Order.Model.{
  can_transition, is_fulfillment, is_zarinpal, requires_paid_payment, is_paid, is_refunded,
  is_unpaid, is_pending, is_cancelled, is_delivered, Order, PaymentMethod,
}
use plant_shop.Order.Shipping.{is_valid_shipping_method, fee}
use plant_shop.Payment.Errors.{Error}
use plant_shop.Payment.Model as PaymentModel
use plant_shop.Payment.Model.{Attempt, AttemptStatus}
use plant_shop.Payment.Repository.{
  matches_provider, lock_payment_attempt, get_attempt_by_authority, lock_payment_authority,
  new_attempt, check_payable, create_attempt_for_order, set_authority,
}
use plant_shop.Payment.Repository.Exclusive.{Exclusive, create-Exclusive}
use plant_shop.Payment.Settlement.{
  conflicts, must_reconcile, pay_order, settle_attempt, finalize_verified_payment, VerifyResult,
  finalize_failed_payment,
}
use plant_shop.Payment.Settlement.Repeat.{
  settled_before, finalize_verified-repeats, finalize_failed-keeps,
}
use plant_shop.Payment.Settlement.Safety.{Touched, pays_only_open}
use plant_shop.Store.{Store, find_order}
use plant_shop.Text.{
  rune_len, byte_len, text_eq, is_space, trim_left, trim_right, trim_space, codes,
}

abbrev attempt_run : Result Error (Attempt × Store)
attempt_run = create_attempt_for_order shop 7 1 sold

pub attempt_ok : is_ok attempt_run ≡ true
unfolding is_valid_shipping_method fee decrement increment take_stock restore_stock can_transition
    is_fulfillment is_zarinpal requires_paid_payment is_paid is_refunded is_unpaid is_pending
    is_cancelled is_delivered insert_line cart_lines line_subtotal items_subtotal resolve_coupon
    price item_of nullable_string order_of violates_checks place create_from_cart normalize_code
    check_eligibility calculate_discount find_by_code count_active_redemptions
    count_active_redemptions_for_user eligible insert_redemption release_redemption_for_order
    decimal_from decimal event_key event_key_for_order_status event_key_for_return_request
    event_key_for_refund enqueue_tx event_of kind_of_status order_event_tx notify rune_len byte_len
    text_eq is_space trim_left trim_right trim_space payment_blocks_cancellation items_of give_back
    move cancel_part settle advance update_status cancel_own cancel_own_order is_expirable
    expire_one expire_all expiring expire_reservations ◌+ℤ◌ ◌-ℤ◌ ◌*ℤ◌ ◌/ℤ◌ PaymentModel.is_pending
    PaymentModel.is_paid PaymentModel.is_settled PaymentModel.is_expired PaymentModel.is_failed
    PaymentModel.is_active PaymentModel.all_alnum PaymentModel.valid_authority matches_provider
    lock_payment_attempt get_attempt_by_authority lock_payment_authority new_attempt check_payable
    create_attempt_for_order set_authority conflicts must_reconcile pay_order settle_attempt
    finalize_verified_payment
attempt_ok = refl

abbrev attempt : Attempt
attempt = (get attempt_run attempt_ok).0

abbrev waiting : Store
waiting = (get attempt_run attempt_ok).1

create-Exclusive_example : Exclusive 1 waiting
create-Exclusive_example =
    create-Exclusive shop 7 1 sold attempt waiting (get_lem attempt_run attempt_ok)

abbrev authority_run : Result Error Store
authority_run = set_authority shop 1 (codes "A1") waiting

pub authority_ok : is_ok authority_run ≡ true
unfolding is_valid_shipping_method fee decrement increment take_stock restore_stock can_transition
    is_fulfillment is_zarinpal requires_paid_payment is_paid is_refunded is_unpaid is_pending
    is_cancelled is_delivered insert_line cart_lines line_subtotal items_subtotal resolve_coupon
    price item_of nullable_string order_of violates_checks place create_from_cart normalize_code
    check_eligibility calculate_discount find_by_code count_active_redemptions
    count_active_redemptions_for_user eligible insert_redemption release_redemption_for_order
    decimal_from decimal event_key event_key_for_order_status event_key_for_return_request
    event_key_for_refund enqueue_tx event_of kind_of_status order_event_tx notify rune_len byte_len
    text_eq is_space trim_left trim_right trim_space payment_blocks_cancellation items_of give_back
    move cancel_part settle advance update_status cancel_own cancel_own_order is_expirable
    expire_one expire_all expiring expire_reservations ◌+ℤ◌ ◌-ℤ◌ ◌*ℤ◌ ◌/ℤ◌ PaymentModel.is_pending
    PaymentModel.is_paid PaymentModel.is_settled PaymentModel.is_expired PaymentModel.is_failed
    PaymentModel.is_active PaymentModel.all_alnum PaymentModel.valid_authority matches_provider
    lock_payment_attempt get_attempt_by_authority lock_payment_authority new_attempt check_payable
    create_attempt_for_order set_authority conflicts must_reconcile pay_order settle_attempt
    finalize_verified_payment
authority_ok = refl

abbrev authorised : Store
authorised = get authority_run authority_ok

abbrev pub payment_run : Result Error (VerifyResult × Store)
payment_run = finalize_verified_payment shop (codes "A1") (pos 55) (pos 100) authorised

pub payment_ok : is_ok payment_run ≡ true
unfolding is_valid_shipping_method fee decrement increment take_stock restore_stock can_transition
    is_fulfillment is_zarinpal requires_paid_payment is_paid is_refunded is_unpaid is_pending
    is_cancelled is_delivered insert_line cart_lines line_subtotal items_subtotal resolve_coupon
    price item_of nullable_string order_of violates_checks place create_from_cart normalize_code
    check_eligibility calculate_discount find_by_code count_active_redemptions
    count_active_redemptions_for_user eligible insert_redemption release_redemption_for_order
    decimal_from decimal event_key event_key_for_order_status event_key_for_return_request
    event_key_for_refund enqueue_tx event_of kind_of_status order_event_tx notify rune_len byte_len
    text_eq is_space trim_left trim_right trim_space payment_blocks_cancellation items_of give_back
    move cancel_part settle advance update_status cancel_own cancel_own_order is_expirable
    expire_one expire_all expiring expire_reservations ◌+ℤ◌ ◌-ℤ◌ ◌*ℤ◌ ◌/ℤ◌ PaymentModel.is_pending
    PaymentModel.is_paid PaymentModel.is_settled PaymentModel.is_expired PaymentModel.is_failed
    PaymentModel.is_active PaymentModel.all_alnum PaymentModel.valid_authority matches_provider
    lock_payment_attempt get_attempt_by_authority lock_payment_authority new_attempt check_payable
    create_attempt_for_order set_authority conflicts must_reconcile pay_order settle_attempt
    finalize_verified_payment
payment_ok = refl

abbrev outcome : VerifyResult
outcome = (get payment_run payment_ok).0

abbrev pub paid : Store
paid = (get payment_run payment_ok).1

payment_is : payment_run ≡ ok (outcome, paid)
payment_is = get_lem payment_run payment_ok

settled : outcome.final_status ≡ AttemptStatus.paid
unfolding is_valid_shipping_method fee decrement increment take_stock restore_stock can_transition
    is_fulfillment is_zarinpal requires_paid_payment is_paid is_refunded is_unpaid is_pending
    is_cancelled is_delivered insert_line cart_lines line_subtotal items_subtotal resolve_coupon
    price item_of nullable_string order_of violates_checks place create_from_cart normalize_code
    check_eligibility calculate_discount find_by_code count_active_redemptions
    count_active_redemptions_for_user eligible insert_redemption release_redemption_for_order
    decimal_from decimal event_key event_key_for_order_status event_key_for_return_request
    event_key_for_refund enqueue_tx event_of kind_of_status order_event_tx notify rune_len byte_len
    text_eq is_space trim_left trim_right trim_space payment_blocks_cancellation items_of give_back
    move cancel_part settle advance update_status cancel_own cancel_own_order is_expirable
    expire_one expire_all expiring expire_reservations ◌+ℤ◌ ◌-ℤ◌ ◌*ℤ◌ ◌/ℤ◌ PaymentModel.is_pending
    PaymentModel.is_paid PaymentModel.is_settled PaymentModel.is_expired PaymentModel.is_failed
    PaymentModel.is_active PaymentModel.all_alnum PaymentModel.valid_authority matches_provider
    lock_payment_attempt get_attempt_by_authority lock_payment_authority new_attempt check_payable
    create_attempt_for_order set_authority conflicts must_reconcile pay_order settle_attempt
    finalize_verified_payment
settled = refl

abbrev zarinpal_order : Order
zarinpal_order = record ordered { payment_method = PaymentMethod.zarinpal }

found : find_order 1 authorised.orders ≡ some zarinpal_order
unfolding is_valid_shipping_method fee decrement increment take_stock restore_stock can_transition
    is_fulfillment is_zarinpal requires_paid_payment is_paid is_refunded is_unpaid is_pending
    is_cancelled is_delivered insert_line cart_lines line_subtotal items_subtotal resolve_coupon
    price item_of nullable_string order_of violates_checks place create_from_cart normalize_code
    check_eligibility calculate_discount find_by_code count_active_redemptions
    count_active_redemptions_for_user eligible insert_redemption release_redemption_for_order
    decimal_from decimal event_key event_key_for_order_status event_key_for_return_request
    event_key_for_refund enqueue_tx event_of kind_of_status order_event_tx notify rune_len byte_len
    text_eq is_space trim_left trim_right trim_space payment_blocks_cancellation items_of give_back
    move cancel_part settle advance update_status cancel_own cancel_own_order is_expirable
    expire_one expire_all expiring expire_reservations ◌+ℤ◌ ◌-ℤ◌ ◌*ℤ◌ ◌/ℤ◌ PaymentModel.is_pending
    PaymentModel.is_paid PaymentModel.is_settled PaymentModel.is_expired PaymentModel.is_failed
    PaymentModel.is_active PaymentModel.all_alnum PaymentModel.valid_authority matches_provider
    lock_payment_attempt get_attempt_by_authority lock_payment_authority new_attempt check_payable
    create_attempt_for_order set_authority conflicts must_reconcile pay_order settle_attempt
    finalize_verified_payment
found = refl

pays_only_open_example : Touched 1 zarinpal_order paid
pays_only_open_example =
    pays_only_open shop (codes "A1") (pos 55) (pos 100) authorised outcome paid 1 zarinpal_order
      payment_is found

keyed : IsKeyed (λ (a : Attempt). a.id) authorised.attempts
unfolding is_valid_shipping_method fee decrement increment take_stock restore_stock can_transition
    is_fulfillment is_zarinpal requires_paid_payment is_paid is_refunded is_unpaid is_pending
    is_cancelled is_delivered insert_line cart_lines line_subtotal items_subtotal resolve_coupon
    price item_of nullable_string order_of violates_checks place create_from_cart normalize_code
    check_eligibility calculate_discount find_by_code count_active_redemptions
    count_active_redemptions_for_user eligible insert_redemption release_redemption_for_order
    decimal_from decimal event_key event_key_for_order_status event_key_for_return_request
    event_key_for_refund enqueue_tx event_of kind_of_status order_event_tx notify rune_len byte_len
    text_eq is_space trim_left trim_right trim_space payment_blocks_cancellation items_of give_back
    move cancel_part settle advance update_status cancel_own cancel_own_order is_expirable
    expire_one expire_all expiring expire_reservations ◌+ℤ◌ ◌-ℤ◌ ◌*ℤ◌ ◌/ℤ◌ PaymentModel.is_pending
    PaymentModel.is_paid PaymentModel.is_settled PaymentModel.is_expired PaymentModel.is_failed
    PaymentModel.is_active PaymentModel.all_alnum PaymentModel.valid_authority matches_provider
    lock_payment_attempt get_attempt_by_authority lock_payment_authority new_attempt check_payable
    create_attempt_for_order set_authority conflicts must_reconcile pay_order settle_attempt
    finalize_verified_payment
keyed = (refl, tt)

finalize_verified-repeats_example :
    finalize_verified_payment shop (codes "A1") (pos 55) (pos 101) paid
    ≡ ok (settled_before outcome, paid)
finalize_verified-repeats_example =
    finalize_verified-repeats shop (codes "A1") (pos 55) (pos 100) (pos 55) (pos 101) authorised
      outcome paid keyed payment_is refl

finalize_failed-keeps_example :
    finalize_failed_payment shop (codes "A1") (some (negsuc 50)) paid
    ≡ ok (settled_before outcome, paid)
finalize_failed-keeps_example =
    finalize_failed-keeps shop (codes "A1") (pos 55) (pos 100) (some (negsuc 50)) authorised outcome
      paid keyed payment_is
