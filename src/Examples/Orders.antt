-- ===== src/Examples/Orders.antt =====
-- A checkout, and its order cancelled in each way that there is.
use plant_shop.Base.{ℕ, ◌≡◌, ◌<◌, refl, true, false, Result, ok, arith}
use plant_shop.Base.Int.{◌+ℤ◌, ◌-ℤ◌, ◌*ℤ◌, ◌/ℤ◌, pos}
use plant_shop.Coupon.Model.{normalize_code, check_eligibility, calculate_discount}
use plant_shop.Coupon.Repository.{
  find_by_code, count_active_redemptions, count_active_redemptions_for_user, eligible,
  insert_redemption, release_redemption_for_order,
}
use plant_shop.Coupon.Repository.Limits.{LimitsHold}
use plant_shop.Examples.{shop, shop_shipping, opened, checkout, is_ok, get, get_lem}
use plant_shop.Notification.Model.{
  decimal_from, decimal, event_key, event_key_for_order_status, event_key_for_return_request,
  event_key_for_refund,
}
use plant_shop.Notification.Outbox.{enqueue_tx, event_of, kind_of_status, order_event_tx, notify}
use plant_shop.Order.Cancel.{
  payment_blocks_cancellation, items_of, give_back, move, cancel_part, settle, advance,
  update_status, cancel_own, cancel_own_order, is_expirable, expire_one, expire_all, expiring,
  expire_reservations,
}
use plant_shop.Order.Checkout.{
  insert_line, cart_lines, line_subtotal, items_subtotal, resolve_coupon, price, item_of,
  nullable_string, order_of, violates_checks, place, create_from_cart,
}
use plant_shop.Order.Checkout.Amounts.{OrderAmounts, cart_value, create_from_cart-Amounts}
use plant_shop.Order.Checkout.Effects.{IsNew, create_from_cart-LimitsHold, create_from_cart-IsNew}
use plant_shop.Order.Conservation.{units, Linked, create_from_cart-units, create_from_cart-Linked}
use plant_shop.Order.Conservation.Advancing.{update_status-Conserves, cancel_own_order-Conserves}
use plant_shop.Order.Conservation.Cancelling.{Conserves}
use plant_shop.Order.Conservation.Expiry.{KeyedOrders, expire_reservations-Conserves}
use plant_shop.Order.Errors.{Error}
use plant_shop.Order.Inventory.{decrement, increment, take_stock, restore_stock}
use plant_shop.Order.Model.{
  can_transition, is_fulfillment, is_zarinpal, requires_paid_payment, is_paid, is_refunded,
  is_unpaid, is_pending, is_cancelled, is_delivered, Order, Status,
}
use plant_shop.Order.Shipping.{is_valid_shipping_method, fee}
use plant_shop.Order.Shipping.Bounds.{HasFees}
use plant_shop.Payment.Model as PaymentModel
use plant_shop.Store.{Store, DbError}
use plant_shop.Text.{rune_len, byte_len, text_eq, is_space, trim_left, trim_right, trim_space}

abbrev pub run : Result Error (Order × Store)
run = create_from_cart shop 7 checkout opened

pub run_ok : is_ok run ≡ true
unfolding is_valid_shipping_method fee decrement increment take_stock restore_stock can_transition
    is_fulfillment is_zarinpal requires_paid_payment is_paid is_refunded is_unpaid is_pending
    is_cancelled is_delivered insert_line cart_lines line_subtotal items_subtotal resolve_coupon
    price item_of nullable_string order_of violates_checks place create_from_cart normalize_code
    check_eligibility calculate_discount find_by_code count_active_redemptions
    count_active_redemptions_for_user eligible insert_redemption release_redemption_for_order
    decimal_from decimal event_key event_key_for_order_status event_key_for_return_request
    event_key_for_refund enqueue_tx event_of kind_of_status order_event_tx notify rune_len byte_len
    text_eq is_space trim_left trim_right trim_space payment_blocks_cancellation items_of give_back
    move cancel_part settle advance update_status cancel_own cancel_own_order is_expirable
    expire_one expire_all expiring expire_reservations ◌+ℤ◌ ◌-ℤ◌ ◌*ℤ◌ ◌/ℤ◌ PaymentModel.is_pending
    PaymentModel.is_paid PaymentModel.is_settled PaymentModel.is_expired PaymentModel.is_failed
    PaymentModel.is_active PaymentModel.all_alnum PaymentModel.valid_authority
run_ok = refl

abbrev pub ordered : Order
ordered = (get run run_ok).0

abbrev pub sold : Store
sold = (get run run_ok).1

pub sold_is : run ≡ ok (ordered, sold)
sold_is = get_lem run run_ok

-- 45000 for the goods, less 4500, and 500 for the delivery.
total_is : (ordered.total ≡ pos 41000) × (ordered.discount_amount ≡ pos 4500)
unfolding is_valid_shipping_method fee decrement increment take_stock restore_stock can_transition
    is_fulfillment is_zarinpal requires_paid_payment is_paid is_refunded is_unpaid is_pending
    is_cancelled is_delivered insert_line cart_lines line_subtotal items_subtotal resolve_coupon
    price item_of nullable_string order_of violates_checks place create_from_cart normalize_code
    check_eligibility calculate_discount find_by_code count_active_redemptions
    count_active_redemptions_for_user eligible insert_redemption release_redemption_for_order
    decimal_from decimal event_key event_key_for_order_status event_key_for_return_request
    event_key_for_refund enqueue_tx event_of kind_of_status order_event_tx notify rune_len byte_len
    text_eq is_space trim_left trim_right trim_space payment_blocks_cancellation items_of give_back
    move cancel_part settle advance update_status cancel_own cancel_own_order is_expirable
    expire_one expire_all expiring expire_reservations ◌+ℤ◌ ◌-ℤ◌ ◌*ℤ◌ ◌/ℤ◌ PaymentModel.is_pending
    PaymentModel.is_paid PaymentModel.is_settled PaymentModel.is_expired PaymentModel.is_failed
    PaymentModel.is_active PaymentModel.all_alnum PaymentModel.valid_authority
total_is = (refl, refl)

create_from_cart-units_example : units 1 sold ≡ units 1 opened
create_from_cart-units_example =
    create_from_cart-units shop 7 checkout opened sold ordered 1 sold_is

create_from_cart-Linked_example : Linked sold.products sold.orders
create_from_cart-Linked_example =
    create_from_cart-Linked shop 7 checkout opened sold ordered sold_is tt

pub sold-Linked : Linked sold.products sold.orders
unfolding is_valid_shipping_method fee decrement increment take_stock restore_stock can_transition
    is_fulfillment is_zarinpal requires_paid_payment is_paid is_refunded is_unpaid is_pending
    is_cancelled is_delivered insert_line cart_lines line_subtotal items_subtotal resolve_coupon
    price item_of nullable_string order_of violates_checks place create_from_cart normalize_code
    check_eligibility calculate_discount find_by_code count_active_redemptions
    count_active_redemptions_for_user eligible insert_redemption release_redemption_for_order
    decimal_from decimal event_key event_key_for_order_status event_key_for_return_request
    event_key_for_refund enqueue_tx event_of kind_of_status order_event_tx notify rune_len byte_len
    text_eq is_space trim_left trim_right trim_space payment_blocks_cancellation items_of give_back
    move cancel_part settle advance update_status cancel_own cancel_own_order is_expirable
    expire_one expire_all expiring expire_reservations ◌+ℤ◌ ◌-ℤ◌ ◌*ℤ◌ ◌/ℤ◌ PaymentModel.is_pending
    PaymentModel.is_paid PaymentModel.is_settled PaymentModel.is_expired PaymentModel.is_failed
    PaymentModel.is_active PaymentModel.all_alnum PaymentModel.valid_authority
sold-Linked = ((refl, (refl, tt)), tt)

fees_in_range : HasFees shop_shipping
fees_in_range = ground arith

value_small : cart_value shop 7 opened < 4611686018427387904
unfolding insert_line cart_lines
value_small = omega arith

create_from_cart-Amounts_example : OrderAmounts (cart_value shop 7 opened) ordered
create_from_cart-Amounts_example =
    create_from_cart-Amounts shop 7 checkout opened sold ordered fees_in_range value_small sold_is

within_limits : LimitsHold opened.coupons opened.redemptions
unfolding count_active_redemptions count_active_redemptions_for_user
within_limits = record { usage = λ id c f. ground arith; per_user = λ id u c f. ground arith }

create_from_cart-LimitsHold_example : LimitsHold sold.coupons sold.redemptions
create_from_cart-LimitsHold_example =
    create_from_cart-LimitsHold shop 7 checkout opened sold ordered (refl, tt) within_limits sold_is

create_from_cart-IsNew_example : IsNew 7 opened sold ordered
create_from_cart-IsNew_example =
    create_from_cart-IsNew shop 7 checkout opened sold ordered tt sold_is

abbrev cancelling : Result Error Store
cancelling = update_status shop 1 Status.cancelled sold

cancelling_ok : is_ok cancelling ≡ true
unfolding is_valid_shipping_method fee decrement increment take_stock restore_stock can_transition
    is_fulfillment is_zarinpal requires_paid_payment is_paid is_refunded is_unpaid is_pending
    is_cancelled is_delivered insert_line cart_lines line_subtotal items_subtotal resolve_coupon
    price item_of nullable_string order_of violates_checks place create_from_cart normalize_code
    check_eligibility calculate_discount find_by_code count_active_redemptions
    count_active_redemptions_for_user eligible insert_redemption release_redemption_for_order
    decimal_from decimal event_key event_key_for_order_status event_key_for_return_request
    event_key_for_refund enqueue_tx event_of kind_of_status order_event_tx notify rune_len byte_len
    text_eq is_space trim_left trim_right trim_space payment_blocks_cancellation items_of give_back
    move cancel_part settle advance update_status cancel_own cancel_own_order is_expirable
    expire_one expire_all expiring expire_reservations ◌+ℤ◌ ◌-ℤ◌ ◌*ℤ◌ ◌/ℤ◌ PaymentModel.is_pending
    PaymentModel.is_paid PaymentModel.is_settled PaymentModel.is_expired PaymentModel.is_failed
    PaymentModel.is_active PaymentModel.all_alnum PaymentModel.valid_authority
cancelling_ok = refl

update_status-Conserves_example : Conserves sold (get cancelling cancelling_ok)
update_status-Conserves_example =
    update_status-Conserves shop 1 Status.cancelled sold (get cancelling cancelling_ok) sold-Linked
      (get_lem cancelling cancelling_ok)

abbrev own : Result Error Store
own = cancel_own_order shop 7 1 sold

own_ok : is_ok own ≡ true
unfolding is_valid_shipping_method fee decrement increment take_stock restore_stock can_transition
    is_fulfillment is_zarinpal requires_paid_payment is_paid is_refunded is_unpaid is_pending
    is_cancelled is_delivered insert_line cart_lines line_subtotal items_subtotal resolve_coupon
    price item_of nullable_string order_of violates_checks place create_from_cart normalize_code
    check_eligibility calculate_discount find_by_code count_active_redemptions
    count_active_redemptions_for_user eligible insert_redemption release_redemption_for_order
    decimal_from decimal event_key event_key_for_order_status event_key_for_return_request
    event_key_for_refund enqueue_tx event_of kind_of_status order_event_tx notify rune_len byte_len
    text_eq is_space trim_left trim_right trim_space payment_blocks_cancellation items_of give_back
    move cancel_part settle advance update_status cancel_own cancel_own_order is_expirable
    expire_one expire_all expiring expire_reservations ◌+ℤ◌ ◌-ℤ◌ ◌*ℤ◌ ◌/ℤ◌ PaymentModel.is_pending
    PaymentModel.is_paid PaymentModel.is_settled PaymentModel.is_expired PaymentModel.is_failed
    PaymentModel.is_active PaymentModel.all_alnum PaymentModel.valid_authority
own_ok = refl

cancel_own_order-Conserves_example : Conserves sold (get own own_ok)
cancel_own_order-Conserves_example =
    cancel_own_order-Conserves shop 7 1 sold (get own own_ok) sold-Linked (get_lem own own_ok)

abbrev expiry : Result DbError (Store × ℕ)
expiry = expire_reservations shop (λ o. false) 2000 sold

expiry_ok : is_ok expiry ≡ true
unfolding is_valid_shipping_method fee decrement increment take_stock restore_stock can_transition
    is_fulfillment is_zarinpal requires_paid_payment is_paid is_refunded is_unpaid is_pending
    is_cancelled is_delivered insert_line cart_lines line_subtotal items_subtotal resolve_coupon
    price item_of nullable_string order_of violates_checks place create_from_cart normalize_code
    check_eligibility calculate_discount find_by_code count_active_redemptions
    count_active_redemptions_for_user eligible insert_redemption release_redemption_for_order
    decimal_from decimal event_key event_key_for_order_status event_key_for_return_request
    event_key_for_refund enqueue_tx event_of kind_of_status order_event_tx notify rune_len byte_len
    text_eq is_space trim_left trim_right trim_space payment_blocks_cancellation items_of give_back
    move cancel_part settle advance update_status cancel_own cancel_own_order is_expirable
    expire_one expire_all expiring expire_reservations ◌+ℤ◌ ◌-ℤ◌ ◌*ℤ◌ ◌/ℤ◌ PaymentModel.is_pending
    PaymentModel.is_paid PaymentModel.is_settled PaymentModel.is_expired PaymentModel.is_failed
    PaymentModel.is_active PaymentModel.all_alnum PaymentModel.valid_authority
expiry_ok = refl

expired_one : (get expiry expiry_ok).1 ≡ 1
unfolding is_valid_shipping_method fee decrement increment take_stock restore_stock can_transition
    is_fulfillment is_zarinpal requires_paid_payment is_paid is_refunded is_unpaid is_pending
    is_cancelled is_delivered insert_line cart_lines line_subtotal items_subtotal resolve_coupon
    price item_of nullable_string order_of violates_checks place create_from_cart normalize_code
    check_eligibility calculate_discount find_by_code count_active_redemptions
    count_active_redemptions_for_user eligible insert_redemption release_redemption_for_order
    decimal_from decimal event_key event_key_for_order_status event_key_for_return_request
    event_key_for_refund enqueue_tx event_of kind_of_status order_event_tx notify rune_len byte_len
    text_eq is_space trim_left trim_right trim_space payment_blocks_cancellation items_of give_back
    move cancel_part settle advance update_status cancel_own cancel_own_order is_expirable
    expire_one expire_all expiring expire_reservations ◌+ℤ◌ ◌-ℤ◌ ◌*ℤ◌ ◌/ℤ◌ PaymentModel.is_pending
    PaymentModel.is_paid PaymentModel.is_settled PaymentModel.is_expired PaymentModel.is_failed
    PaymentModel.is_active PaymentModel.all_alnum PaymentModel.valid_authority
expired_one = refl

sold_keyed : KeyedOrders sold.orders
unfolding is_valid_shipping_method fee decrement increment take_stock restore_stock can_transition
    is_fulfillment is_zarinpal requires_paid_payment is_paid is_refunded is_unpaid is_pending
    is_cancelled is_delivered insert_line cart_lines line_subtotal items_subtotal resolve_coupon
    price item_of nullable_string order_of violates_checks place create_from_cart normalize_code
    check_eligibility calculate_discount find_by_code count_active_redemptions
    count_active_redemptions_for_user eligible insert_redemption release_redemption_for_order
    decimal_from decimal event_key event_key_for_order_status event_key_for_return_request
    event_key_for_refund enqueue_tx event_of kind_of_status order_event_tx notify rune_len byte_len
    text_eq is_space trim_left trim_right trim_space payment_blocks_cancellation items_of give_back
    move cancel_part settle advance update_status cancel_own cancel_own_order is_expirable
    expire_one expire_all expiring expire_reservations ◌+ℤ◌ ◌-ℤ◌ ◌*ℤ◌ ◌/ℤ◌ PaymentModel.is_pending
    PaymentModel.is_paid PaymentModel.is_settled PaymentModel.is_expired PaymentModel.is_failed
    PaymentModel.is_active PaymentModel.all_alnum PaymentModel.valid_authority
sold_keyed = (refl, tt)

expire_reservations-Conserves_example : Conserves sold (get expiry expiry_ok).0
expire_reservations-Conserves_example =
    expire_reservations-Conserves shop (λ o. false) 2000 sold (get expiry expiry_ok).0
      (get expiry expiry_ok).1 sold_keyed sold-Linked (get_lem expiry expiry_ok)
