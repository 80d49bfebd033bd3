-- ===== src/Examples/Refunds.antt =====
-- A delivered order is returned and refunded.
use plant_shop.Base.{◌≡◌, ◌⊎◌, refl, true, false, none, some, [], ◌∷◌, Result, ok, arith, ◌≢◌}
use plant_shop.Base.Int.{pos}
use plant_shop.Base.Table.{exists?}
use plant_shop.Examples.{shop, opened, is_ok, get, get_lem}
use plant_shop.Notification.Model.{
  decimal_from, decimal, event_key, event_key_for_order_status, event_key_for_return_request,
  event_key_for_refund,
}
use plant_shop.Notification.Outbox.{enqueue_tx, event_of, kind_of_status, order_event_tx, notify}
use plant_shop.Order.Checkout.{nullable_string}
use plant_shop.Order.Model.{
  can_transition, is_fulfillment, is_zarinpal, requires_paid_payment, is_paid, is_refunded,
  is_unpaid, is_pending, is_cancelled, is_delivered, Order, Status, PaymentMethod, PaymentStatus,
}
use plant_shop.Refund.Model as RefundModel
use plant_shop.Refund.Model.{Refund, RefundStatus}
use plant_shop.Refund.Repository as RefundRepository
use plant_shop.Refund.Repository.{Json, set_refunded}
use plant_shop.Refund.Repository.Once.{succeeded_once, succeeded-refunds_order, other-keeps_orders}
use plant_shop.Returns.Model as ReturnsModel
use plant_shop.Returns.Model.{ReturnStatus, ReturnRequest, RequestInput}
use plant_shop.Http.{Access, path_id}
use plant_shop.Returns.Handler as ReturnsHandler
use plant_shop.Returns.Handler.Moves.{Ordered, admin_update_status-Ordered}
use plant_shop.Returns.Repository as ReturnsRepository
use plant_shop.Returns.Repository.{find_return, pays_back}
use plant_shop.Returns.Repository.Flow.{OnePerOrder, create_request-OnePerOrder, refunded-pays_back}
use plant_shop.Store.{Store, find_order}
use plant_shop.Text.{
  rune_len, byte_len, text_eq, is_space, trim_left, trim_right, trim_space, codes, parse_int,
  digits_from,
}
use plant_shop.Refund.Repository.Once as RefundOnce

abbrev delivered_order : Order
delivered_order = record {
  id = 1;
  user_id = 7;
  status = Status.delivered;
  total = pos 41000;
  created_at = 1000;
  delivery = record {
    recipient_name = codes "Ada";
    phone = codes "0912";
    address_line1 = codes "Main 1";
    address_line2 = none;
    city = codes "Shiraz";
    postal_code = codes "71";
    country = codes "Iran";
  };
  shipping_method = codes "standard";
  shipping_fee = pos 500;
  items_subtotal = pos 45000;
  payment_status = PaymentStatus.paid;
  payment_method = PaymentMethod.zarinpal;
  coupon_id = some 1;
  coupon_code = some (codes "SAVE10");
  discount_amount = pos 4500;
  currency = codes "IRR";
  items =
      record { product_id = 1; unit_price = pos 20000; quantity = 2; subtotal = pos 40000 } ∷ [];
}

abbrev delivered : Store
delivered = record opened { orders = delivered_order ∷ []; next_order = 2 }

abbrev wilted : RequestInput
wilted = record { reason = codes "wilted"; customer_note = [] }

abbrev request_run : Result ReturnsRepository.Error (ReturnRequest × Store)
request_run = ReturnsRepository.create_request shop 1 7 wilted delivered

request_ok : is_ok request_run ≡ true
unfolding can_transition is_fulfillment is_zarinpal requires_paid_payment is_paid is_refunded
    is_unpaid is_pending is_cancelled is_delivered nullable_string decimal_from decimal event_key
    event_key_for_order_status event_key_for_return_request event_key_for_refund enqueue_tx event_of
    kind_of_status order_event_tx notify rune_len byte_len text_eq is_space trim_left trim_right
    trim_space ReturnsModel.is_valid_status ReturnsModel.can_transition ReturnsRepository.own_order
    ReturnsRepository.check_eligibility ReturnsRepository.new_request
    ReturnsRepository.violates_checks ReturnsRepository.event_of ReturnsRepository.enqueue_status
    ReturnsRepository.create_request ReturnsRepository.set_return ReturnsRepository.update_status
    RefundModel.is_valid_status RefundModel.can_transition RefundRepository.check_eligibility
    RefundRepository.new_refund RefundRepository.violates_constraints RefundRepository.create
    RefundRepository.read_response RefundRepository.refund_order RefundRepository.event_of
    RefundRepository.enqueue_status RefundRepository.write_status RefundRepository.update_status
request_ok = refl

abbrev request : ReturnRequest
request = (get request_run request_ok).0

abbrev requested : Store
requested = (get request_run request_ok).1

no_returns : OnePerOrder delivered.returns
no_returns order = omega arith

create_request-OnePerOrder_example : OnePerOrder requested.returns
create_request-OnePerOrder_example =
    create_request-OnePerOrder shop 1 7 wilted delivered request requested no_returns
      (get_lem request_run request_ok)

-- The request once the goods are back.
abbrev received : ReturnRequest
received = record {
  id = 1;
  order_id = 1;
  user_id = 7;
  status = ReturnStatus.refund_pending;
  reason = codes "wilted";
  customer_note = none;
  admin_note = none;
  requested_at = 1000;
  reviewed_at = some 1000;
  received_at = some 1000;
}

abbrev returned : Store
returned = record delivered { returns = received ∷ []; next_return = 2 }

abbrev refund_run : Result RefundRepository.Error (Refund × Store)
refund_run = RefundRepository.create 1 (some 1) (pos 41000) PaymentMethod.zarinpal (some 9) returned

refund_ok : is_ok refund_run ≡ true
unfolding can_transition is_fulfillment is_zarinpal requires_paid_payment is_paid is_refunded
    is_unpaid is_pending is_cancelled is_delivered nullable_string decimal_from decimal event_key
    event_key_for_order_status event_key_for_return_request event_key_for_refund enqueue_tx event_of
    kind_of_status order_event_tx notify rune_len byte_len text_eq is_space trim_left trim_right
    trim_space ReturnsModel.is_valid_status ReturnsModel.can_transition ReturnsRepository.own_order
    ReturnsRepository.check_eligibility ReturnsRepository.new_request
    ReturnsRepository.violates_checks ReturnsRepository.event_of ReturnsRepository.enqueue_status
    ReturnsRepository.create_request ReturnsRepository.set_return ReturnsRepository.update_status
    RefundModel.is_valid_status RefundModel.can_transition RefundRepository.check_eligibility
    RefundRepository.new_refund RefundRepository.violates_constraints RefundRepository.create
    RefundRepository.read_response RefundRepository.refund_order RefundRepository.event_of
    RefundRepository.enqueue_status RefundRepository.write_status RefundRepository.update_status
refund_ok = refl

create-Creates_example :
    RefundOnce.Creates 1
      (pos 41000)
      returned
      (get refund_run refund_ok).0
      (get refund_run refund_ok).1
create-Creates_example =
    RefundOnce.create-Creates 1 (some 1) (pos 41000) PaymentMethod.zarinpal (some 9) returned
      (get refund_run refund_ok).0 (get refund_run refund_ok).1 (get_lem refund_run refund_ok)

-- A decoder that reads every response as NULL.
abbrev json : Json
json = record { decode = λ t. some none; is_json = λ t. true }

-- The refund that the provider works on.
abbrev processing : Refund
processing = record {
  id = 1;
  order_id = 1;
  return_request_id = some 1;
  amount = pos 41000;
  payment_method = PaymentMethod.zarinpal;
  status = RefundStatus.processing;
  provider_refund_id = none;
  provider_response = none;
  requested_by_admin_id = some 9;
  last_error = none;
  completed_at = none;
}

abbrev sending : Store
sending = record returned { refunds = processing ∷ []; next_refund = 2 }

abbrev sent_run : Result RefundRepository.Error Store
sent_run = RefundRepository.update_status shop json 1 RefundStatus.succeeded none [] none sending

sent_ok : is_ok sent_run ≡ true
unfolding can_transition is_fulfillment is_zarinpal requires_paid_payment is_paid is_refunded
    is_unpaid is_pending is_cancelled is_delivered nullable_string decimal_from decimal event_key
    event_key_for_order_status event_key_for_return_request event_key_for_refund enqueue_tx event_of
    kind_of_status order_event_tx notify rune_len byte_len text_eq is_space trim_left trim_right
    trim_space ReturnsModel.is_valid_status ReturnsModel.can_transition ReturnsRepository.own_order
    ReturnsRepository.check_eligibility ReturnsRepository.new_request
    ReturnsRepository.violates_checks ReturnsRepository.event_of ReturnsRepository.enqueue_status
    ReturnsRepository.create_request ReturnsRepository.set_return ReturnsRepository.update_status
    RefundModel.is_valid_status RefundModel.can_transition RefundRepository.check_eligibility
    RefundRepository.new_refund RefundRepository.violates_constraints RefundRepository.create
    RefundRepository.read_response RefundRepository.refund_order RefundRepository.event_of
    RefundRepository.enqueue_status RefundRepository.write_status RefundRepository.update_status
sent_ok = refl

abbrev sent : Store
sent = get sent_run sent_ok

sent_is : sent_run ≡ ok sent
sent_is = get_lem sent_run sent_ok

succeeded_once_example :
    RefundRepository.update_status shop json 1 RefundStatus.processing none [] none sent
    ≢ ok sending
succeeded_once_example =
    succeeded_once shop shop json 1 RefundStatus.processing none none [] [] none none sending sent
      sending sent_is

succeeded-refunds_order_example :
    ((is_paid delivered_order.payment_status ≡ true)
      × (find_order 1 sent.orders
          ≡ some (record delivered_order { payment_status = PaymentStatus.refunded })))
    ⊎ ((is_paid delivered_order.payment_status ≡ false)
        × (find_order 1 sent.orders ≡ some delivered_order))
succeeded-refunds_order_example =
    succeeded-refunds_order shop json 1 none [] none sending sent processing delivered_order sent_is
      refl refl

abbrev review_run : Result RefundRepository.Error Store
review_run =
    RefundRepository.update_status shop json 1 RefundStatus.manual_review none [] none sending

review_ok : is_ok review_run ≡ true
unfolding can_transition is_fulfillment is_zarinpal requires_paid_payment is_paid is_refunded
    is_unpaid is_pending is_cancelled is_delivered nullable_string decimal_from decimal event_key
    event_key_for_order_status event_key_for_return_request event_key_for_refund enqueue_tx event_of
    kind_of_status order_event_tx notify rune_len byte_len text_eq is_space trim_left trim_right
    trim_space ReturnsModel.is_valid_status ReturnsModel.can_transition ReturnsRepository.own_order
    ReturnsRepository.check_eligibility ReturnsRepository.new_request
    ReturnsRepository.violates_checks ReturnsRepository.event_of ReturnsRepository.enqueue_status
    ReturnsRepository.create_request ReturnsRepository.set_return ReturnsRepository.update_status
    RefundModel.is_valid_status RefundModel.can_transition RefundRepository.check_eligibility
    RefundRepository.new_refund RefundRepository.violates_constraints RefundRepository.create
    RefundRepository.read_response RefundRepository.refund_order RefundRepository.event_of
    RefundRepository.enqueue_status RefundRepository.write_status RefundRepository.update_status
review_ok = refl

other-keeps_orders_example : (get review_run review_ok).orders ≡ sending.orders
other-keeps_orders_example =
    other-keeps_orders shop json 1 RefundStatus.manual_review none [] none sending
      (get review_run review_ok) refl (get_lem review_run review_ok)

-- The refund has succeeded, and so may the request.
abbrev repaid : Store
repaid = record sending { refunds = record processing { status = RefundStatus.succeeded } ∷ [] }

abbrev closed_run : Result ReturnsRepository.Error Store
closed_run = ReturnsRepository.update_status shop 1 ReturnStatus.refunded none repaid

closed_ok : is_ok closed_run ≡ true
unfolding can_transition is_fulfillment is_zarinpal requires_paid_payment is_paid is_refunded
    is_unpaid is_pending is_cancelled is_delivered nullable_string decimal_from decimal event_key
    event_key_for_order_status event_key_for_return_request event_key_for_refund enqueue_tx event_of
    kind_of_status order_event_tx notify rune_len byte_len text_eq is_space trim_left trim_right
    trim_space ReturnsModel.is_valid_status ReturnsModel.can_transition ReturnsRepository.own_order
    ReturnsRepository.check_eligibility ReturnsRepository.new_request
    ReturnsRepository.violates_checks ReturnsRepository.event_of ReturnsRepository.enqueue_status
    ReturnsRepository.create_request ReturnsRepository.set_return ReturnsRepository.update_status
    RefundModel.is_valid_status RefundModel.can_transition RefundRepository.check_eligibility
    RefundRepository.new_refund RefundRepository.violates_constraints RefundRepository.create
    RefundRepository.read_response RefundRepository.refund_order RefundRepository.event_of
    RefundRepository.enqueue_status RefundRepository.write_status RefundRepository.update_status
closed_ok = refl

refunded-pays_back_example :
    (r : ReturnRequest) × (find_return 1 repaid.returns ≡ some r)
    × (ReturnsModel.can_transition r.status ReturnStatus.refunded ≡ true)
    × (exists? (pays_back r.order_id) repaid.refunds ≡ true)
refunded-pays_back_example =
    refunded-pays_back shop 1 none repaid (get closed_run closed_ok) (get_lem closed_run closed_ok)

-- The administrator closes the request through the handler.
abbrev closing : ReturnsHandler.Reply × Store
closing =
    ReturnsHandler.admin_update_status shop (Access.admin 9) (codes "1")
      (some (ReturnStatus.refunded, codes "done")) repaid

abbrev closed_request : ReturnRequest
closed_request = record received {
  status = ReturnStatus.refunded;
  admin_note = some (codes "done");
}

closing_lem : closing ≡ (ReturnsHandler.return_reply 200 closed_request, closing.1)
unfolding can_transition is_fulfillment is_zarinpal requires_paid_payment is_paid is_refunded
    is_unpaid is_pending is_cancelled is_delivered nullable_string decimal_from decimal event_key
    event_key_for_order_status event_key_for_return_request event_key_for_refund enqueue_tx event_of
    kind_of_status order_event_tx notify rune_len byte_len text_eq is_space trim_left trim_right
    trim_space ReturnsModel.is_valid_status ReturnsModel.can_transition ReturnsRepository.own_order
    ReturnsRepository.check_eligibility ReturnsRepository.new_request
    ReturnsRepository.violates_checks ReturnsRepository.event_of ReturnsRepository.enqueue_status
    ReturnsRepository.create_request ReturnsRepository.set_return ReturnsRepository.update_status
    RefundModel.is_valid_status RefundModel.can_transition RefundRepository.check_eligibility
    RefundRepository.new_refund RefundRepository.violates_constraints RefundRepository.create
    RefundRepository.read_response RefundRepository.refund_order RefundRepository.event_of
    RefundRepository.enqueue_status RefundRepository.write_status RefundRepository.update_status
    ReturnsHandler.admin_update_status ReturnsHandler.transition path_id parse_int digits_from
closing_lem = refl

admin_update_status-Ordered_example :
    Ordered
      (Access.admin 9)
      (codes "1")
      (some (ReturnStatus.refunded, codes "done"))
      repaid
      closing.1
      closed_request
admin_update_status-Ordered_example =
    admin_update_status-Ordered shop (Access.admin 9) (codes "1")
      (some (ReturnStatus.refunded, codes "done")) repaid closing.1 200 closed_request closing_lem
