-- ===== src/System/Reachable.antt =====
-- Whatever calls are made, a cancelled order is never paid or refunded.
use plant_shop.System.{
  Step, Steps, start, onward, checks_out, advances, cancels, expires, asks_to_pay,
  returns_from_gateway, is_checked, cleans_up, refunds,
}
use plant_shop.System.Orders.{WellFormed, Change, Change-WellFormed}
use plant_shop.System.Orders.Shop.{
  create_from_cart-Change, update_status-Change, cancel_own_order-Change, refund-Change,
}
use plant_shop.System.Orders.Expiry.{expire_reservations-Change}
use plant_shop.System.Orders.Gateways.{
  request_zarin_pal-Change, callback-Change, reconcile_payment-Change, expire_abandoned-Change,
}
use plant_shop.Store.{Store}
use mathlib.Core.Path.{subst}

Step-Change : (s t : Store) → WellFormed s → Step s t → Change s t
Step-Change s t w (checks_out env user input o h) = create_from_cart-Change env user input s o t h
Step-Change s t w (advances env id st h) = update_status-Change env id st s t h
Step-Change s t w (cancels env user id h) = cancel_own_order-Change env user id s t h
Step-Change s t w (expires env is_locked cutoff n h) =
    expire_reservations-Change env is_locked cutoff s t n w.keyed h
Step-Change s t w (asks_to_pay g env caller raw h) =
    subst (Change s) h (request_zarin_pal-Change g env caller raw s)
Step-Change s t w (returns_from_gateway g env authority status h) =
    subst (Change s) h (callback-Change g env authority status s)
Step-Change s t w (is_checked g env id h) = subst (Change s) h (reconcile_payment-Change g env id s)
Step-Change s t w (cleans_up g env is_earlier cutoff h) =
    subst (Change s) h (expire_abandoned-Change g env is_earlier cutoff s)
Step-Change s t w (refunds env json id st provider_id raw last h) =
    refund-Change env json id st provider_id raw last s t h

-- From a store in which order ids are distinct and below the next one and no cancelled order is
-- paid or refunded, any sequence of checkouts, status changes, cancellations, expiries, payment
-- requests, callbacks, checks, clean-ups and refunds, with any answers of the gateway, leads to a
-- store of which the same holds.
pub Steps-WellFormed : (s t : Store) → WellFormed s → Steps s t → WellFormed t
Steps-WellFormed s t w start = w
Steps-WellFormed s t w (onward {t = m} r d) =
    let v = Steps-WellFormed s m w r in Change-WellFormed (Step-Change m t v d) v
