-- ===== src/Examples/Refunding.antt =====
-- A returned order whose refund is pending: an administrator starts it, twice.
use plant_shop.Examples.{shop, opened}
use plant_shop.Http.{Access}
use plant_shop.Order.Model.{PaymentMethod}
use plant_shop.Refund.Model.{RefundStatus}
use plant_shop.Refund.Repository.{Json}
use plant_shop.Refund.Handler.{Provider, zarinpal_refund, admin_refund}
use plant_shop.Refund.Handler.Exclusive.{admin_refund-once}
use plant_shop.Returns.Model.{ReturnStatus}
use plant_shop.Store.{Store}
use plant_shop.Base.{◌≡◌, ◌⊎◌, refl, true, none, some, [], ◌∷◌}
use plant_shop.Base.Int.{pos}
use plant_shop.Text.{codes}

abbrev json : Json
json = record { decode = λ t. some (some t); is_json = λ t. true }

abbrev provider : Provider
provider = record { refund = zarinpal_refund; marshal = λ r. codes "{}" }

abbrev returned : Store
returned = record opened {
  returns =
      record {
        id = 1;
        order_id = 1;
        user_id = 7;
        status = ReturnStatus.received;
        reason = codes "wilted";
        customer_note = none;
        admin_note = none;
        requested_at = 2000;
        reviewed_at = some 2100;
        received_at = some 2200;
      }
      ∷ [];
  refunds =
      record {
        id = 1;
        order_id = 1;
        return_request_id = some 1;
        amount = pos 41000;
        payment_method = PaymentMethod.zarinpal;
        status = RefundStatus.pending;
        provider_refund_id = none;
        provider_response = none;
        requested_by_admin_id = some 1;
        last_error = none;
        completed_at = none;
      }
      ∷ [];
}

admin_refund-once_example :
    ((admin_refund shop json provider (Access.admin 1) (codes "1") returned).calls ≡ [])
    ⊎ ((admin_refund shop json provider
          (Access.admin 2)
          (codes "1")
          (admin_refund shop json provider (Access.admin 1) (codes "1") returned).store).calls
        ≡ [])
admin_refund-once_example =
    admin_refund-once shop shop json json provider provider (Access.admin 1) (Access.admin 2)
      (codes "1") returned (refl, tt)
