-- ===== src/Refund/Requests.antt =====
-- The administrator's other requests on refunds (backend/internal/refund/handler.go): the lookups, and the status
-- change with a body that the JSON decoder returns.
use plant_shop.Http.{Access, path_id}
use plant_shop.Refund.Model.{Refund, RefundStatus, is_valid_status}
use plant_shop.Refund.Repository.{Error, Json, find_refund, refund_of, update_status}
use plant_shop.Refund.Handler.{Reply, refund_reply, error_reply, reply_refund}
use plant_shop.Store.{Store, Env}
use plant_shop.Base.{ℕ, not, Option, none, some, if◌then◌else◌, Result, ok, err}
use plant_shop.Base.Table.{select_one}
use plant_shop.Text.{Text}

-- `updateStatusInput`.
record UpdateStatusInput : Type 0 where
  status : RefundStatus
  provider_refund_id : Option Text
  provider_response : Text
  last_error : Option Text

abbrev found_reply : Option Refund → Reply
found_reply none = error_reply 404
found_reply (some f) = refund_reply f

-- `AdminGetByID`; a stored response always decodes, since its column holds JSON.
unfoldable admin_get_by_id : Access → Text → Store → Reply
admin_get_by_id Access.forbidden raw s = error_reply 403
admin_get_by_id Access.unauthorized raw s = error_reply 401
admin_get_by_id (Access.admin a) raw s = elim (path_id raw) [
  | none ↦ error_reply 400
  | some id ↦ found_reply (find_refund id s.refunds)
]

-- `AdminGetByOrder`.
unfoldable admin_get_by_order : Access → Text → Store → Reply
admin_get_by_order Access.forbidden raw s = error_reply 403
admin_get_by_order Access.unauthorized raw s = error_reply 401
admin_get_by_order (Access.admin a) raw s = elim (path_id raw) [
  | none ↦ error_reply 400
  | some id ↦ found_reply (select_one (refund_of id) s.refunds)
]

-- The status of an error of `UpdateStatus`.
unfoldable update_code : Error → ℕ
update_code Error.refund_not_found = 404
update_code Error.refund_invalid_status = 400
update_code Error.refund_invalid_transition = 409
update_code _ = 500

abbrev updated_reply : ℕ → Store → Result Error Store → Reply × Store
updated_reply id s (err e) = (error_reply (update_code e), s)
updated_reply id s (ok t) = (reply_refund id t, t)

-- `AdminUpdateStatus`.
unfoldable admin_update_status :
    Env → Json → Access → Text → Option UpdateStatusInput → Store → Reply × Store
admin_update_status env json Access.forbidden raw body s = (error_reply 403, s)
admin_update_status env json Access.unauthorized raw body s = (error_reply 401, s)
admin_update_status env json (Access.admin a) raw body s = elim (path_id raw) [
  | none ↦ (error_reply 400, s)
  | some id ↦ elim body [
    | none ↦ (error_reply 400, s)
    | some i ↦
        if not (is_valid_status i.status)
        then (error_reply 400, s)
        else updated_reply id s (
            update_status env json id i.status i.provider_refund_id i.provider_response i.last_error
              s)
  ]
]
