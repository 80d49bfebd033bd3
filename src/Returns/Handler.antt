-- ===== src/Returns/Handler.antt =====
-- The handlers of return requests (backend/internal/return/handler.go). The user that `Authenticate` finds, the
-- rights of the caller and the body that the JSON decoder returns are parameters.
pub mod Moves
use plant_shop.Http.{Access, path_id}
use plant_shop.Returns.Model.{ReturnRequest, ReturnStatus, RequestInput, is_valid_status, validate}
use plant_shop.Returns.Repository.{
  Error, find_return, own_order, return_of, create_request, update_status,
}
use plant_shop.Store.{Store, Env}
use plant_shop.Base.{
  ℕ, zero, suc, ◌+◌, ◌-◌, ◌*◌, ◌/◌, ◌%◌, ◌^◌, ◌≤◌, ◌<◌, min, ◌≡◌, refl, sym, ap, ◌∙◌, ◌≢◌, ◌↔◌, ◌⊎◌,
  inl, inr, Bool, true, false, not, ◌&&◌, ◌||◌, Option, none, some, List, [], ◌∷◌, ◌++◌, map, arith,
  ltb, leb, ◌==◌, if◌then◌else◌, ==_iff, ==_refl, Bool-cases, Option-cases, is_some, All, length,
  take, Result, ok, err, ◌>>=◌, ◌>>◌, fail_if, >>=-eq-ok, fail_if-eq-ok, Result-cases,
}
use plant_shop.Base.Sort.{sort_by}
use plant_shop.Base.Table.{
  exists?, count, select, select_one, update_where, sum_by, sum_by-append, count-append, find,
  modify, find_key, find-append_none, find-append_some, find-modify_self, find-modify-none,
  find-modify_ne, sum_by-modify, All-select_one, All-append, All-find, All-modify, All-select,
  count-no_row, count-modify, exists?-append, select_one-append_new, select_one-append_other,
  select_one-modify_other,
}
use plant_shop.Text.{Text}

pub data Reply : Type 0 where
  return_reply : ℕ → ReturnRequest → Reply
  error_reply : ℕ → Reply

-- The status of an error of `CreateRequest`.
unfoldable create_status : Error → ℕ
create_status Error.return_request_not_found = 404
create_status Error.return_already_exists = 409
create_status Error.return_not_eligible = 409
create_status _ = 500

abbrev created_reply : Store → Result Error (ReturnRequest × Store) → Reply × Store
created_reply s (err e) = (error_reply (create_status e), s)
created_reply s (ok (r, t)) = (return_reply 201 r, t)

-- `Handler.Create` behind the check of the path; the order is looked up before the body is read.
unfoldable create_own : Env → ℕ → ℕ → Option RequestInput → Store → Reply × Store
create_own env id user body s = elim (own_order id user s) [
  | none ↦ (error_reply 404, s)
  | some o ↦ elim body [
    | none ↦ (error_reply 400, s)
    | some i ↦ elim (validate i) [
      | some e ↦ (error_reply 400, s)
      | none ↦ created_reply s (create_request env id user i s)
    ]
  ]
]

-- `Handler.Create`.
unfoldable create_return : Env → Option ℕ → Text → Option RequestInput → Store → Reply × Store
unfolding create_own
create_return env none raw body s = (error_reply 401, s)
create_return env (some user) raw body s = elim (path_id raw) [
  | none ↦ (error_reply 400, s)
  | some id ↦ create_own env id user body s
]

-- `Repository.GetByUserAndOrder`.
unfoldable get_by_user_and_order : ℕ → ℕ → Store → Option ReturnRequest
get_by_user_and_order id user s =
    select_one (λ (r : ReturnRequest). return_of id r && r.user_id == user) s.returns

abbrev found_reply : Option ReturnRequest → Reply
found_reply none = error_reply 404
found_reply (some r) = return_reply 200 r

-- `Handler.GetByID`.
unfoldable get_own_return : Option ℕ → Text → Store → Reply
unfolding get_by_user_and_order
get_own_return none raw s = error_reply 401
get_own_return (some user) raw s = elim (path_id raw) [
  | none ↦ error_reply 400
  | some id ↦ elim (own_order id user s) [
    | none ↦ error_reply 404
    | some o ↦ found_reply (get_by_user_and_order id user s)
  ]
]

-- `AdminGetByID`.
unfoldable admin_get_by_id : Access → Text → Store → Reply
admin_get_by_id Access.forbidden raw s = error_reply 403
admin_get_by_id Access.unauthorized raw s = error_reply 401
admin_get_by_id (Access.admin a) raw s = elim (path_id raw) [
  | none ↦ error_reply 400
  | some id ↦ found_reply (find_return id s.returns)
]

abbrev is_newer : ReturnRequest → ReturnRequest → Bool
is_newer x y = ltb y.id x.id

-- `Repository.ListByUser`.
unfoldable list_by_user : ℕ → Store → List ReturnRequest
list_by_user user s = sort_by is_newer (select (λ (r : ReturnRequest). r.user_id == user) s.returns)

-- `Repository.ListAll`.
unfoldable list_all : Store → List ReturnRequest
list_all s = sort_by is_newer s.returns

-- `AdminList`: the listing, or the status of the error.
unfoldable admin_list : Access → Store → Result ℕ (List ReturnRequest)
admin_list Access.forbidden s = err 403
admin_list Access.unauthorized s = err 401
admin_list (Access.admin a) s = ok (list_all s)

-- The status of an error of `UpdateStatus`.
unfoldable pub update_code : Error → ℕ
update_code Error.return_request_not_found = 404
update_code Error.return_invalid_status = 400
update_code Error.return_invalid_transition = 409
update_code _ = 500

-- The request that a successful `UpdateStatus` returns.
abbrev updated_reply : ℕ → Store → Result Error Store → Reply × Store
updated_reply id s (err e) = (error_reply (update_code e), s)
updated_reply id s (ok t) = elim (find_return id t.returns) [
  | none ↦ (error_reply 500, t)
  | some r ↦ (return_reply 200 r, t)
]

-- The status and the note of a body.
unfoldable pub transition :
    Env → Access → Text → Option (ReturnStatus × Text) → Store → Reply × Store
transition env Access.forbidden raw body s = (error_reply 403, s)
transition env Access.unauthorized raw body s = (error_reply 401, s)
transition env (Access.admin a) raw body s = elim (path_id raw) [
  | none ↦ (error_reply 400, s)
  | some id ↦ elim body [
    | none ↦ (error_reply 400, s)
    | some (st, note) ↦
        if not (is_valid_status st)
        then (error_reply 400, s)
        else updated_reply id s (update_status env id st (some note) s)
  ]
]

-- `AdminUpdateStatus`, with the status and the note of the body.
unfoldable pub admin_update_status :
    Env → Access → Text → Option (ReturnStatus × Text) → Store → Reply × Store
unfolding transition
admin_update_status env access raw body s = transition env access raw body s

-- A body of which only the note is read.
abbrev with_status : ReturnStatus → Option Text → Option (ReturnStatus × Text)
with_status st none = none
with_status st (some note) = some (st, note)

-- `AdminApprove`, `AdminReject` and `AdminReceived` set one status each, which is valid.
unfoldable admin_approve : Env → Access → Text → Option Text → Store → Reply × Store
unfolding transition
admin_approve env access raw note s =
    transition env access raw (with_status ReturnStatus.approved note) s

unfoldable admin_reject : Env → Access → Text → Option Text → Store → Reply × Store
unfolding transition
admin_reject env access raw note s =
    transition env access raw (with_status ReturnStatus.rejected note) s

unfoldable admin_received : Env → Access → Text → Option Text → Store → Reply × Store
unfolding transition
admin_received env access raw note s =
    transition env access raw (with_status ReturnStatus.received note) s
