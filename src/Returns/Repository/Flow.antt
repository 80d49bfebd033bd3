-- ===== src/Returns/Repository/Flow.antt =====
-- The way of a return request: one request for an order, and "refunded" only after the money moved.
use plant_shop.Returns.Model.{ReturnRequest, ReturnStatus, RequestInput, can_transition}
use plant_shop.Notification.Outbox.{enqueue_tx}
use plant_shop.Returns.Repository.{
  Error, find_return, return_of, check_eligibility, new_request, enqueue_status, create_request,
  pays_back, update_status,
}
use plant_shop.Store.{Store, Env}
use plant_shop.Base.{
  ℕ, ◌≤◌, ◌≡◌, inl, inr, true, false, Option, none, some, List, [], ◌∷◌, ◌++◌, arith, ◌==◌,
  Bool-cases, Option-cases, ok, err,
}
use plant_shop.Base.Table.{exists?, count, count-no_row, count-append}
use plant_shop.Text.{Text}

-- `CreateRequest` goes as `CheckEligibility` says.
pub create_request-eligible :
    (env : Env) (id user : ℕ) (input : RequestInput) (s : Store) (r : ReturnRequest) (t : Store)
    → create_request env id user input s ≡ ok (r, t)
    → check_eligibility id user s ≡ none
unfolding create_request check_eligibility
create_request-eligible env id user input s r t h = ground arith

-- Where the eligibility check reports an error for an order and a user, creating a return request
-- fails with the same error.
pub ineligible-create_request :
    (env : Env) (id user : ℕ) (input : RequestInput) (s : Store) (e : Error)
    → check_eligibility id user s ≡ some e
    → create_request env id user input s ≡ err e
unfolding create_request check_eligibility
ineligible-create_request env id user input s e h = ground arith

-- A return request is moved to refunded only if it is in the store, the machine permits it from
-- its status, and a refund of its order has succeeded.
pub refunded-pays_back :
    (env : Env) (id : ℕ) (text : Option Text) (s t : Store)
    → update_status env id ReturnStatus.refunded text s ≡ ok t
    → (r : ReturnRequest) × (find_return id s.returns ≡ some r)
      × (can_transition r.status ReturnStatus.refunded ≡ true)
      × (exists? (pays_back r.order_id) s.refunds ≡ true)
unfolding update_status
refunded-pays_back env id text s t h = elim (Option-cases (find_return id s.returns)) [
  | inl n ↦ ground arith
  | inr (r, e) ↦ (r, e, ground arith, ground arith)
]

-- At most one request for an order.
abbrev pub OnePerOrder : List ReturnRequest → Type 0
OnePerOrder rs = (order : ℕ) → count (return_of order) rs ≤ 1

create_request-returns :
    (env : Env) (id user : ℕ) (input : RequestInput) (s : Store) (r : ReturnRequest) (t : Store)
    → create_request env id user input s ≡ ok (r, t)
    → (exists? (return_of id) s.returns ≡ false)
      × (t.returns ≡ s.returns ++ r ∷ [])
      × (r.order_id ≡ id)
unfolding create_request enqueue_status enqueue_tx new_request
create_request-returns env id user input s r t h = (ground arith, ground arith, ground arith)

-- If there is at most one return request for each order, there is at most one after a request is
-- created.
pub create_request-OnePerOrder :
    (env : Env) (id user : ℕ) (input : RequestInput) (s : Store) (r : ReturnRequest) (t : Store)
    → OnePerOrder s.returns
    → create_request env id user input s ≡ ok (r, t)
    → OnePerOrder t.returns
create_request-OnePerOrder env id user input s r t one h order =
    let (none_yet, es, at) = create_request-returns env id user input s r t h in
    let z = count-no_row (return_of id) s.returns none_yet in
    let a = count-append (return_of order) s.returns (r ∷ []) in
    elim (Bool-cases (id == order)) [
      | inl k ↦ ground (arith, one order)
      | inr k ↦ ground (arith, one order)
    ]
