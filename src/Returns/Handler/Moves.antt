-- ===== src/Returns/Handler/Moves.antt =====
-- What an administrator's status change does to the return requests.
use plant_shop.Http.{Access, path_id}
use plant_shop.Returns.Model.{ReturnRequest, ReturnStatus, can_transition, is_refunded}
use plant_shop.Returns.Repository.{
  find_return, modify_return, set_return, pays_back, enqueue_status, update_status,
}
use plant_shop.Returns.Handler.{return_reply, transition, admin_update_status}
use plant_shop.Notification.Outbox.{enqueue_tx}
use plant_shop.Store.{Store, Env}
use plant_shop.Base.{
  ℕ, ◌≡◌, refl, ap, ◌∙◌, ◌⊎◌, inl, inr, Bool, true, false, not, ◌&&◌, Option, none, some, List,
  arith, ◌==◌, if◌then◌else◌, ==_refl, Bool-cases, Option-cases, ok, Result-cases,
}
use plant_shop.Base.Table.{exists?, find_key, find-modify_self, find-modify_ne}
use plant_shop.Text.{Text}

-- The way of a return request.
pub data Leads : ReturnStatus → ReturnStatus → Type 0 where
  to_approved : Leads ReturnStatus.requested ReturnStatus.approved
  to_rejected : Leads ReturnStatus.requested ReturnStatus.rejected
  to_received : Leads ReturnStatus.approved ReturnStatus.received
  to_pending : Leads ReturnStatus.received ReturnStatus.refund_pending
  to_refunded : Leads ReturnStatus.refund_pending ReturnStatus.refunded
  to_failed : Leads ReturnStatus.refund_pending ReturnStatus.refund_failed

can_transition-Leads : (p q : ReturnStatus) → can_transition p q ≡ true → Leads p q
unfolding can_transition
can_transition-Leads ReturnStatus.requested ReturnStatus.approved h = to_approved
can_transition-Leads ReturnStatus.requested ReturnStatus.rejected h = to_rejected
can_transition-Leads ReturnStatus.approved ReturnStatus.received h = to_received
can_transition-Leads ReturnStatus.received ReturnStatus.refund_pending h = to_pending
can_transition-Leads ReturnStatus.refund_pending ReturnStatus.refunded h = to_refunded
can_transition-Leads ReturnStatus.refund_pending ReturnStatus.refund_failed h = to_failed
can_transition-Leads p q h = absurd (ground arith)

-- A request moved to a status with a note: its own step, with nothing but its status, the administrator's note and the
-- times of review changed, and no other request, order or refund.
pub record Moved (id : ℕ) (st : ReturnStatus) (note : Text) (s t : Store) (r : ReturnRequest)
    : Type 0 where
  pub before : ReturnRequest
  pub found : find_return id s.returns ≡ some before
  pub leads : Leads before.status st
  pub paid_back : (is_refunded st ≡ false) ⊎ (exists? (pays_back before.order_id) s.refunds ≡ true)
  pub status : r.status ≡ st
  pub noted : r.admin_note ≡ some note
  pub of_order : r.order_id ≡ before.order_id
  pub of_user : r.user_id ≡ before.user_id
  pub for_reason : r.reason ≡ before.reason
  pub customer : r.customer_note ≡ before.customer_note
  pub table :
      (j : ℕ) → find_return j t.returns ≡ (if j == id then some r else find_return j s.returns)
  pub orders : t.orders ≡ s.orders
  pub refunds : t.refunds ≡ s.refunds

-- The administrator's request that asked for it.
pub record Ordered (access : Access) (raw : Text) (body : Option (ReturnStatus × Text))
    (s t : Store) (r : ReturnRequest) : Type 0 where
  pub admin : ℕ
  pub id : ℕ
  pub asked : ReturnStatus
  pub note : Text
  pub authorized : access ≡ Access.admin admin
  pub named : path_id raw ≡ some id
  pub decoded : body ≡ some (asked, note)
  pub moved : Moved id asked note s t r

-- A successful `UpdateStatus`.
record Written (env : Env) (id : ℕ) (st : ReturnStatus) (note : Option Text) (s t : Store)
    : Type 0 where
  before : ReturnRequest
  found : find_return id s.returns ≡ some before
  allowed : can_transition before.status st ≡ true
  paid_back : (is_refunded st && not (exists? (pays_back before.order_id) s.refunds)) ≡ false
  returns : t.returns ≡ modify_return id (set_return st note env.now) s.returns
  orders : t.orders ≡ s.orders
  refunds : t.refunds ≡ s.refunds

update_status-Written :
    (env : Env) (id : ℕ) (st : ReturnStatus) (text : Option Text) (s t : Store)
    → update_status env id st text s ≡ ok t
    → Written env id st text s t
unfolding update_status enqueue_status enqueue_tx
update_status-Written env id st text s t h = elim (Option-cases (find_return id s.returns)) [
  | inl n ↦ absurd (ground arith)
  | inr (r, e) ↦ record {
    before = r;
    found = e;
    allowed = ground arith;
    paid_back = ground arith;
    returns = ground arith;
    orders = ground arith;
    refunds = ground arith;
  }
]

set_return-kept :
    (st : ReturnStatus) (text : Option Text) (now : ℕ) (r : ReturnRequest)
    → ((set_return st text now r).id ≡ r.id)
      × ((set_return st text now r).status ≡ st)
      × ((set_return st text now r).admin_note ≡ text)
      × ((set_return st text now r).order_id ≡ r.order_id)
      × ((set_return st text now r).user_id ≡ r.user_id)
      × ((set_return st text now r).reason ≡ r.reason)
      × ((set_return st text now r).customer_note ≡ r.customer_note)
unfolding set_return
set_return-kept st text now r = (
  ground arith,
  ground arith,
  ground arith,
  ground arith,
  ground arith,
  ground arith,
  ground arith,
)

modify-table :
    (id j : ℕ) (f : ReturnRequest → ReturnRequest) (rows : List ReturnRequest) (r : ReturnRequest)
    → ((x : ReturnRequest) → (f x).id ≡ x.id)
    → find_return id rows ≡ some r
    → find_return j (modify_return id f rows) ≡ (if j == id then some (f r) else find_return j rows)
modify-table id j f rows r same h =
    let key = λ (x : ReturnRequest). x.id in
    elim (Bool-cases (j == id)) [
      | inl e ↦
          let at : j ≡ id = ground arith in
          rw (e, at) (find-modify_self key id f rows r (same r ∙ find_key key id rows r h) h)
      | inr e ↦ rw e (find-modify_ne key id j f rows same (ground arith))
    ]

refunded_or :
    (st : ReturnStatus) (b : Bool)
    → (is_refunded st && not b) ≡ false
    → (is_refunded st ≡ false) ⊎ (b ≡ true)
refunded_or st b h = elim (Bool-cases b) [ inl e ↦ inr e | inr e ↦ inl (ground arith) ]

Written-Moved :
    (env : Env) (id : ℕ) (st : ReturnStatus) (note : Text) (s t : Store) (r : ReturnRequest)
    → Written env id st (some note) s t
    → find_return id t.returns ≡ some r
    → Moved id st note s t r
Written-Moved env id st note s t r w h =
    let f = set_return st (some note) env.now in
    let table = λ (j : ℕ).
      ap (find_return j) w.returns
      ∙ modify-table id j f s.returns w.before (λ x. (set_return-kept st (some note) env.now x).0)
          w.found in
    let here = table id in
    let own = ==_refl id in
    let same : r ≡ f w.before = ground arith in
    let (_, k1, k2, k3, k4, k5, k6) = set_return-kept st (some note) env.now w.before in
    let settled : (is_refunded st ≡ false)
        ⊎ (exists? (pays_back w.before.order_id) s.refunds ≡ true) =
      refunded_or st (exists? (pays_back w.before.order_id) s.refunds) w.paid_back in
    rw same (record {
      before = w.before;
      found = w.found;
      leads = can_transition-Leads w.before.status st w.allowed;
      paid_back = settled;
      status = k1;
      noted = k2;
      of_order = k3;
      of_user = k4;
      for_reason = k5;
      customer = k6;
      table = table;
      orders = w.orders;
      refunds = w.refunds;
    })

-- A status change that is answered with a return request is an administrator's and names a request
-- in the store; the asked status is one of the six steps from the request's, to refunded only
-- behind a succeeded refund of its order; the answered request has the asked status and note, and
-- its order, user, reason and customer's note as before; it is the stored one, and no other
-- request, no order and no refund is changed.
pub admin_update_status-Ordered :
    (env : Env) (access : Access) (raw : Text) (body : Option (ReturnStatus × Text)) (s t : Store)
    (code : ℕ) (r : ReturnRequest)
    → admin_update_status env access raw body s ≡ (return_reply code r, t)
    → Ordered access raw body s t r
unfolding admin_update_status transition
admin_update_status-Ordered env Access.forbidden raw body s t code r h = absurd (ground arith)
admin_update_status-Ordered env Access.unauthorized raw body s t code r h = absurd (ground arith)
admin_update_status-Ordered env (Access.admin a) raw none s t code r h = absurd (ground arith)
admin_update_status-Ordered env (Access.admin a) raw (some (st, note)) s t code r h =
    elim (Option-cases (path_id raw)) [
      | inl n ↦ absurd (ground arith)
      | inr (id, p) ↦ elim (Result-cases (update_status env id st (some note) s)) [
        | inr (e, u) ↦ absurd (ground arith)
        | inl (v, u) ↦ elim (Option-cases (find_return id v.returns)) [
          | inl n ↦ absurd (ground arith)
          | inr (q, f) ↦
              let same_store : t ≡ v = ground arith in
              let same_row : r ≡ q = ground arith in
              record {
                admin = a;
                id = id;
                asked = st;
                note = note;
                authorized = refl;
                named = p;
                decoded = refl;
                moved =
                    rw (same_store, same_row)
                      (Written-Moved env id st note s v q
                        (update_status-Written env id st (some note) s v u) f);
              }
        ]
      ]
    ]
