-- ===== src/Refund/Handler/Exclusive.antt =====
-- The provider is asked only for a pending refund of a returned order, and at most once.
use plant_shop.Order.Model.{Order}
use plant_shop.Returns.Model.{ReturnRequest}
use plant_shop.Returns.Repository.{find_return}
use plant_shop.Refund.Model.{Refund, RefundStatus, is_pending, is_succeeded, can_transition}
use plant_shop.Refund.Repository.{
  Error, Json, find_refund, refund_of, set_refund, update_status, read_response, write_status,
  refund_order, enqueue_status,
}
use plant_shop.Refund.Repository.Once.{update_status-Moves}
use mathlib.Core.Path.{subst}
use plant_shop.Refund.Handler.{
  or_keep, is_manual, RefundResult, Provider, Outcome, input_of, is_refundable,
  load_refundable_return, refund_through, call_provider, settle_refund, succeed, admin_refund,
}
use plant_shop.Notification.Outbox.{enqueue_tx}
use plant_shop.Http.{Access, path_id}
use plant_shop.Base.Keys.{IsKeyed, IsKeyed-modify, select_one-found, select_one-modify}
use plant_shop.Store.{Store, Env, find_order}
use plant_shop.Base.{
  ℕ, ◌≡◌, refl, sym, ◌∙◌, ◌⊎◌, inl, inr, true, false, not, ◌&&◌, Option, none, some, List, [], ◌∷◌,
  arith, Bool-cases, Option-cases, ok, Result-cases,
}
use plant_shop.Base.Table.{select_one}
use plant_shop.Text.{Text, is_empty}

abbrev refund_id : Refund → ℕ
refund_id f = f.id

-- The refund of an order is claimed: it has left the status pending.
pub record IsClaimed (order id : ℕ) (fs : List Refund) : Type 0 where
  pub keyed : IsKeyed refund_id fs
  pub refund : Refund
  pub of_order : select_one (refund_of order) fs ≡ some refund
  pub the_id : refund.id ≡ id
  pub not_pending : is_pending refund.status ≡ false

update_status-returns :
    (env : Env) (json : Json) (id : ℕ) (st : RefundStatus) (p : Option Text) (raw : Text)
    (last : Option Text) (s t : Store)
    → update_status env json id st p raw last s ≡ ok t
    → t.returns ≡ s.returns
unfolding update_status write_status refund_order enqueue_status enqueue_tx
update_status-returns env json id st p raw last s t h =
    elim (Option-cases (find_refund id s.refunds)) [
      | inl n ↦ ground arith
      | inr (r, e) ↦ elim (Result-cases (read_response json raw)) [
        | inl (v, q) ↦ ground arith
        | inr (x, q) ↦ ground arith
      ]
    ]

-- A status change of the order's refund claims it, unless it is to pending, which no rule allows.
update_status-IsClaimed :
    (env : Env) (json : Json) (st : RefundStatus) (p : Option Text) (raw : Text)
    (last : Option Text) (order : ℕ) (f : Refund) (s t : Store)
    → is_pending st ≡ false
    → IsKeyed refund_id s.refunds
    → select_one (refund_of order) s.refunds ≡ some f
    → update_status env json f.id st p raw last s ≡ ok t
    → IsClaimed order f.id t.refunds
update_status-IsClaimed env json st p raw last order f s t n u e h =
    let m = update_status-Moves env json f.id st p raw last s t h in
    let g = set_refund st m.provider_id m.response m.last in
    rw m.refunds (record {
      keyed = IsKeyed-modify refund_id g (λ r. refl) f.id s.refunds u;
      refund = g f;
      of_order =
          select_one-modify refund_id (refund_of order) f.id g s.refunds f (λ r. refl) u refl e;
      the_id = refl;
      not_pending = n;
    })

-- A claimed refund stays claimed.
again-IsClaimed :
    (env : Env) (json : Json) (st : RefundStatus) (p : Option Text) (raw : Text)
    (last : Option Text) (order id : ℕ) (s t : Store)
    → is_pending st ≡ false
    → IsClaimed order id s.refunds
    → update_status env json id st p raw last s ≡ ok t
    → IsClaimed order id t.refunds
again-IsClaimed env json st p raw last order id s t n c h =
    subst (λ i. IsClaimed order i t.refunds) c.the_id
      (update_status-IsClaimed env json st p raw last order c.refund s t n c.keyed c.of_order
        (subst (λ i. update_status env json i st p raw last s ≡ ok t) (sym c.the_id) h))

-- What a step behind the claim keeps.
record Keeps (order id : ℕ) (s t : Store) : Type 0 where
  claimed : IsClaimed order id t.refunds
  returns : t.returns ≡ s.returns

step-Keeps :
    (env : Env) (json : Json) (order id : ℕ) (st : RefundStatus) (p : Option Text) (raw : Text)
    (last : Option Text) (s : Store)
    → is_pending st ≡ false
    → IsClaimed order id s.refunds
    → Keeps order id s (or_keep s (update_status env json id st p raw last s))
step-Keeps env json order id st p raw last s n c =
    elim (Result-cases (update_status env json id st p raw last s)) [
      | inl (t, e) ↦ rw e (record {
        claimed = again-IsClaimed env json st p raw last order id s t n c e;
        returns = update_status-returns env json id st p raw last s t e;
      })
      | inr (x, e) ↦ rw e (record { claimed = c; returns = refl })
    ]

succeed-store :
    (env : Env) (json : Json) (id : ℕ) (p : Option Text) (raw : Text) (code : Error → ℕ) (s : Store)
    → (succeed env json id p raw code s).1
      ≡ or_keep s (update_status env json id RefundStatus.succeeded p raw none s)
unfolding succeed
succeed-store env json id p raw code s = ground arith

succeed-Keeps :
    (env : Env) (json : Json) (order id : ℕ) (p : Option Text) (raw : Text) (code : Error → ℕ)
    (s : Store)
    → IsClaimed order id s.refunds
    → Keeps order id s (succeed env json id p raw code s).1
succeed-Keeps env json order id p raw code s c =
    rw (succeed-store env json id p raw code s)
      (step-Keeps env json order id RefundStatus.succeeded p raw none s refl c)

settle_refund-Keeps :
    (env : Env) (json : Json) (provider : Provider) (order id : ℕ) (a : RefundResult × Option Text)
    (s : Store)
    → IsClaimed order id s.refunds
    → Keeps order id s (settle_refund env json provider id a s).1
unfolding settle_refund
settle_refund-Keeps env json provider order id (r, some e) s c =
    step-Keeps env json order id RefundStatus.manual_review none _ _ s refl c
settle_refund-Keeps env json provider order id (r, none) s c =
    elim (Bool-cases (not r.success && not (is_empty r.error_message))) [
      | inl b ↦ rw b (step-Keeps env json order id RefundStatus.manual_review none _ _ s refl c)
      | inr b ↦ rw b (elim (Bool-cases (not r.success)) [
        | inl d ↦ rw d (step-Keeps env json order id RefundStatus.manual_review none _ _ s refl c)
        | inr d ↦ rw d (succeed-Keeps env json order id _ _ _ s c)
      ])
    ]

-- What a call of the provider is made for, and what the action leaves behind.
pub record Called (raw : Text) (s : Store) (o : Outcome) : Type 0 where
  pub return_id : ℕ
  pub id_read : path_id raw ≡ some return_id
  pub request : ReturnRequest
  pub request_found : find_return return_id s.returns ≡ some request
  pub came_back : is_refundable request.status ≡ true
  pub refund : Refund
  pub refund_found : select_one (refund_of request.order_id) s.refunds ≡ some refund
  pub was_pending : is_pending refund.status ≡ true
  pub order : Order
  pub order_found : find_order request.order_id s.orders ≡ some order
  pub one_call : o.calls ≡ input_of request refund order ∷ []
  pub claimed : IsClaimed request.order_id refund.id o.store.refunds
  pub same_returns : o.store.returns ≡ s.returns

claimable :
    (st : RefundStatus) → can_transition st RefundStatus.processing ≡ true → is_pending st ≡ true
unfolding can_transition
claimable st h = ground arith

-- No call, or the one call for a pending refund, behind which the refund is claimed.
abbrev Calls : ReturnRequest → Refund → Store → Outcome → Type 0
Calls r f s o =
    (o.calls ≡ [])
    ⊎ ((p : Order) × (find_order r.order_id s.orders ≡ some p)
        × (is_pending f.status ≡ true)
        × (o.calls ≡ input_of r f p ∷ [])
        × Keeps r.order_id f.id s o.store)

Keeps-behind :
    (order id : ℕ) (s t u : Store) → t.returns ≡ s.returns → Keeps order id t u → Keeps order id s u
Keeps-behind order id s t u e k = record { claimed = k.claimed; returns = k.returns ∙ e }

call_provider-Calls :
    (env : Env) (json : Json) (provider : Provider) (r : ReturnRequest) (f : Refund) (s t : Store)
    → is_pending f.status ≡ true
    → t.orders ≡ s.orders
    → t.returns ≡ s.returns
    → IsClaimed r.order_id f.id t.refunds
    → Calls r f s (call_provider env json provider r f t)
unfolding call_provider
call_provider-Calls env json provider r f s t n os rs c =
    elim (Option-cases (find_order r.order_id t.orders)) [
      | inl e ↦ inl (rw (call_provider, e) refl)
      | inr (o, e) ↦
          let a = provider.refund (input_of r f o) in
          let found : find_order r.order_id s.orders ≡ some o = rw (← os) e in
          let k =
            Keeps-behind r.order_id f.id s t _ rs
              (settle_refund-Keeps env json provider r.order_id f.id a t c) in
          inr (o, found, n, rw (call_provider, e) refl, rw (call_provider, e) k)
    ]

claimed-Calls :
    (env : Env) (json : Json) (provider : Provider) (r : ReturnRequest) (f : Refund) (s t : Store)
    → IsKeyed refund_id s.refunds
    → select_one (refund_of r.order_id) s.refunds ≡ some f
    → update_status env json f.id RefundStatus.processing none [] none s ≡ ok t
    → Calls r f s (call_provider env json provider r f t)
claimed-Calls env json provider r f s t u e h =
    let m = update_status-Moves env json f.id RefundStatus.processing none [] none s t h in
    let mine = select_one-found refund_id (refund_of r.order_id) s.refunds f u e in
    let found = m.found in
    let same : m.refund ≡ f = ground arith in
    let pending = claimable f.status (
      subst (λ (f : Refund). can_transition f.status RefundStatus.processing ≡ true) same
        m.allowed) in
    call_provider-Calls env json provider r f s t pending m.orders
      (update_status-returns env json f.id RefundStatus.processing none [] none s t h)
      (update_status-IsClaimed env json RefundStatus.processing none [] none r.order_id f s t refl u
        e h)

refund_through-Calls :
    (env : Env) (json : Json) (provider : Provider) (r : ReturnRequest) (f : Refund) (s : Store)
    → IsKeyed refund_id s.refunds
    → select_one (refund_of r.order_id) s.refunds ≡ some f
    → Calls r f s (refund_through env json provider r f s)
unfolding refund_through
refund_through-Calls env json provider r f s u e = elim (Bool-cases (is_manual f.payment_method)) [
  | inl b ↦ rw b (inl refl)
  | inr b ↦ rw b (elim (Bool-cases (is_succeeded f.status)) [
    | inl d ↦ rw d (inl refl)
    | inr d ↦
        rw d
          (elim (Result-cases
            (update_status env json f.id RefundStatus.processing none [] none s)) [
              | inl (t, h) ↦ rw h (claimed-Calls env json provider r f s t u e h)
              | inr (x, h) ↦ rw h (inl refl)
            ])
  ])
]

Calls-Called :
    (raw : Text) (s : Store) (o : Outcome) (id : ℕ) (r : ReturnRequest) (f : Refund)
    → path_id raw ≡ some id
    → find_return id s.returns ≡ some r
    → is_refundable r.status ≡ true
    → select_one (refund_of r.order_id) s.refunds ≡ some f
    → Calls r f s o
    → (o.calls ≡ []) ⊎ Called raw s o
Calls-Called raw s o id r f p q b e (inl n) = inl n
Calls-Called raw s o id r f p q b e (inr (a, found, n, c, k)) = inr (record {
  return_id = id;
  id_read = p;
  request = r;
  request_found = q;
  came_back = b;
  refund = f;
  refund_found = e;
  was_pending = n;
  order = a;
  order_found = found;
  one_call = c;
  claimed = k.claimed;
  same_returns = k.returns;
})

load-parts :
    (id : ℕ) (s : Store) (r : ReturnRequest) (f : Refund)
    → load_refundable_return id s ≡ ok (r, f)
    → (find_return id s.returns ≡ some r)
      × (is_refundable r.status ≡ true)
      × (select_one (refund_of r.order_id) s.refunds ≡ some f)
unfolding load_refundable_return
load-parts id s r f h = (ground arith, ground arith, ground arith)

pub admin_refund-Called :
    (env : Env) (json : Json) (provider : Provider) (access : Access) (raw : Text) (s : Store)
    → IsKeyed (λ (f : Refund). f.id) s.refunds
    → ((admin_refund env json provider access raw s).calls ≡ [])
      ⊎ Called raw s (admin_refund env json provider access raw s)
unfolding admin_refund
admin_refund-Called env json provider Access.forbidden raw s u = inl refl
admin_refund-Called env json provider Access.unauthorized raw s u = inl refl
admin_refund-Called env json provider (Access.admin a) raw s u = elim (Option-cases (path_id raw)) [
  | inl n ↦ rw (admin_refund, n) (inl refl)
  | inr (id, p) ↦
      rw (admin_refund, p)
        (elim (Result-cases (load_refundable_return id s)) [
          | inl ((r, f), h) ↦
              let (q, b, e) = load-parts id s r f h in
              rw (admin_refund, h)
                (Calls-Called raw s _ id r f p q b e
                  (refund_through-Calls env json provider r f s u e))
          | inr (x, h) ↦ rw (admin_refund, h) (inl refl)
        ])
]

-- For a claimed refund the provider is not asked.
claimed-no_call :
    (env : Env) (json : Json) (provider : Provider) (access : Access) (raw : Text) (s : Store)
    (o : Outcome)
    → Called raw s o
    → (admin_refund env json provider access raw o.store).calls ≡ []
claimed-no_call env json provider access raw s o c =
    elim (admin_refund-Called env json provider access raw o.store c.claimed.keyed) [
      | inl n ↦ n
      | inr d ↦
          let a = c.id_read in
          let a' = d.id_read in
          let b = c.request_found in
          let b' : find_return d.return_id s.returns ≡ some d.request =
            rw (← c.same_returns) d.request_found in
          let same : d.request ≡ c.request = ground arith in
          let mine = c.claimed.of_order in
          let theirs =
            subst
              (λ (r : ReturnRequest).
                select_one (refund_of r.order_id) o.store.refunds ≡ some d.refund)
              same d.refund_found in
          let one : d.refund ≡ c.claimed.refund = ground arith in
          let x = c.claimed.not_pending in
          let y = subst (λ (f : Refund). is_pending f.status ≡ true) one d.was_pending in
          absurd (ground arith)
    ]

-- If refund ids are distinct, of two successive calls of the refund action for the same return
-- request at most one calls the provider, whatever the provider answers and whoever calls.
pub admin_refund-once :
    (env env' : Env) (json json' : Json) (provider provider' : Provider) (access access' : Access)
    (raw : Text) (s : Store)
    → IsKeyed (λ (f : Refund). f.id) s.refunds
    → ((admin_refund env json provider access raw s).calls ≡ [])
      ⊎ ((admin_refund env' json' provider' access' raw
            (admin_refund env json provider access raw s).store).calls
          ≡ [])
admin_refund-once env env' json json' provider provider' access access' raw s u =
    elim (admin_refund-Called env json provider access raw s u) [
      | inl n ↦ inl n
      | inr c ↦ inr (
          claimed-no_call env' json' provider' access' raw s
            (admin_refund env json provider access raw s) c)
    ]
