-- ===== src/Payment/Handler/Requests.antt =====
-- What a request for a payment stores and asks.
use plant_shop.Order.Model.{Order}
use plant_shop.Payment.Model.{Attempt, is_pending}
use plant_shop.Payment.Repository.{
  create_attempt_for_order, check_payable, new_attempt, set_authority, set_authority_to,
}
use plant_shop.Payment.Gateway.{
  Gateway, Client, ClientError, RequestPaymentInput, RequestPaymentOutput,
}
use plant_shop.Payment.Handler.{
  RequestReply, accept_output, request_zarin_pal, payment_of, is_bad_output,
}
use plant_shop.Http.{path_id}
use plant_shop.Store.{Store, Env, find_order, find_attempt, modify_attempt}
use mathlib.Core.Path.{subst}
use plant_shop.Base.Keys.{Below, Below-none}
use plant_shop.Base.{
  ℕ, ◌≡◌, refl, sym, ap, ◌∙◌, inl, inr, true, Option, some, [], ◌∷◌, ◌++◌, arith, ==_refl,
  Bool-cases, Option-cases, Result, ok, err, Result-cases,
}
use plant_shop.Base.Table.{find_key, find-append_none, find-modify_self}
use plant_shop.Text.{Text, codes}
use plant_shop.Notification.Model.{decimal}

-- A redirect is the answer for the caller's own order, and a pending attempt over the order's total
-- is then stored under the gateway's authority.
pub record IsStarted (g : Gateway) (caller : Option ℕ) (raw url : Text) (s t : Store) : Type 0 where
  pub user : ℕ
  pub order : Order
  pub attempt : Attempt
  pub authenticated : caller ≡ some user
  pub named : path_id raw ≡ some order.id
  pub found : find_order order.id s.orders ≡ some order
  pub own : order.user_id ≡ user
  pub stored : find_attempt attempt.id t.attempts ≡ some attempt
  pub of_order : attempt.order_id ≡ order.id
  pub full : attempt.amount ≡ order.total
  pub open_attempt : is_pending attempt.status ≡ true
  pub client : Client
  pub output : RequestPaymentOutput
  pub configured : g.client ≡ some client
  pub question : RequestPaymentInput
  pub of_total : question.amount ≡ order.total
  pub names_order : question.description ≡ codes "Order #" ++ decimal order.id
  pub returns_to : question.callback_url ≡ g.callback_url
  pub asked : client.request_payment question ≡ ok output
  pub redirected : output.redirect_url ≡ url
  pub has_key : attempt.authority ≡ some output.authority

-- A new attempt, as it is stored.
record Created (user id : ℕ) (s : Store) (a : Attempt) (u : Store) : Type 0 where
  order : Order
  found : find_order id s.orders ≡ some order
  own : order.user_id ≡ user
  new_row : find_attempt a.id u.attempts ≡ some a
  of_order : a.order_id ≡ order.id
  full : a.amount ≡ order.total
  pending : is_pending a.status ≡ true

create_attempt_for_order-Created :
    (env : Env) (user id : ℕ) (s : Store) (a : Attempt) (u : Store)
    → Below (λ (x : Attempt). x.id) s.next_attempt s.attempts
    → create_attempt_for_order env user id s ≡ ok (a, u)
    → Created user id s a u
unfolding create_attempt_for_order check_payable new_attempt is_pending
create_attempt_for_order-Created env user id s a u b h =
    elim (Option-cases (find_order id s.orders)) [
      | inl n ↦ ground arith
      | inr (o, f) ↦
          let fresh = Below-none (λ (x : Attempt). x.id) s.next_attempt s.attempts b in
          let last =
            find-append_none (λ (x : Attempt). x.id) s.next_attempt s.attempts
              (new_attempt env s.next_attempt o ∷ []) fresh in
          let same_row : a ≡ new_attempt env s.next_attempt o = ground arith in
          let same_table : u.attempts ≡ s.attempts ++ new_attempt env s.next_attempt o ∷ [] =
            ground arith in
          record {
            order = o;
            found = f;
            own = ground arith;
            new_row = rw (same_row, same_table) (last ∙ rw (==_refl s.next_attempt) refl);
            of_order = ground arith;
            full = ground arith;
            pending = ground arith;
          }
    ]

set_authority-stores :
    (env : Env) (authority : Text) (a : Attempt) (u t : Store)
    → find_attempt a.id u.attempts ≡ some a
    → set_authority env a.id authority u ≡ ok t
    → find_attempt a.id t.attempts ≡ some (set_authority_to authority a)
unfolding set_authority
set_authority-stores env authority a u t f h =
    let found =
      find-modify_self (λ (x : Attempt). x.id) a.id (set_authority_to authority) u.attempts a refl
        f in
    let same : t.attempts ≡ modify_attempt a.id (set_authority_to authority) u.attempts =
      ground arith in
    ap (find_attempt a.id) same ∙ found

accept_output-redirect :
    (env : Env) (id : ℕ) (answer : Result ClientError RequestPaymentOutput) (url : Text)
    (u t : Store)
    → accept_output env id u answer ≡ (RequestReply.redirect url, t)
    → (out : RequestPaymentOutput) × (answer ≡ ok out)
      × (out.redirect_url ≡ url)
      × (set_authority env id out.authority u ≡ ok t)
unfolding accept_output
accept_output-redirect env id (err e) url u t h = ground arith
accept_output-redirect env id (ok out) url u t h = elim (Bool-cases (is_bad_output out)) [
  | inl b ↦ ground arith
  | inr b ↦ elim (Result-cases (set_authority env id out.authority u)) [
    | inl (w, e) ↦ (out, refl, ground arith, ground arith)
    | inr (x, e) ↦ ground arith
  ]
]

-- The last step, on the attempt that is created.
accept_output-IsStarted :
    (g : Gateway) (env : Env) (c : Client) (user id : ℕ) (raw url : Text) (s t : Store)
    (a : Attempt) (u : Store)
    → Created user id s a u
    → g.client ≡ some c
    → path_id raw ≡ some id
    → accept_output env a.id u (c.request_payment (payment_of g a)) ≡ (RequestReply.redirect url, t)
    → IsStarted g (some user) raw url s t
accept_output-IsStarted g env c user id raw url s t a u k n p h =
    let (out, e, r, w) = accept_output-redirect env a.id _ url u t h in
    let key = find_key (λ (o : Order). o.id) id s.orders k.order k.found in
    record {
      user = user;
      order = k.order;
      attempt = set_authority_to out.authority a;
      authenticated = refl;
      named = p ∙ ap some (sym key);
      found = ap (λ i. find_order i s.orders) key ∙ k.found;
      own = k.own;
      stored = set_authority-stores env out.authority a u t k.new_row w;
      of_order = k.of_order;
      full = k.full;
      open_attempt = k.pending;
      client = c;
      output = out;
      configured = n;
      question = payment_of g a;
      of_total = k.full;
      names_order = ap (λ i. codes "Order #" ++ decimal i) k.of_order;
      returns_to = refl;
      asked = e;
      redirected = r;
      has_key = refl;
    }

-- If all attempt ids are below the next one, a request for a payment answers with a redirect only
-- if the named order is the caller's; the gateway was then asked for the order's total, under its
-- id and with the callback address, and answered with that redirect, and a pending attempt over
-- the total is stored for the order under the gateway's authority.
pub request_zarin_pal-IsStarted :
    (g : Gateway) (env : Env) (caller : Option ℕ) (raw url : Text) (s t : Store)
    → Below (λ (x : Attempt). x.id) s.next_attempt s.attempts
    → request_zarin_pal g env caller raw s ≡ (RequestReply.redirect url, t)
    → IsStarted g caller raw url s t
unfolding request_zarin_pal
request_zarin_pal-IsStarted g env caller raw url s t b h = elim (Option-cases g.client) [
  | inl n ↦ ground arith
  | inr (c, n) ↦ elim (Option-cases caller) [
    | inl k ↦ ground arith
    | inr (user, k) ↦ elim (Option-cases (path_id raw)) [
      | inl p ↦ ground arith
      | inr (id, p) ↦ elim (Result-cases (create_attempt_for_order env user id s)) [
        | inr (x, e) ↦ ground arith
        | inl ((a, u), e) ↦
            let made = create_attempt_for_order-Created env user id s a u b e in
            subst (λ x. IsStarted g x raw url s t) (sym k)
              (accept_output-IsStarted g env c user id raw url s t a u made n p (ground arith))
      ]
    ]
  ]
]
