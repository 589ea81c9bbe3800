-- ===== src/Payments/Callbacks.antt =====
-- `payment_webhook` and `platega_callback`: what a gateway's message may do to an order.
pub mod Granted
pub mod Webhook
use vpn_infrastructure_showc.Base.{
  ℕ, String, Bool, true, false, ◌&&◌, ◌||◌, Option, none, some, List, ℤ, leb_ℤ, ◌==◌, str_eq, holds,
  select, if◌then◌else◌,
}
use vpn_infrastructure_showc.Model.{User, Payment, Portal}
use vpn_infrastructure_showc.Exec
use vpn_infrastructure_showc.Exec.{Exec, ok, err, http, ◌>>=◌}
use vpn_infrastructure_showc.Nodes.{Environment}
use vpn_infrastructure_showc.Provisioner.Issue.{State}
use vpn_infrastructure_showc.Provisioner.Activate.{activate_payment}
use vpn_infrastructure_showc.Payments.{Status, Gateways, one_or_none}
use vpn_infrastructure_showc.Payments.Orders.{set_status}

-- the orders with that transaction at Platega
abbrev pub of_transaction : String → Portal → List Payment
of_transaction txn db =
    select
      (λ (p : Payment).
        holds (λ r. str_eq r txn) p.provider_ref && holds (λ v. str_eq v "platega") p.provider)
      db.payments

abbrev pub is_paid : Payment → Bool
is_paid p = str_eq p.status "paid"

-- `int(paid_amount) != int(payment.amount)`, which a missing amount passes too
abbrev pub pays : Option ℤ → Payment → Bool
pays amount p = holds (λ a. leb_ℤ a p.amount && leb_ℤ p.amount a) amount

-- `{"status": ..., "order_id": ...}` of a webhook whose signature was right
pub record Notice : Type 0 where
  pub order_id : Option ℕ
  pub status : Option String

-- `status or "unknown"`
unfoldable pub known_status : Option String → String
known_status none = "unknown"
known_status (some t) = if str_eq t "" then "unknown" else t

module _ (env : Environment) where
  -- the answer to a gateway is the same whether the activation returned true or false
  abbrev pub acknowledged : Exec.Result Bool × State env → Exec.Result (Unit {0}) × State env
  acknowledged (ok done, s) = (ok tt, s)
  acknowledged (err e, s) = (err e, s)

  unfoldable pub activate_for : Payment → ℕ → Option User → Exec (State env) (Unit {0})
  activate_for p now none s = (ok tt, s)
  activate_for p now (some user) s = acknowledged (activate_payment env user p now s)

  -- the user of the order, who may be gone
  unfoldable pub activate_order : Payment → ℕ → Exec (State env) (Unit {0})
  activate_order p now s =
      (one_or_none (select (λ (u : User). u.id == p.user_id) s.db.users) >>= activate_for p now) s

  -- what the status that Platega reports does
  unfoldable pub on_status : Payment → ℕ → Option Status → Exec (State env) (Unit {0})
  on_status p now none s = (err (http 502 "Could not verify"), s)
  on_status p now (some status) s =
      let granted = activate_order p now s in
      if holds (λ t. str_eq t "CONFIRMED") status.status
      then (if pays status.amount p then granted else (ok tt, s))
      else if holds (λ t. str_eq t "CHARGEBACKED") status.status
      then (ok tt, set_status env "chargebacked" p s)
      else if holds (λ t. str_eq t "CANCELED") status.status
      then (ok tt, set_status env "canceled" p s)
      else (ok tt, s)

  unfoldable pub on_answer : Payment → ℕ → Option (Option Status) → Exec (State env) (Unit {0})
  on_answer p now none s = (err (http 502 "Could not verify"), s)
  on_answer p now (some status) s = on_status p now status s

  module _ (gate : Gateways env.World) where
    -- an order that is not paid yet is asked about
    unfoldable pub on_order : String → ℕ → Option Payment → Exec (State env) (Unit {0})
    on_order txn now none s = (ok tt, s)
    on_order txn now (some p) s =
        let (answer, w) = gate.fetch_status txn s.world in
        let asked = on_answer p now answer (record s { world = w }) in
        if is_paid p then (ok tt, s) else asked

    -- `platega_callback`, with whether the secret matched and the transaction of the body
    unfoldable pub platega_callback : Bool → String → ℕ → Exec (State env) (Unit {0})
    platega_callback false txn now s = (err (http 403 "Forbidden"), s)
    platega_callback true txn now s =
        let found = (one_or_none (of_transaction txn s.db) >>= on_order txn now) s in
        if str_eq txn "" then (ok tt, s) else found

  -- the rest of `payment_webhook`, for the order that was found
  unfoldable pub on_notice : Option String → ℕ → Option Payment → Exec (State env) (Unit {0})
  on_notice status now none s = (ok tt, s)
  on_notice status now (some p) s =
      let granted = activate_order p now s in
      if is_paid p
      then (ok tt, s)
      else if holds (λ t. str_eq t "paid" || str_eq t "paid_over") status
      then granted
      else (ok tt, set_status env (known_status status) p s)

  abbrev pub on_order_id : Option ℕ → Option String → ℕ → Exec (State env) (Unit {0})
  on_order_id none status now s = (ok tt, s)
  on_order_id (some order) status now s =
      (one_or_none (select (λ (p : Payment). p.id == order) s.db.payments) >>= on_notice status now)
        s

  -- `payment_webhook`, with what `heleket.verify_webhook` made of the body
  unfoldable pub payment_webhook : Option Notice → ℕ → Exec (State env) (Unit {0})
  payment_webhook none now s = (err (http 400 "Invalid signature"), s)
  payment_webhook (some notice) now s = on_order_id notice.order_id notice.status now s
