-- ===== src/Payments/Orders.antt =====
-- `_open_order` and the two endpoints that send a customer to a gateway's page.
pub mod Sent
pub mod Priced
use vpn_infrastructure_showc.Base.{
  ℕ, suc, max, String, Bool, ◌&&◌, not, Option, none, some, List, [], ◌∷◌, ◌++◌, ltb, str_eq,
  is_none, count, select, ◌||◌, if◌then◌else◌,
}
use vpn_infrastructure_showc.Model.{User, Config, Payment, Portal, save_payment}
use vpn_infrastructure_showc.Exec.{Exec, ok, err, http, failure, ◌>>=◌}
use vpn_infrastructure_showc.Nodes.{Environment}
use vpn_infrastructure_showc.Plans.{Plan, is_on_sale, config_limit}
use vpn_infrastructure_showc.Credit.Codes.{Refusal, refusal_text}
use vpn_infrastructure_showc.Credit.Pricing.{Quote, price_order}
use vpn_infrastructure_showc.Provisioner.Issue.{State}
use vpn_infrastructure_showc.Provisioner.Activate.{commit, paid_devices}
use vpn_infrastructure_showc.Payments.{Created, Gateways, one_or_none}
use vpn_infrastructure_showc.Base.{ℤ}

-- `CreatePaymentRequest`
pub record Request : Type 0 where
  pub plan : String
  pub code : Option String
  pub use_credit : ℤ

-- the devices of the fullest location
unfoldable pub fullest : List Config → List Config → ℕ
fullest [] all_devices = 0
fullest (c ∷ cs) all_devices =
    max (count (λ d. str_eq d.location c.location) all_devices) (fullest cs all_devices)

unfoldable pub held_devices : User → Portal → ℕ
held_devices user db = let devices = paid_devices user db in fullest devices devices

-- an address that letters or messages reach is missing
abbrev pub is_unreachable : User → Bool
is_unreachable user = is_none user.email_verified_at && is_none user.telegram_id

unfoldable pub new_payment : Portal → User → Request → Quote → Plan → ℕ → Payment
new_payment db user req quote plan now = record {
  id = db.next_id;
  user_id = user.id;
  plan = req.plan;
  amount = quote.amount;
  currency = plan.currency;
  status = "pending";
  heleket_invoice_id = none;
  provider = none;
  provider_ref = none;
  promo_code = quote.promo_code;
  credit_spent = quote.credit_spent;
  created_at = now;
  paid_at = none;
}

-- `db.add(payment)`
unfoldable pub add_payment : Payment → Portal → Portal
add_payment p db = record db { next_id = suc db.next_id; payments = db.payments ++ p ∷ [] }

module _ (env : Environment) where
  -- `payment.status = status` and the commit
  unfoldable pub set_status : String → Payment → State env → State env
  set_status status p s =
      commit env (record s { db = save_payment (record p { status = status }) s.db })

  -- a refused code stops the order
  unfoldable pub save_order :
      User → Request → Plan → ℕ → Quote → Option Refusal → Exec (State env) (Payment × Quote)
  save_order user req plan now quote (some reason) s = (err (http 400 (refusal_text reason)), s)
  save_order user req plan now quote none s =
      let p = new_payment s.db user req quote plan now in
      (ok (p, quote), commit env (record s { db = add_payment p s.db }))

  unfoldable pub save_priced :
      User → Request → Plan → ℕ → Option Quote → Exec (State env) (Payment × Quote)
  save_priced user req plan now none s = (err failure, s)
  save_priced user req plan now (some quote) s =
      save_order user req plan now quote quote.promo_refused s

  -- `_open_order`
  unfoldable pub open_order : User → Request → Plan → ℕ → Exec (State env) (Payment × Quote)
  open_order user req plan now s =
      let priced =
        save_priced user req plan now (price_order s.db user req.plan req.code req.use_credit now)
          s in
      if is_unreachable user
      then (err (http 403 "email_not_verified"), s)
      else if ltb (config_limit (some req.plan)) (held_devices user s.db)
      then (err (http 409 "too_many_devices"), s)
      else priced

  -- `_current_user`
  abbrev pub user_or_404 : Option User → Exec (State env) User
  user_or_404 none s = (err (http 404 "User not found"), s)
  user_or_404 (some user) s = (ok user, s)

  unfoldable pub current_user : String → Exec (State env) User
  current_user sub s =
      (one_or_none (select (λ (u : User). str_eq u.username sub) s.db.users) >>= user_or_404) s

  module _ (gate : Gateways env.World) where
    -- the end of `create_payment_platega`: a page and a transaction, or the order is an error
    abbrev pub page_or_error :
        Payment
        → Quote
        → Option String
        → Option String
        → Exec (State env) (String × Payment × Quote)
    page_or_error p quote (some txn) (some url) s =
        if str_eq txn "" || str_eq url ""
        then (err (http 502 "Payment gateway error"), set_status "error" p s)
        else (
          ok (url, record p { provider_ref = some txn }, quote),
          commit env (record s { db = save_payment (record p { provider_ref = some txn }) s.db }),
        )
    page_or_error p quote none url s =
        (err (http 502 "Payment gateway error"), set_status "error" p s)
    page_or_error p quote (some txn) none s =
        (err (http 502 "Payment gateway error"), set_status "error" p s)

    unfoldable pub after_create :
        Payment → Quote → Option Created → Exec (State env) (String × Payment × Quote)
    after_create p quote none s = (err (http 502 "Payment gateway error"), set_status "error" p s)
    after_create p quote (some created) s = page_or_error p quote created.transaction created.url s

    unfoldable pub send_to_platega :
        Plan → Payment × Quote → Exec (State env) (String × Payment × Quote)
    send_to_platega plan (payment, quote) s =
        let p : Payment = record payment { provider = some "platega" } in
        let s1 = commit env (record s { db = save_payment p s.db }) in
        let (answer, w) = gate.create_transaction quote.amount plan.currency p.id s1.world in
        after_create p quote answer (record s1 { world = w })

    unfoldable pub create_on_sale :
        String → Request → ℕ → Option Plan → Exec (State env) (String × Payment × Quote)
    create_on_sale sub req now none s = (err (http 400 "Unknown plan"), s)
    create_on_sale sub req now (some plan) s =
        (current_user sub >>= λ user. open_order user req plan now >>= send_to_platega plan) s

    -- `create_payment_platega`
    unfoldable pub create_payment_platega :
        String → Request → ℕ → Exec (State env) (String × Payment × Quote)
    create_payment_platega sub req now = create_on_sale sub req now (is_on_sale req.plan)

    -- the end of `create_payment`, which asks Heleket
    unfoldable pub after_invoice :
        Payment → Quote → Option Created → Exec (State env) (Option String × Payment × Quote)
    after_invoice p quote none s = (err (http 502 "Payment gateway error"), set_status "error" p s)
    after_invoice p quote (some invoice) s =
        let p' : Payment = record p { heleket_invoice_id = invoice.transaction } in
        (ok (invoice.url, p', quote), commit env (record s { db = save_payment p' s.db }))

    unfoldable pub send_to_heleket :
        Plan → Payment × Quote → Exec (State env) (Option String × Payment × Quote)
    send_to_heleket plan (p, quote) s =
        let (answer, w) = gate.create_invoice quote.amount plan.currency p.id s.world in
        after_invoice p quote answer (record s { world = w })

    unfoldable pub create_invoice_on_sale :
        String → Request → ℕ → Option Plan → Exec (State env) (Option String × Payment × Quote)
    create_invoice_on_sale sub req now none s = (err (http 400 "Unknown plan"), s)
    create_invoice_on_sale sub req now (some plan) s =
        (current_user sub >>= λ user. open_order user req plan now >>= send_to_heleket plan) s

    -- `create_payment`
    unfoldable pub create_payment :
        String → Request → ℕ → Exec (State env) (Option String × Payment × Quote)
    create_payment sub req now = create_invoice_on_sale sub req now (is_on_sale req.plan)

  -- `quote_payment`: none of the state changes
  unfoldable pub quote_payment : String → Request → ℕ → Exec (State env) (Option Quote)
  quote_payment sub req now s =
      let quoted =
        (current_user sub >>= λ user s'.
        (ok (price_order s'.db user req.plan req.code req.use_credit now), s'))
          s in
      if is_none (is_on_sale req.plan) then (err (http 400 "Unknown plan"), s) else quoted
