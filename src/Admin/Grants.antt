-- ===== src/Admin/Grants.antt =====
-- pwa/api/admin_grant.py: a grant is a payment of nothing, through the same activation.
pub mod Result
mod Examples
use vpn_infrastructure_showc.Base.{
  ℕ, suc, String, Bool, true, false, not, Option, none, some, [], ◌∷◌, ◌++◌, ◌==◌, str_eq, is_none,
  delete, select, if◌then◌else◌, pos,
}
use vpn_infrastructure_showc.PyText.{strip}
use vpn_infrastructure_showc.Model.{User, Payment}
use vpn_infrastructure_showc.Exec.{Exec, ok, err, http, ◌>>=◌}
use vpn_infrastructure_showc.Nodes.{Environment}
use vpn_infrastructure_showc.Plans.{is_on_sale}
use vpn_infrastructure_showc.Provisioner.Issue.{State}
use vpn_infrastructure_showc.Provisioner.Activate.{commit, activate_payment}
use vpn_infrastructure_showc.Payments.{one_or_none}

unfoldable pub manual_payment : User → String → ℕ → ℕ → Payment
manual_payment user plan key now = record {
  id = key;
  user_id = user.id;
  plan = plan;
  amount = pos 0;
  currency = "RUB";
  status = "pending";
  heleket_invoice_id = none;
  provider = some "manual";
  provider_ref = none;
  promo_code = none;
  credit_spent = pos 0;
  created_at = now;
  paid_at = none;
}

module _ (env : Environment) where
  -- the row is dropped if no device could be issued
  unfoldable pub after_grant : Payment → Bool → Exec (State env) (Unit {0})
  after_grant payment true s = (ok tt, s)
  after_grant payment false s = (
    err (http 502 "No device could be issued; nothing was granted"),
    commit env (record s {
      db = record s.db { payments = delete (λ p. p.id == payment.id) s.db.payments };
    }),
  )

  unfoldable pub add_manual : Payment → State env → State env
  add_manual payment s = commit env (record s {
    db = record s.db { next_id = suc s.db.next_id; payments = s.db.payments ++ payment ∷ [] };
  })

  unfoldable pub grant_to : String → ℕ → User → Exec (State env) (Unit {0})
  grant_to plan now user s =
      let payment = manual_payment user plan s.db.next_id now in
      (activate_payment env user payment now >>= after_grant payment) (add_manual payment s)

  unfoldable pub grant_found : String → ℕ → Option User → Exec (State env) (Unit {0})
  grant_found plan now none s = (err (http 404 "User not found"), s)
  grant_found plan now (some user) s =
      let granted = grant_to plan now user s in
      if user.is_active then granted else (err (http 409 "Account is disabled"), s)

  -- `grant`
  unfoldable pub grant : String → String → ℕ → Exec (State env) (Unit {0})
  grant username plan now s =
      let granted =
        (one_or_none (select (λ (u : User). str_eq u.username (strip username)) s.db.users)
            >>= grant_found plan now)
          s in
      if is_none (is_on_sale plan) then (err (http 422 "Unknown plan"), s) else granted
