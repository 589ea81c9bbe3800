-- ===== src/Provisioner/Activate.antt =====
-- `activate_payment`: a confirmed payment becomes subscription time, and a first one a device.
mod Ledger
mod Written
mod Account
mod Retired
pub mod Extension
pub mod Result
use vpn_infrastructure_showc.Base.{
  ℕ, ◌+◌, max, String, Bool, true, false, ◌&&◌, not, Option, none, some, List, [], ◌∷◌, ltb, ◌==◌,
  str_eq, holds, get_or_else, select, if◌then◌else◌,
}
use vpn_infrastructure_showc.Model.{
  days, User, Config, Payment, Portal, save_user, save_payment, save_config,
}
use vpn_infrastructure_showc.Exec.{Exec, ok, err, ◌>>=◌, ◌>>◌}
use vpn_infrastructure_showc.Exec
use vpn_infrastructure_showc.Locations
use vpn_infrastructure_showc.Nodes.{Environment}
use vpn_infrastructure_showc.Plans.{Plan, plan_info}
use vpn_infrastructure_showc.Notify.{notify, send_letter}
use vpn_infrastructure_showc.Credit.Spending.{spend_on_payment}
use vpn_infrastructure_showc.Credit.Rewards.{reward_for_payment, apply_rewards_for}
use vpn_infrastructure_showc.Provisioner.Issue.{State, issue_config}
use vpn_infrastructure_showc.Provisioner.Removal.{remove_peer_at}

-- `payment.provider == "manual"`
abbrev pub is_gift : Payment → Bool
is_gift p = holds (λ v. str_eq v "manual") p.provider

-- the active rows of an account
unfoldable pub held_by : User → Portal → List Config
held_by user db = select (λ c. (c.user_id == user.id) && c.is_active) db.configs

-- the paid devices that an account holds
abbrev pub paid_devices : User → Portal → List Config
paid_devices user db = select (λ c. not (str_eq c.kind "trial")) (held_by user db)

-- `max(now, user.subscribed_until or now)`
unfoldable pub base_of : User → ℕ → ℕ
base_of user now = max now (get_or_else user.subscribed_until now)

-- the paid period goes on the account
unfoldable pub extend : User → Payment → Plan → ℕ → User
extend user payment plan now = record user {
  is_subscribed = true;
  plan = some payment.plan;
  subscribed_until = some (base_of user now + days plan.days);
}

unfoldable pub mark_paid : Payment → ℕ → Payment
mark_paid payment now = record payment { status = "paid"; paid_at = some now }

-- the purchase ends a running trial
unfoldable pub end_trial : ℕ → User → User
end_trial now user =
    if holds (λ until. ltb now until) user.trial_until
    then record user { trial_until = some now }
    else user

-- what one transaction writes once the device is there: the period, the payment, the credit, the
-- referral reward, the months that waited for this purchase, the message, and the trial's end
unfoldable pub settle : User → Payment → Plan → ℕ → Portal → User × Portal
settle user payment plan now db =
    let payment' = mark_paid payment now in
    let extended = extend user payment plan now in
    let db1 = save_payment payment' (save_user extended db) in
    let db2 = (spend_on_payment db1 payment' now).1 in
    let db3 = (reward_for_payment db2 payment' now).1 in
    let (_, rewarded, db4) = apply_rewards_for db3 extended now in
    let db5 = (notify now rewarded (if is_gift payment then "granted" else "paid") none db4).1 in
    let final = end_trial now rewarded in (final, save_user final db5)

module _ (env : Environment) where
  -- `await db.commit()`
  abbrev pub commit : State env → State env
  commit s = record s { committed = s.db }

  -- a row is marked only if the node confirmed; an exception is logged like a refusal
  abbrev pub mark_removed : Config → Exec.Result (Bool × String) × State env → State env
  mark_removed c (ok (true, reason), s) = record s {
    db = save_config (record c { is_active = false }) s.db;
  }
  mark_removed c (ok (false, reason), s) = s
  mark_removed c (err e, s) = s

  -- the trial devices come off the node, best effort
  unfoldable pub remove_trials : List Config → State env → State env
  remove_trials [] s = s
  remove_trials (c ∷ cs) s =
      remove_trials cs (mark_removed c (remove_peer_at env env.settings.bridge_ip c.public_key s))

  unfoldable pub commit_if : List Config → State env → State env
  commit_if [] s = s
  commit_if (c ∷ cs) s = commit s

  -- the receipt, after the commit
  abbrev receipt : User → Payment → State env → State env
  receipt user payment s = record s {
    db = send_letter user (if is_gift payment then "granted" else "payment") s.db;
  }

  -- the steps after the device: the transaction, the trial devices, and the receipt
  unfoldable pub complete : Payment → Plan → ℕ → List Config → User → State env → State env
  complete payment plan now trial_devices user s =
      let (user', db') = settle user payment plan now s.db in
      let committed = commit (record s { db = db' }) in
      receipt user' payment (commit_if trial_devices (remove_trials trial_devices committed))

  -- `user.peer_ip = config.peer_ip`, for a first device
  unfoldable pub with_device :
      User → Payment → Plan → ℕ → List Config → Option Config → Exec (State env) Bool
  with_device user payment plan now trials none s = (ok false, s)
  with_device user payment plan now trials (some c) s =
      (ok true, complete payment plan now trials (record user { peer_ip = some c.peer_ip }) s)

  unfoldable pub first_or_renewal :
      User → Payment → Plan → ℕ → List Config → List Config → Exec (State env) Bool
  first_or_renewal user payment plan now trials [] s =
      (issue_config env user "device-1" "paid" (Locations.default_for_new env.settings) now
          >>= with_device user payment plan now trials)
        s
  first_or_renewal user payment plan now trials (c ∷ existing) s =
      (ok true, complete payment plan now trials user s)

  unfoldable pub activate_plan : User → Payment → ℕ → Option Plan → Exec (State env) Bool
  activate_plan user payment now none s = (ok false, s)
  activate_plan user payment now (some plan) s =
      let held = held_by user s.db in
      first_or_renewal user payment plan now (select (λ c. str_eq c.kind "trial") held)
        (select (λ c. not (str_eq c.kind "trial")) held) s

  -- `activate_payment`
  unfoldable pub activate_payment : User → Payment → ℕ → Exec (State env) Bool
  activate_payment user payment now = activate_plan user payment now (plan_info payment.plan)
