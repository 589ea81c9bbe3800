-- ===== src/Subscriptions/Hourly.antt =====
-- pwa/expire_subscriptions.py: the hourly job, its four sweeps in order. The process ends with 1 if
-- one of them raises; what the earlier ones committed stays.
pub mod Whole
use vpn_infrastructure_showc.Base.{ℕ}
use vpn_infrastructure_showc.Exec.{Exec, ok, ◌>>=◌}
use vpn_infrastructure_showc.Nodes.{Environment}
use vpn_infrastructure_showc.Credit.Rewards.{RewardStats, apply_due_rewards}
use vpn_infrastructure_showc.Notify.Reminders.{remind_due}
use vpn_infrastructure_showc.Provisioner.Issue.{State}
use vpn_infrastructure_showc.Provisioner.Activate.{commit}
use vpn_infrastructure_showc.Subscriptions.{SweepStats, expire_due_subscriptions}
use vpn_infrastructure_showc.Subscriptions.Trials.{TrialStats, expire_due_trials}

-- the counts that the job logs
pub record HourlyStats : Type 0 where
  pub rewards : RewardStats
  pub sweep : SweepStats
  pub trials : TrialStats
  pub reminders : ℕ

module _ (env : Environment) (now : ℕ) where
  -- a sweep that commits
  unfoldable pub land_rewards : Exec (State env) RewardStats
  land_rewards s =
      let (stats, db) = apply_due_rewards s.db now in (ok stats, commit env (record s { db = db }))

  unfoldable pub send_reminders : Exec (State env) ℕ
  send_reminders s = let (n, db) = remind_due now s.db in (ok n, commit env (record s { db = db }))

  -- `main`
  unfoldable pub hourly : Exec (State env) HourlyStats
  hourly = do
    rewards ← land_rewards
    sweep ← expire_due_subscriptions env now
    trials ← expire_due_trials env now
    reminders ← send_reminders
    λ s. (
      ok (record { rewards = rewards; sweep = sweep; trials = trials; reminders = reminders }),
      s,
    )
