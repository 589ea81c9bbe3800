-- ===== src/Subscriptions.antt =====
-- pwa/services/subscriptions.py: when a subscription is active, and the sweeps that end it.
mod Examples
pub mod Closing
pub mod Sweep
pub mod Trials
pub mod Hourly
use vpn_infrastructure_showc.Base.{
  ℕ, ◌+◌, String, Bool, true, false, ◌&&◌, ◌||◌, List, [], ◌∷◌, map, length, ltb, holds, is_none,
  get_or_else, select,
}
use vpn_infrastructure_showc.Model.{User, Config, save_user, save_config}
use vpn_infrastructure_showc.Exec.{Exec, ok, ◌>>=◌}
use vpn_infrastructure_showc.Nodes.{Environment}
use vpn_infrastructure_showc.Notify.{notify_ended}
use vpn_infrastructure_showc.Trial.{trial_active}
use vpn_infrastructure_showc.Provisioner.Issue.{State}
use vpn_infrastructure_showc.Provisioner.Removal.{remove_peer_for}
use vpn_infrastructure_showc.Provisioner.Activate.{held_by, commit}

-- `has_active_subscription`
unfoldable pub has_active_subscription : User → ℕ → Bool
has_active_subscription user now =
    user.is_subscribed && holds (λ until. ltb now until) user.subscribed_until

-- `has_access`
unfoldable pub has_access : User → ℕ → Bool
has_access user now = has_active_subscription user now || trial_active user now

-- subscribed, with an end that has passed
abbrev pub is_past_end : ℕ → User → Bool
is_past_end now u = u.is_subscribed && holds (λ until. ltb until now) u.subscribed_until

-- subscribed, with no end recorded
abbrev pub is_undated : User → Bool
is_undated u = u.is_subscribed && is_none u.subscribed_until

-- the counts of `expire_due_subscriptions`, and the names it reports
pub record SweepStats : Type 0 where
  pub users_due : ℕ
  pub users_revoked : ℕ
  pub peers_removed : ℕ
  pub failures : ℕ
  pub undated : List String

module _ (env : Environment) where
  -- a device that the node confirmed is marked; a refusal is counted
  unfoldable pub record_removal :
      Config → Bool × SweepStats → Bool × String → Exec (State env) (Bool × SweepStats)
  record_removal c (all_removed, stats) (true, reason) s = (
    ok (all_removed, record stats { peers_removed = stats.peers_removed + 1 }),
    record s { db = save_config (record c { is_active = false }) s.db },
  )
  record_removal c (all_removed, stats) (false, reason) s =
      (ok (false, record stats { failures = stats.failures + 1 }), s)

  -- `for config in configs`, with whether all are removed so far
  unfoldable pub remove_devices :
      List Config → Bool × SweepStats → Exec (State env) (Bool × SweepStats)
  remove_devices [] acc s = (ok acc, s)
  remove_devices (c ∷ cs) acc s =
      (remove_peer_for env c >>= λ answer. record_removal c acc answer >>= remove_devices cs) s

  -- the account is closed only if every device is off its node
  unfoldable pub close_account : ℕ → User → Bool × SweepStats → Exec (State env) SweepStats
  close_account now user (true, stats) s = (
    ok (record stats { users_revoked = stats.users_revoked + 1 }),
    record s {
      db =
          notify_ended now user "sub_ended" (get_or_else user.subscribed_until 0)
            (save_user (record user { is_subscribed = false }) s.db);
    },
  )
  close_account now user (false, stats) s = (ok stats, s)

  unfoldable pub revoke_user : ℕ → User → SweepStats → Exec (State env) SweepStats
  revoke_user now user stats s =
      (remove_devices (held_by user s.db) (true, stats) >>= close_account now user) s

  -- `for user in due`
  unfoldable pub revoke_users : ℕ → List User → SweepStats → Exec (State env) SweepStats
  revoke_users now [] stats s = (ok stats, s)
  revoke_users now (u ∷ us) stats s = (revoke_user now u stats >>= revoke_users now us) s

  -- the commit, and the accounts with no end, which are reported and left alone
  unfoldable pub finish_sweep : SweepStats → Exec (State env) SweepStats
  finish_sweep stats s = (
    ok (record stats { undated = map (λ (u : User). u.username) (select is_undated s.db.users) }),
    commit env s,
  )

  -- `expire_due_subscriptions`
  unfoldable pub expire_due_subscriptions : ℕ → Exec (State env) SweepStats
  expire_due_subscriptions now s =
      let due = select (is_past_end now) s.db.users in
      (revoke_users now due (record {
        users_due = length due;
        users_revoked = 0;
        peers_removed = 0;
        failures = 0;
        undated = [];
      })
          >>= finish_sweep)
        s
