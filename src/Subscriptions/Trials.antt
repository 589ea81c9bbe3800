-- ===== src/Subscriptions/Trials.antt =====
-- `expire_due_trials`: the sweep that takes the devices of ended trials off their nodes.
pub mod Rows
pub mod Ended
use vpn_infrastructure_showc.Base.{
  ℕ, ◌+◌, String, Bool, true, false, ◌&&◌, List, [], ◌∷◌, ◌++◌, map, length, leb, ◌==◌, str_eq,
  holds, get_or_else, select, if◌then◌else◌,
}
use vpn_infrastructure_showc.Model.{User, Config, Portal, save_config}
use vpn_infrastructure_showc.Exec.{Exec, ok, ◌>>=◌}
use vpn_infrastructure_showc.Nodes.{Environment}
use vpn_infrastructure_showc.Notify.{notify_ended}
use vpn_infrastructure_showc.Provisioner.Issue.{State}
use vpn_infrastructure_showc.Provisioner.Removal.{remove_peer_for}
use vpn_infrastructure_showc.Provisioner.Activate.{commit}
use vpn_infrastructure_showc.Subscriptions.{has_active_subscription}

abbrev pub is_trial_device : Config → Bool
is_trial_device c = str_eq c.kind "trial" && c.is_active

-- the owner of a device, whose trial is over
abbrev pub is_owner_past : ℕ → Config → User → Bool
is_owner_past now c u = (u.id == c.user_id) && holds (λ t. leb t now) u.trial_until

-- the rows of the query: devices joined with their owners
unfoldable pub ended_trials : ℕ → List User → List Config → List (Config × User)
ended_trials now users [] = []
ended_trials now users (c ∷ cs) =
    let rest = ended_trials now users cs in
    if is_trial_device c
    then map (λ u. (c, u)) (select (is_owner_past now c) users) ++ rest
    else rest

-- the counts that the sweep returns
pub record TrialStats : Type 0 where
  pub trials_due : ℕ
  pub trial_peers_removed : ℕ
  pub trial_failures : ℕ

-- the message, unless a purchase cut the trial short
unfoldable pub tell_ended : ℕ → User → Portal → Portal
tell_ended now user db =
    if has_active_subscription user now
    then db
    else notify_ended now user "trial_ended" (get_or_else user.trial_until 0) db

module _ (env : Environment) where
  unfoldable pub record_trial :
      ℕ → Config × User → TrialStats → Bool × String → Exec (State env) TrialStats
  record_trial now (c, user) stats (true, reason) s = (
    ok (record stats { trial_peers_removed = stats.trial_peers_removed + 1 }),
    record s { db = tell_ended now user (save_config (record c { is_active = false }) s.db) },
  )
  record_trial now (c, user) stats (false, reason) s =
      (ok (record stats { trial_failures = stats.trial_failures + 1 }), s)

  -- `for config, user in rows`
  unfoldable pub expire_trials : ℕ → List (Config × User) → TrialStats → Exec (State env) TrialStats
  expire_trials now [] stats s = (ok stats, s)
  expire_trials now (row ∷ rows) stats s =
      (remove_peer_for env row.0 >>= λ answer.
      record_trial now row stats answer >>= expire_trials now rows)
        s

  unfoldable pub finish_trials : TrialStats → Exec (State env) TrialStats
  finish_trials stats s = (ok stats, commit env s)

  -- `expire_due_trials`
  unfoldable pub expire_due_trials : ℕ → Exec (State env) TrialStats
  expire_due_trials now s =
      let rows = ended_trials now s.db.users s.db.configs in
      (expire_trials now rows
            (record { trials_due = length rows; trial_peers_removed = 0; trial_failures = 0 })
          >>= finish_trials)
        s
