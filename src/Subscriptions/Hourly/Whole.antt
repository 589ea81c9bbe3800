-- ===== src/Subscriptions/Hourly/Whole.antt =====
-- The hourly job as a whole, its sweeps one after another.
use vpn_infrastructure_showc.Base.{
  ℕ, ◌<◌, ◌≡◌, refl, sym, ap, ◌∙◌, ◌⊎◌, inl, inr, false, List, [], ◌∷◌, arith, map, any, select,
}
use vpn_infrastructure_showc.Model.{Portal}
use vpn_infrastructure_showc.Exec.{Result, ok, err, then_do, ◌>>=◌}
use vpn_infrastructure_showc.Nodes.{Environment}
use vpn_infrastructure_showc.Notify.{notify, post, send_letter}
use vpn_infrastructure_showc.Notify.Reminders.{
  Reminder, sub_reminder, is_sub_ending, count_sent, remind, remind_all, remind_due,
}
use vpn_infrastructure_showc.Provisioner.Issue.{State}
use vpn_infrastructure_showc.Credit.Rewards.{RewardStats, apply_due_rewards}
use vpn_infrastructure_showc.Subscriptions.{SweepStats, is_past_end, expire_due_subscriptions}
use vpn_infrastructure_showc.Subscriptions.Sweep.{SweepOutcome, expire_due_subscriptions-outcome}
use vpn_infrastructure_showc.Subscriptions.Trials.{TrialStats, expire_due_trials}
use vpn_infrastructure_showc.Subscriptions.Trials.Rows.{is_ended}
use vpn_infrastructure_showc.Subscriptions.Trials.Ended.{TrialsOutcome, expire_due_trials-outcome}
use vpn_infrastructure_showc.Subscriptions.Hourly.{
  HourlyStats, land_rewards, send_reminders, hourly,
}

-- reminders touch neither the accounts nor the devices
abbrev SameTables : Portal → Portal → Type 0
SameTables a b = (b.users ≡ a.users) × (b.configs ≡ a.configs)

remind-SameTables :
    (now n : ℕ) (q : Reminder) (db : Portal) → SameTables db (remind now q (n, db)).1
unfolding remind count_sent notify post send_letter
remind-SameTables now n q db = (ground arith, ground arith)

remind_all-SameTables :
    (now : ℕ) (rs : List Reminder) (n : ℕ) (db : Portal)
    → SameTables db (remind_all now rs (n, db)).1
unfolding remind_all
remind_all-SameTables now [] n db = (refl, refl)
remind_all-SameTables now (q ∷ rs) n db =
    let step = remind-SameTables now n q db in
    let rest = remind_all-SameTables now rs _ _ in (rest.0 ∙ step.0, rest.1 ∙ step.1)

remind_due-SameTables : (now : ℕ) (db : Portal) → SameTables db (remind_due now db).1
unfolding remind_due
remind_due-SameTables now db =
    let subs =
      remind_all-SameTables now (map (sub_reminder now) (select (is_sub_ending now) db.users)) 0
        db in
    let trials = remind_all-SameTables now _ _ _ in (trials.0 ∙ subs.0, trials.1 ∙ subs.1)

module _ (env : Environment) where
  -- what the rewards leave, which is committed first
  abbrev pub rewarded : ℕ → State env → State env
  rewarded now s = let db = (apply_due_rewards s.db now).1 in record s { db = db; committed = db }

  -- How the hourly job ends. A raise leaves committed what the rewards made, or also what the sweep
  -- of the subscriptions made.
  abbrev pub HourlyOutcome : ℕ → State env → Result HourlyStats × State env → Type 0
  HourlyOutcome now s (ok stats, s') =
      (s'.committed ≡ s'.db)
      × ((any (is_past_end now) s'.committed.users ≡ false) ⊎ (0 < stats.sweep.failures))
      × ((any (is_ended now s'.committed.users) s'.committed.configs ≡ false)
          ⊎ (0 < stats.trials.trial_failures))
  HourlyOutcome now s (err e, s') =
      (s'.committed ≡ (rewarded now s).committed)
      ⊎ ((swept : State env) × (stats : SweepStats) × (expire_due_subscriptions env now
              (rewarded now s)
            ≡ (ok stats, swept))
          × (s'.committed ≡ swept.committed))

  module _ (now : ℕ) (s : State env) (rewards : RewardStats) where
    abbrev finish : SweepStats → TrialStats → State env → Result HourlyStats × State env
    finish sweep trials = send_reminders env now >>= λ reminders t. (
      ok (record { rewards = rewards; sweep = sweep; trials = trials; reminders = reminders }),
      t,
    )

    trials-Hourly :
        (sweep : SweepStats) (swept : State env) (r : Result TrialStats × State env)
        → expire_due_subscriptions env now (rewarded now s) ≡ (ok sweep, swept)
        → SweepOutcome env now (rewarded now s) (ok sweep, swept)
        → TrialsOutcome env now swept r
        → HourlyOutcome now s (then_do (finish sweep) r)
    unfolding send_reminders
    trials-Hourly sweep swept (err e, t) run h k = inr (swept, sweep, run, k)
    trials-Hourly sweep swept (ok trials, t) run h k =
        let same = remind_due-SameTables now t.db in
        let users = same.0 ∙ k.1 ∙ ap (λ (db : Portal). db.users) (sym h.0) in
        let held = same.0 ∙ ap (λ (db : Portal). db.users) (sym k.0) in
        let devices = same.1 ∙ ap (λ (db : Portal). db.configs) (sym k.0) in
        (refl, rw users h.1, rw (held, devices) k.3)

    sweep-Hourly :
        (r : Result SweepStats × State env)
        → expire_due_subscriptions env now (rewarded now s) ≡ r
        → SweepOutcome env now (rewarded now s) r
        → HourlyOutcome now s (then_do (λ sweep. expire_due_trials env now >>= finish sweep) r)
    sweep-Hourly (err e, t) run h = inl h
    sweep-Hourly (ok sweep, t) run h =
        trials-Hourly sweep t _ run h (expire_due_trials-outcome env now t)

  -- The hourly job, on every database and whatever the nodes answer. If it ends without a raise,
  -- everything is committed, nobody is subscribed past their end unless the sweep counted a
  -- failure, and no trial device is active past its owner's trial unless a failure was counted: the
  -- later sweeps undo nothing of the earlier ones. If it raises, what is committed is what the
  -- rewards left, or what the finished sweep of the subscriptions left.
  pub hourly-outcome : (now : ℕ) (s : State env) → HourlyOutcome now s (hourly env now s)
  unfolding hourly land_rewards
  hourly-outcome now s =
      sweep-Hourly now s (apply_due_rewards s.db now).0 _ refl
        (expire_due_subscriptions-outcome env now (rewarded now s))
