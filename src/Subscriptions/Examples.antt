-- ===== src/Subscriptions/Examples.antt =====
-- The sweep on a customer whose period has ended, with one device.
use vpn_infrastructure_showc.Base.{ℕ, some, [], ◌∷◌}
use vpn_infrastructure_showc.Subscriptions.{expire_due_subscriptions}
use vpn_infrastructure_showc.Subscriptions.Sweep.{SweepOutcome, expire_due_subscriptions-outcome}
use vpn_infrastructure_showc.Model.{Portal}
use vpn_infrastructure_showc.Nodes.{Session}
use vpn_infrastructure_showc.Subscriptions.Trials.{expire_due_trials}
use vpn_infrastructure_showc.Subscriptions.Trials.Ended.{TrialsOutcome, expire_due_trials-outcome}
use vpn_infrastructure_showc.Subscriptions.Hourly.{hourly}
use vpn_infrastructure_showc.Subscriptions.Hourly.Whole.{HourlyOutcome, hourly-outcome}
use vpn_infrastructure_showc.Sample.{node, customer, device, portal, session}

expire_due_subscriptions-outcome_example :
    SweepOutcome node 3000
      (session (device "paid" "10.88.88.42" ∷ []))
      (expire_due_subscriptions node 3000 (session (device "paid" "10.88.88.42" ∷ [])))
expire_due_subscriptions-outcome_example =
    expire_due_subscriptions-outcome node 3000 (session (device "paid" "10.88.88.42" ∷ []))

abbrev trial_over : Session ℕ
trial_over =
    let db : Portal = record (portal (device "trial" "10.88.89.10" ∷ [])) {
      users = record (customer 1 500) { trial_until = some 900 } ∷ [];
    } in
    record (session []) { db = db; committed = db }

expire_due_trials-outcome_example :
    TrialsOutcome node 1000 trial_over (expire_due_trials node 1000 trial_over)
expire_due_trials-outcome_example = expire_due_trials-outcome node 1000 trial_over

hourly-outcome_example : HourlyOutcome node 1000 trial_over (hourly node 1000 trial_over)
hourly-outcome_example = hourly-outcome node 1000 trial_over
