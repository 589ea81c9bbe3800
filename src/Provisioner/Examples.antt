-- ===== src/Provisioner/Examples.antt =====
-- The provisioner on a customer with a trial device, an order, and a node that agrees.
use vpn_infrastructure_showc.Base.{max, ◌+◌, ◌≡◌, refl, none, some, [], ◌∷◌, arith, select}
use vpn_infrastructure_showc.Model.{days}
use vpn_infrastructure_showc.Plans.{Plan}
use vpn_infrastructure_showc.Credit.Rewards.{is_due_to}
use vpn_infrastructure_showc.Credit.Rewards.Applying.{total_days}
use vpn_infrastructure_showc.PyText.{decimal}
use vpn_infrastructure_showc.Provisioner.Pool.{Pool, address, is_used, first_free, find_free_ip}
use vpn_infrastructure_showc.Provisioner.Issue.{issue_config}
use vpn_infrastructure_showc.Provisioner.Issue.Outcome.{IssueOutcome, issue_config-outcome}
use vpn_infrastructure_showc.Provisioner.Activate.{settle, activate_payment}
use vpn_infrastructure_showc.Provisioner.Activate.Extension.{settle-until}
use vpn_infrastructure_showc.Provisioner.Activate.Result.{ActivateOutcome, activate_payment-outcome}
use vpn_infrastructure_showc.Sample.{node, customer, order, device, portal, session}

abbrev month : Plan
month = record { tier = "basic"; configs = 2; days = 30; amount = 350; currency = "RUB" }

-- two addresses, the first one taken by the device
abbrev two : Pool
two = record { prefix = "10.0.0"; start = 8; end = 9 }

second_address : find_free_ip (portal (device "paid" "10.0.0.8" ∷ [])) [] two "de" ≡ some "10.0.0.9"
unfolding find_free_ip first_free is_used address decimal
second_address = refl

no_address : find_free_ip (portal (device "paid" "10.0.0.8" ∷ [])) ("10.0.0.9" ∷ []) two "de" ≡ none
unfolding find_free_ip first_free is_used address decimal
no_address = refl

issue_config-outcome_example :
    IssueOutcome node
      (session [])
      (customer 1 2000)
      "phone"
      "paid"
      "de"
      (issue_config node (customer 1 2000) "phone" "paid" "de" 1000 (session []))
issue_config-outcome_example =
    issue_config-outcome node (customer 1 2000) "phone" "paid" "de" 1000 (session [])

activate_payment-outcome_example :
    ActivateOutcome node
      (session (device "trial" "10.88.89.10" ∷ []))
      (customer 1 2000)
      (order "basic-1m")
      1000
      (activate_payment node
        (customer 1 2000)
        (order "basic-1m")
        1000
        (session (device "trial" "10.88.89.10" ∷ [])))
activate_payment-outcome_example =
    activate_payment-outcome node (customer 1 2000) (order "basic-1m") 1000
      (session (device "trial" "10.88.89.10" ∷ []))

settle-until_example :
    (settle (customer 1 2000) (order "basic-1m") month 1000 (portal [])).0.subscribed_until
    ≡ some (
        max 1000 2000
        + days 30
        + days (total_days (select (is_due_to 1 1000) (portal []).referral_rewards)))
settle-until_example =
    settle-until (customer 1 2000) (order "basic-1m") month 1000 (portal []) (omega arith)
