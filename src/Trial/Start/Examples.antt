-- ===== src/Trial/Start/Examples.antt =====
-- Tests and witnesses for the start of a trial.
use vpn_infrastructure_showc.Base.{some, inl, ◌≡◌, refl, true, false, none, [], ◌∷◌}
use vpn_infrastructure_showc.PyText.{decimal, strip, lower}
use vpn_infrastructure_showc.Model.{User, Portal}
use vpn_infrastructure_showc.Sample.{device, node, customer, portal}
use vpn_infrastructure_showc.Trial.Mailbox.{
  trial_enabled, rpartition_at, before_plus, without_dots, alias, normalise_parts, normalise_email,
  disposable_domains, ends_with, is_disposable,
}
use vpn_infrastructure_showc.Exec.{Result, ok, err, http}
use vpn_infrastructure_showc.RateLimit
use vpn_infrastructure_showc.Trial
use vpn_infrastructure_showc.Locations
use vpn_infrastructure_showc.Notify.{notify, post}
use vpn_infrastructure_showc.Provisioner.Pool.{find_free_ip, first_free, is_used, address}
use vpn_infrastructure_showc.Provisioner.Issue.{
  issue_config, issue_at, fresh_keys, issue_with_keys, entry_used_ips, run_ssh, find_and_add,
  try_address, add_peer_at, wrapper_answer, after_try, save_row, new_row, add_config,
}
use vpn_infrastructure_showc.Payments.Orders.{current_user}
use vpn_infrastructure_showc.Model.{Config, save_user}
use vpn_infrastructure_showc.Trial.Start.{
  TrialSettings, Trials, start_trial, start_for, start_unless, give_if_free, give_trial, refusal,
  already_granted, granted_today, breaks_unique, grant_of, write_grant, finish_trial,
}
use vpn_infrastructure_showc.Trial.Start.Outcome.{StartOutcome, start_trial-outcome}
use vpn_infrastructure_showc.Trial.Start.Once.{start_trial-once}

one_inbox : normalise_email " Ivan.Petrov+x@GoogleMail.com" ≡ "ivanpetrov@gmail.com"
unfolding normalise_email normalise_parts rpartition_at before_plus without_dots alias strip lower
one_inbox = refl

dots_kept : normalise_email "ivan.petrov@ya.ru" ≡ "ivan.petrov@yandex.ru"
unfolding normalise_email normalise_parts rpartition_at before_plus without_dots alias strip lower
dots_kept = refl

throwaway : is_disposable "x@box.Mailinator.com" ≡ true
unfolding is_disposable rpartition_at disposable_domains ends_with strip lower
throwaway = refl

lookalike : is_disposable "x@notmailinator.com" ≡ false
unfolding is_disposable rpartition_at disposable_domains ends_with strip lower
lookalike = refl

switched_on : trial_enabled " Yes " ≡ true
unfolding trial_enabled strip lower
switched_on = refl

-- an account without a subscription
abbrev newcomer : User
newcomer = record (customer 1 0) {
  email = some "alice@gmail.com";
  subscribed_until = none;
  is_subscribed = false;
  plan = none;
}

abbrev tables : Portal
tables = record (portal []) { users = newcomer ∷ [] }

abbrev request : Trials node
request = record {
  session = record { db = tables; committed = tables; world = 0 };
  limiter = record { limit = 3; window = 86400; events = []; since_sweep = 0 };
}

abbrev settings : TrialSettings
settings = record { enabled = true; trial_days = 3; daily_cap = 30 }

start_trial-outcome_example :
    StartOutcome node settings "alice" "192.0.2.9" 1000 request
      (start_trial node settings "alice" "192.0.2.9" 1000 5 request)
start_trial-outcome_example = start_trial-outcome node settings "alice" "192.0.2.9" 1000 5 request

abbrev given : Result Config × Trials node
given = start_trial node settings "alice" "192.0.2.9" 1000 5 request

abbrev device_of : Result Config → Config
device_of (ok c) = c
device_of (err e) = device "trial" ""

-- another account, with alice's mailbox spelled otherwise
abbrev twin : User
twin = record newcomer { id = 2; username = "bob"; email = some "A.lice+2@googlemail.com" }

abbrev second : Trials node
second = record given.1 {
  session = record given.1.session { db = record given.1.session.committed { users = twin ∷ [] } };
}

start_trial-once_example : start_trial node settings "bob" "192.0.2.10" 2000 9 second ≡ (
  err (http 409 "trial_used"),
  record second { limiter = (RateLimit.take "192.0.2.10" 9 second.limiter).1 },
)
unfolding start_trial current_user start_for start_unless give_if_free give_trial refusal
    already_granted granted_today breaks_unique grant_of write_grant finish_trial issue_config
    issue_at fresh_keys issue_with_keys entry_used_ips run_ssh find_and_add try_address add_peer_at
    wrapper_answer after_try save_row new_row add_config save_user notify post find_free_ip
    first_free is_used address RateLimit.take RateLimit.retry_after RateLimit.prune
    RateLimit.prune_found RateLimit.wait_for RateLimit.take_if_free RateLimit.keep
    RateLimit.pop_expired RateLimit.new RateLimit.add RateLimit.sweep_if_due normalise_email
    normalise_parts rpartition_at before_plus without_dots alias is_disposable disposable_domains
    ends_with strip lower Trial.verified Trial.trial_active Trial.trial_end Locations.get
    Locations.all_locations Locations.netherlands Locations.with_params Locations.germany decimal
start_trial-once_example =
    start_trial-once node settings "alice" "bob" "192.0.2.9" "192.0.2.10" 1000 2000 5 9 request
      given.1 second newcomer twin (device_of given.0) [] refl refl refl refl
      (inl ("alice@gmail.com", "A.lice+2@googlemail.com", refl, refl, refl)) refl refl
