-- ===== src/Trial.antt =====
-- pwa/services/trial.py: what a trial is and when it ends. The settings of the environment are
-- arguments.
pub mod Mailbox
pub mod Start
use vpn_infrastructure_showc.Base.{ℕ, ◌+◌, Bool, ◌||◌, not, ltb, is_some, holds, if◌then◌else◌}
use vpn_infrastructure_showc.Model.{days, User}

unfoldable pub trial_active : User → ℕ → Bool
trial_active user now = holds (λ until. ltb now until) user.trial_until

unfoldable pub verified : User → Bool
verified user = is_some user.email_verified_at || is_some user.telegram_id

-- the answers of `trial_state`
pub data TrialState : Type 0 where
  active used off needs_verify available : TrialState

-- `trial_state`; `enabled` is `trial_enabled()`
unfoldable pub trial_state : Bool → User → Bool → ℕ → TrialState
unfolding trial_active verified
trial_state enabled user has_paid now =
    if trial_active user now
    then active
    else if is_some user.trial_until || has_paid
    then used
    else if not enabled
    then off
    else if not (verified user)
    then needs_verify
    else available

-- `trial_end`, with TRIAL_DAYS
unfoldable pub trial_end : ℕ → ℕ → ℕ
trial_end trial_days now = now + days trial_days
