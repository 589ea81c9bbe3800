-- ===== src/Trial/Start.antt =====
-- pwa/api/trial.py: the start of a trial. The settings of the environment and the session of the
-- node are arguments; the state has the limiter beside the request's session.
pub mod Outcome
pub mod Once
mod Examples
use Prim.Native.String
use vpn_infrastructure_showc.Base.{
  ℕ, suc, ◌+◌, ◌-◌, String, Bool, true, false, ◌&&◌, ◌||◌, not, Option, none, some, [], ◌∷◌, ◌++◌,
  leb, ◌==◌, str_eq, any, count, holds, is_some, is_none, if◌then◌else◌,
}
use vpn_infrastructure_showc.Model.{days, User, Config, TrialGrant, Portal, save_user}
use vpn_infrastructure_showc.Exec.{Exec, Result, ok, err, http, ◌>>=◌}
use vpn_infrastructure_showc.Nodes.{Environment}
use vpn_infrastructure_showc.Notify.{notify}
use vpn_infrastructure_showc.RateLimit.{Limiter, take}
use vpn_infrastructure_showc.Provisioner.Issue.{State, issue_config}
use vpn_infrastructure_showc.Provisioner.Activate.{commit}
use vpn_infrastructure_showc.Payments.Orders.{current_user}
use vpn_infrastructure_showc.Trial.{trial_active, verified, trial_end}
use vpn_infrastructure_showc.Trial.Mailbox.{normalise_email, is_disposable}

-- `trial_enabled()`, TRIAL_DAYS and TRIAL_DAILY_CAP
pub record TrialSettings : Type 0 where
  pub enabled : Bool
  pub trial_days : ℕ
  pub daily_cap : ℕ

-- the address that counts: a confirmed one
abbrev pub confirmed : User → Option String
confirmed user =
    if holds (λ e. not (str_eq e "")) user.email && is_some user.email_verified_at
    then user.email
    else none

abbrev pub norm_of : Option String → Option String
norm_of none = none
norm_of (some email) = some (normalise_email email)

-- a grant to that mailbox, or to that Telegram account
abbrev pub is_same : Option String → Option ℕ → TrialGrant → Bool
is_same norm chat g =
    holds (λ n. holds (str_eq n) g.email_norm) norm
    || holds (λ t. holds (λ u. u == t) g.telegram_id) chat

-- the query: without a condition every grant counts, for `or_()` of nothing says nothing
unfoldable pub already_granted : Option String → Option ℕ → Portal → Bool
already_granted norm chat db =
    if is_none norm && is_none chat
    then any (λ g. true) db.trial_grants
    else any (is_same norm chat) db.trial_grants

abbrev pub is_today : ℕ → TrialGrant → Bool
is_today now g = leb (now - days 1) g.granted_at

unfoldable pub granted_today : ℕ → Portal → ℕ
granted_today now db = count (is_today now) db.trial_grants

unfoldable pub grant_of : User → Option String → String → ℕ → ℕ → TrialGrant
grant_of user norm ip key now = record {
  id = key;
  email_norm = norm;
  telegram_id = user.telegram_id;
  user_id = some user.id;
  source_ip = if str_eq ip "" then none else some (String.slice ip 0 64);
  granted_at = now;
}

-- the unique constraints of the table refuse the row
abbrev pub is_refused : TrialGrant → TrialGrant → Bool
is_refused new g =
    is_same new.email_norm new.telegram_id g
    || holds (λ u. holds (λ w. w == u) g.user_id) new.user_id

unfoldable pub breaks_unique : TrialGrant → Portal → Bool
breaks_unique new db = any (is_refused new) db.trial_grants

-- the row of the grant and the end of the trial
unfoldable pub write_grant : TrialGrant → User → Portal → Portal
write_grant g user db =
    save_user user
      (record db { next_id = suc db.next_id; trial_grants = db.trial_grants ++ g ∷ [] })

module _ (env : Environment) where
  -- the request's session and TRIAL_PER_IP
  pub record Trials : Type 0 where
    pub session : State env
    pub limiter : Limiter

  -- a step of the session leaves the limiter alone
  abbrev pub beside : {A : Type 0} → Limiter → Result A × State env → Result A × Trials
  beside l (r, s) = (r, record { session = s; limiter = l })

  -- `await db.rollback()`
  abbrev pub rollback : State env → State env
  rollback s = record s { db = s.committed }

  -- after the node's answer
  unfoldable pub finish_trial : ℕ → User → Option Config → Exec (State env) Config
  finish_trial now user none s = (err (http 503 "trial_busy"), rollback s)
  finish_trial now user (some c) s =
      (ok c, commit env (record s { db = (notify now user "trial_started" none s.db).1 }))

  unfoldable pub give_trial : TrialSettings → String → ℕ → User → Exec (State env) Config
  give_trial set ip now user s =
      let norm = norm_of (confirmed user) in
      let started : User = record user { trial_until = some (trial_end set.trial_days now) } in
      let grant = grant_of user norm ip s.db.next_id now in
      let given =
        (issue_config env started "trial" "trial" "" now >>= finish_trial now started)
          (record s { db = write_grant grant started s.db }) in
      if already_granted norm user.telegram_id s.db
      then (err (http 409 "trial_used"), s)
      else if leb set.daily_cap (granted_today now s.db)
      then (err (http 503 "trial_busy"), s)
      else if breaks_unique grant s.db
      then (err (http 409 "trial_used"), rollback s)
      else given

  -- past the limiter
  unfoldable pub give_if_free :
      TrialSettings → String → ℕ → User → Bool × Limiter → Exec (State env) Config
  give_if_free set ip now user (true, l) s = give_trial set ip now user s
  give_if_free set ip now user (false, l) s =
      (err (http 429 "Too many attempts, try again later"), s)

  -- the tests that come before the limiter; the answer none is to go on
  unfoldable pub refusal : TrialSettings → ℕ → User → Option (ℕ × String)
  refusal set now user =
      if not set.enabled
      then some (403, "trial_off")
      else if not (verified user)
      then some (403, "email_not_verified")
      else if trial_active user now
      then some (409, "trial_active")
      else if is_some user.trial_until || is_some user.subscribed_until
      then some (409, "trial_used")
      else if holds is_disposable (confirmed user)
      then some (403, "trial_unavailable")
      else none

  unfoldable pub start_unless :
      TrialSettings → String → ℕ → ℕ → User → Option (ℕ × String) → Exec Trials Config
  start_unless set ip now clock user (some (code, detail)) t = (err (http code detail), t)
  start_unless set ip now clock user none t =
      let (free, l) = take ip clock t.limiter in
      beside l (give_if_free set ip now user (free, l) t.session)

  unfoldable pub start_for :
      TrialSettings → String → ℕ → ℕ → Limiter → Result User × State env → Result Config × Trials
  start_for set ip now clock l (err e, s) = beside l (err e, s)
  start_for set ip now clock l (ok user, s) =
      start_unless set ip now clock user (refusal set now user)
        (record { session = s; limiter = l })

  -- `start_trial`; `clock` is the monotonic clock of the limiter
  unfoldable pub start_trial : TrialSettings → String → String → ℕ → ℕ → Exec Trials Config
  start_trial set sub ip now clock t =
      start_for set ip now clock t.limiter (current_user env sub t.session)
