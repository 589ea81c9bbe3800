-- ===== src/Trial/Start/Outcome.antt =====
-- What a request for a trial leaves behind on each of its ends.
use vpn_infrastructure_showc.Base.{
  ℕ, ◌<◌, String, ◌≡◌, refl, ◌∙◌, ap, Bool, true, false, Bool-cases, inl, inr, Option, none, some,
  List, [], ◌∷◌, ◌++◌, arith, leb, ◌==◌, str_eq, select,
}
use vpn_infrastructure_showc.Model.{User, Config, TrialGrant, Portal, save_user}
use vpn_infrastructure_showc.Exec.{Result, ok, err, then_do}
use vpn_infrastructure_showc.Nodes.{Environment}
use vpn_infrastructure_showc.Notify.{notify, post, to_chat}
use vpn_infrastructure_showc.RateLimit.{Limiter, take}
use vpn_infrastructure_showc.Provisioner.Issue.{State, add_config}
use vpn_infrastructure_showc.Provisioner.Issue.Outcome.{
  IsIssued, IssueOutcome, issue_config-outcome,
}
use vpn_infrastructure_showc.Payments.{one_or_none}
use vpn_infrastructure_showc.Payments.Orders.{current_user, user_or_404}
use vpn_infrastructure_showc.Trial.{trial_end}
use vpn_infrastructure_showc.Trial.Start.{
  TrialSettings, confirmed, norm_of, already_granted, granted_today, grant_of, breaks_unique,
  write_grant, Trials, beside, finish_trial, give_trial, give_if_free, refusal, start_unless,
  start_for, start_trial,
}

-- a message leaves the devices and the grants alone
to_chat-rows :
    (chat : Option ℕ) (kind : String) (db : Portal)
    → ((to_chat chat kind db).configs ≡ db.configs)
      × ((to_chat chat kind db).trial_grants ≡ db.trial_grants)
to_chat-rows none kind db = (refl, refl)
to_chat-rows (some chat) kind db = elim (Bool-cases (chat == 0)) [
  | inl no_chat ↦ rw no_chat (refl, refl)
  | inr there ↦ rw there (refl, refl)
]

notify-rows :
    (now : ℕ) (user : User) (kind : String) (db : Portal)
    → ((notify now user kind none db).1.configs ≡ db.configs)
      × ((notify now user kind none db).1.trial_grants ≡ db.trial_grants)
unfolding notify post
notify-rows now user kind db = to_chat-rows user.telegram_id kind _

module _ (env : Environment) (set : TrialSettings) where
  -- the account as a trial makes it, and the row that records it
  abbrev pub started : ℕ → User → User
  started now user = record user { trial_until = some (trial_end set.trial_days now) }

  abbrev pub grant : String → ℕ → User → ℕ → TrialGrant
  grant ip now user key = grant_of user (norm_of (confirmed user)) ip key now

  -- A trial was started in the state `s`: it was allowed, new to the mailbox and to the
  -- Telegram account, and below the day's ceiling; the committed tables have one grant and one
  -- device more.
  pub record IsStarted (ip : String) (now : ℕ) (s : State env) (after : Portal) (user : User)
      (c : Config) : Type 0 where
    pub allowed : refusal env set now user ≡ none
    pub new : already_granted (norm_of (confirmed user)) user.telegram_id s.db ≡ false
    pub below : granted_today now s.db < set.daily_cap
    pub unique : breaks_unique (grant ip now user s.db.next_id) s.db ≡ false
    pub issued :
        IsIssued env
          (record s { db = write_grant (grant ip now user s.db.next_id) (started now user) s.db })
          (started now user)
          "trial"
          "trial"
          ""
          c
    pub devices : after.configs ≡ s.db.configs ++ c ∷ []
    pub grants : after.trial_grants ≡ s.db.trial_grants ++ grant ip now user s.db.next_id ∷ []

  abbrev pub GiveOutcome : String → ℕ → User → State env → Result Config × State env → Type 0
  GiveOutcome ip now user s (err e, s') = s'.committed ≡ s.committed
  GiveOutcome ip now user s (ok c, s') = IsStarted ip now s s'.committed user c

  module _ (ip : String) (now : ℕ) (user : User) (s : State env)
      (allowed : refusal env set now user ≡ none)
      (new : already_granted (norm_of (confirmed user)) user.telegram_id s.db ≡ false)
      (below : leb set.daily_cap (granted_today now s.db) ≡ false)
      (unique : breaks_unique (grant ip now user s.db.next_id) s.db ≡ false) where
    abbrev written : State env
    written = record s { db = write_grant (grant ip now user s.db.next_id) (started now user) s.db }

    finish-Outcome :
        (r : Result (Option Config) × State env)
        → IssueOutcome env written (started now user) "trial" "trial" "" r
        → GiveOutcome ip now user s (then_do (finish_trial env now (started now user)) r)
    unfolding finish_trial write_grant save_user add_config
    finish-Outcome (err e, t) h = h.saved
    finish-Outcome (ok none, t) h = h.saved
    finish-Outcome (ok (some c), t) (issued, added, saved) =
        let told = notify-rows now (started now user) "trial_started" t.db in
        record {
          allowed = allowed;
          new = new;
          below = ground (arith, below);
          unique = unique;
          issued = issued;
          devices = told.0 ∙ ap (λ (d : Portal). d.configs) added;
          grants = told.1 ∙ ap (λ (d : Portal). d.trial_grants) added;
        }

  give_trial-Outcome :
      (ip : String) (now : ℕ) (user : User) (s : State env)
      → refusal env set now user ≡ none
      → GiveOutcome ip now user s (give_trial env set ip now user s)
  unfolding give_trial
  give_trial-Outcome ip now user s allowed =
      elim (Bool-cases (already_granted (norm_of (confirmed user)) user.telegram_id s.db)) [
        | inl used ↦ rw used refl
        | inr new ↦ elim (Bool-cases (leb set.daily_cap (granted_today now s.db))) [
          | inl full ↦ rw (new, full) refl
          | inr below ↦ elim (Bool-cases (breaks_unique (grant ip now user s.db.next_id) s.db)) [
            | inl twice ↦ rw (new, below, twice) refl
            | inr unique ↦
                rw (new, below, unique)
                  (finish-Outcome ip now user s allowed new below unique _
                    (issue_config-outcome env (started now user) "trial" "trial" "" now _))
          ]
        ]
      ]

  -- An answer to a request: an error leaves the committed tables as they were, and a trial is one
  -- of the account that asked.
  abbrev pub StartOutcome : String → String → ℕ → Trials env → Result Config × Trials env → Type 0
  StartOutcome sub ip now t (err e, t') = t'.session.committed ≡ t.session.committed
  StartOutcome sub ip now t (ok c, t') =
      (user : User) × (select (λ (u : User). str_eq u.username sub) t.session.db.users ≡ user ∷ [])
      × IsStarted ip now t.session t'.session.committed user c

  module _ (sub ip : String) (now clock : ℕ) (t : Trials env) where
    beside-Outcome :
        (user : User) (l : Limiter) (r : Result Config × State env)
        → select (λ (u : User). str_eq u.username sub) t.session.db.users ≡ user ∷ []
        → GiveOutcome ip now user t.session r
        → StartOutcome sub ip now t (beside env l r)
    beside-Outcome user l (err e, s) one h = h
    beside-Outcome user l (ok c, s) one h = (user, one, h)

    free-Outcome :
        (user : User) (r : Bool × Limiter)
        → refusal env set now user ≡ none
        → GiveOutcome ip now user t.session (give_if_free env set ip now user r t.session)
    unfolding give_if_free
    free-Outcome user (true, l) allowed = give_trial-Outcome ip now user t.session allowed
    free-Outcome user (false, l) allowed = refl

    unless-Outcome :
        (user : User) (o : Option (ℕ × String))
        → select (λ (u : User). str_eq u.username sub) t.session.db.users ≡ user ∷ []
        → refusal env set now user ≡ o
        → StartOutcome sub ip now t (start_unless env set ip now clock user o t)
    unfolding start_unless
    unless-Outcome user (some (code, detail)) one e = refl
    unless-Outcome user none one e =
        beside-Outcome user _ _ one (free-Outcome user (take ip clock t.limiter) e)

    rows-Outcome :
        (rows : List User)
        → select (λ (u : User). str_eq u.username sub) t.session.db.users ≡ rows
        → StartOutcome sub ip now t (
            start_for env set ip now clock t.limiter
              (then_do (user_or_404 env) (one_or_none rows t.session)))
    unfolding start_for
    rows-Outcome [] one = refl
    rows-Outcome (user ∷ []) one = unless-Outcome user _ one refl
    rows-Outcome (x ∷ y ∷ rows) one = refl

    -- A request for a trial that is refused, or that fails at the node, leaves the committed tables
    -- as they were. One that is granted was allowed for the account, new to its mailbox and to its
    -- Telegram account and below the day's ceiling, and commits exactly one grant and one trial
    -- device more, at an address of the trial pool that was free.
    pub start_trial-outcome : StartOutcome sub ip now t (start_trial env set sub ip now clock t)
    unfolding start_trial current_user
    start_trial-outcome = rows-Outcome _ refl
