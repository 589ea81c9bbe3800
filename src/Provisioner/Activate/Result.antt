-- ===== src/Provisioner/Activate/Result.antt =====
-- The ends of `activate_payment`: nothing, or the whole transaction committed.
use mathlib.Core.Path.{subst}
use vpn_infrastructure_showc.Base.{
  sym, select, All, update, ◌==◌, ◌∙◌, ℕ, String, ◌≡◌, ◌≢◌, refl, ◌⊎◌, Bool, true, false, Option,
  none, some, List, [], ◌∷◌, arith, inl, inr,
}
use vpn_infrastructure_showc.Model.{User, Config, Payment, Portal}
use vpn_infrastructure_showc.Exec
use vpn_infrastructure_showc.Exec.{ok, err, then_do}
use vpn_infrastructure_showc.Locations
use vpn_infrastructure_showc.Nodes.{Environment}
use vpn_infrastructure_showc.Plans.{Plan, plan_info}
use vpn_infrastructure_showc.Provisioner.Issue.{State}
use vpn_infrastructure_showc.Provisioner.Issue.Outcome.{
  with_row, IsIssued, IssueOutcome, issue_config-outcome,
}
use vpn_infrastructure_showc.Provisioner.Issue.Same.{SameDb, SameDb-refl}
use vpn_infrastructure_showc.Provisioner.Removal.{remove_peer_at}
use vpn_infrastructure_showc.Provisioner.Removal.Quiet.{remove_peer_at-SameDb}
use vpn_infrastructure_showc.Provisioner.Activate.{
  paid_devices, settle, commit, mark_removed, remove_trials, commit_if, complete, with_device,
  first_or_renewal, activate_plan, activate_payment,
}
use vpn_infrastructure_showc.Provisioner.Activate.Written.{paid, settle-rows}
use vpn_infrastructure_showc.Provisioner.Activate.Retired.{
  IsTrialOf, IsKeptOrRetired, Each, Each-refl, Each-save_config, trials-IsTrialOf, paid_rows,
  paid_devices-rows,
}
use vpn_infrastructure_showc.Plans.Limits.{plan_info-IsSound}
use vpn_infrastructure_showc.Provisioner.Activate.Account.{IsPaidUp, settle-IsPaidUp}
use vpn_infrastructure_showc.Provisioner.Activate.Ledger.{
  SameLedger, SameLedger-refl, SameLedger-trans, SameLedger-save_config,
}

module _ (env : Environment) where
  -- the session and what is committed both hold the ledger of `a`, and its devices but for trial
  -- devices of the account
  record Holds (user : User) (db : Portal) (a : Portal) (s : State env) : Type 0 where
    view : SameLedger a s.db
    saved : SameLedger a s.committed
    devices : Each (IsKeptOrRetired user db) a.configs s.db.configs
    devices_saved : Each (IsKeptOrRetired user db) a.configs s.committed.configs

  module _ (user : User) (db : Portal) (a : Portal) where
    Holds-later : (s t : State env) → SameDb s t → Holds user db a s → Holds user db a t
    Holds-later s t same h = record {
      view = rw same.view h.view;
      saved = rw same.saved h.saved;
      devices = rw same.view h.devices;
      devices_saved = rw same.saved h.devices_saved;
    }

    Holds-mark_removed :
        (c : Config) (s : State env) (r : Exec.Result (Bool × String) × State env)
        → IsTrialOf user db c
        → SameDb s r.1
        → Holds user db a s
        → Holds user db a (mark_removed env c r)
    Holds-mark_removed c s (ok (true, reason), t) trial same h =
        let k = Holds-later s t same h in
        record {
          view =
              SameLedger-trans k.view
                (SameLedger-save_config (record c { is_active = false }) t.db);
          saved = k.saved;
          devices = Each-save_config user db c a.configs t.db trial k.devices;
          devices_saved = k.devices_saved;
        }
    Holds-mark_removed c s (ok (false, reason), t) trial same h = Holds-later s t same h
    Holds-mark_removed c s (err e, t) trial same h = Holds-later s t same h

    Holds-remove_trials :
        (cs : List Config) (s : State env)
        → All (IsTrialOf user db) cs
        → Holds user db a s
        → Holds user db a (remove_trials env cs s)
    unfolding remove_trials
    Holds-remove_trials [] s trials h = h
    Holds-remove_trials (c ∷ cs) s trials h =
        let r = remove_peer_at env env.settings.bridge_ip c.public_key s in
        Holds-remove_trials cs (mark_removed env c r) trials.1 (
          Holds-mark_removed c s r trials.0
            (remove_peer_at-SameDb env env.settings.bridge_ip c.public_key s) h)

    Holds-commit_if :
        (cs : List Config) (s : State env)
        → Holds user db a s
        → Holds user db a (commit_if env cs s)
    unfolding commit_if
    Holds-commit_if [] s h = h
    Holds-commit_if (c ∷ cs) s h = record {
      view = h.view;
      saved = h.view;
      devices = h.devices;
      devices_saved = h.devices;
    }

  -- What is committed after a payment was settled from the tables `start`: the ledger of the one
  -- transaction; the account's row paid up; every order as it was, but the paid one, which is marked; and every device as it
  -- was, but for trial devices that the account had in `db`, which may have been taken off.
  pub record IsSettled (db : Portal) (owner user : User) (payment : Payment) (plan : Plan) (now : ℕ)
      (start after : Portal) : Type 0 where
    pub ledger : SameLedger (settle user payment plan now start).1 after
    pub orders :
        after.payments
        ≡ update (λ (r : Payment). r.id == payment.id) (λ _. paid payment now) start.payments
    pub account :
        All
          (IsPaidUp user payment plan now start)
          (select (λ (u : User). u.id == user.id) after.users)
    pub devices : Each (IsKeptOrRetired owner db) start.configs after.configs

  complete-IsSettled :
      (payment : Payment) (plan : Plan) (now : ℕ) (trials : List Config) (db : Portal)
      (owner user : User) (s : State env)
      → plan_info payment.plan ≡ some plan
      → All (IsTrialOf owner db) trials
      → IsSettled db owner user payment plan now s.db
          (complete env payment plan now trials user s).committed
  unfolding complete
  complete-IsSettled payment plan now trials db owner user s known all =
      let db' = (settle user payment plan now s.db).1 in
      let rows = settle-rows user payment plan now s.db in
      let h = Holds-commit_if owner db db' trials _ (
        Holds-remove_trials owner db db' trials (commit env (record s { db = db' })) all (record {
          view = SameLedger-refl db';
          saved = SameLedger-refl db';
          devices = Each-refl owner db db'.configs;
          devices_saved = Each-refl owner db db'.configs;
        })) in
      record {
        ledger = h.saved;
        orders = h.saved.payments ∙ rows.1;
        account = rw h.saved.users (
            settle-IsPaidUp user payment plan now s.db
              (plan_info-IsSound payment.plan plan known).0);
        devices =
            subst
              (λ before.
                Each (IsKeptOrRetired owner db) before
                  (complete env payment plan now trials user s).committed.configs)
              rows.0 h.devices_saved;
      }

  -- What the transaction starts from: for a renewal, the database as it was; for a first purchase,
  -- one device more, whose address goes on the account.
  abbrev pub IsPrepared : State env → User → User → Portal → Type 0
  IsPrepared s user user' db' =
      ((paid_rows user s.db ≢ []) × (user' ≡ user) × (db' ≡ s.db))
      ⊎ ((paid_rows user s.db ≡ [])
          × (c : Config) × IsIssued env s user "device-1" "paid"
              (Locations.default_for_new env.settings) c
          × (user' ≡ record user { peer_ip = some c.peer_ip })
          × (db' ≡ with_row env c s.db))

  abbrev pub ActivateOutcome :
      State env → User → Payment → ℕ → Exec.Result Bool × State env → Type 0
  ActivateOutcome s user payment now (ok false, s') = SameDb s s'
  ActivateOutcome s user payment now (err e, s') = SameDb s s'
  ActivateOutcome s user payment now (ok true, s') =
      (plan : Plan) × (user' : User) × (db' : Portal) × (plan_info payment.plan ≡ some plan)
      × IsPrepared s user user' db'
      × IsSettled s.db user user' payment plan now db' s'.committed

  with_device-outcome :
      (s : State env) (user : User) (payment : Payment) (plan : Plan) (now : ℕ)
      (trials : List Config) (r : Exec.Result (Option Config) × State env)
      → All (IsTrialOf user s.db) trials
      → plan_info payment.plan ≡ some plan
      → paid_devices user s.db ≡ []
      → IssueOutcome env s user "device-1" "paid" (Locations.default_for_new env.settings) r
      → ActivateOutcome s user payment now
          (then_do (with_device env user payment plan now trials) r)
  unfolding with_device
  with_device-outcome s user payment plan now trials (ok none, t) all known empty h = h
  with_device-outcome s user payment plan now trials (err e, t) all known empty h = h
  with_device-outcome s user payment plan now trials (ok (some c), t) all known empty
        (issued, added, saved) =
      let user' : User = record user { peer_ip = some c.peer_ip } in
      (
        plan,
        user',
        t.db,
        known,
        inr (sym (paid_devices-rows user s.db) ∙ empty, c, issued, refl, added),
        complete-IsSettled payment plan now trials s.db user user' t known all,
      )

  first_or_renewal-outcome :
      (s : State env) (user : User) (payment : Payment) (plan : Plan) (now : ℕ)
      (trials devices : List Config)
      → All (IsTrialOf user s.db) trials
      → plan_info payment.plan ≡ some plan
      → paid_devices user s.db ≡ devices
      → ActivateOutcome s user payment now
          (first_or_renewal env user payment plan now trials devices s)
  unfolding first_or_renewal
  first_or_renewal-outcome s user payment plan now trials [] all known empty =
      with_device-outcome s user payment plan now trials _ all known empty (
        issue_config-outcome env user "device-1" "paid" (Locations.default_for_new env.settings) now
          s)
  first_or_renewal-outcome s user payment plan now trials (c ∷ cs) all known some_devices = (
    plan,
    user,
    s.db,
    known,
    inl ((λ e. ground (arith, some_devices, paid_devices-rows user s.db ∙ e)), refl, refl),
    complete-IsSettled payment plan now trials s.db user user s known all,
  )

  activate_plan-outcome :
      (s : State env) (user : User) (payment : Payment) (now : ℕ) (o : Option Plan)
      → plan_info payment.plan ≡ o
      → ActivateOutcome s user payment now (activate_plan env user payment now o s)
  unfolding activate_plan
  activate_plan-outcome s user payment now none e = SameDb-refl s
  activate_plan-outcome s user payment now (some plan) e =
      first_or_renewal-outcome s user payment plan now _ _ (trials-IsTrialOf user s.db) e refl

  -- Activating a payment is all or nothing. If it succeeds, it starts from the tables as they were
  -- for a customer who holds a paid device, and otherwise from those with exactly one device more,
  -- issued in the location for new devices. What is committed has the accounts, payments, credit,
  -- rewards and messages of the one transaction `settle` on them; the account has the plan, until the
  -- later of now and the end it had, plus the days of the plan and of the rewards due to it; no
  -- order is other than it was, but the paid one, which is marked as paid now; and the devices are all there, in order and
  -- unchanged, except that active trial devices of the account may have become inactive. If it
  -- returns false or raises, nothing of the database has changed, in the session or committed.
  pub activate_payment-outcome :
      (user : User) (payment : Payment) (now : ℕ) (s : State env)
      → ActivateOutcome s user payment now (activate_payment env user payment now s)
  unfolding activate_payment
  activate_payment-outcome user payment now s = activate_plan-outcome s user payment now _ refl
