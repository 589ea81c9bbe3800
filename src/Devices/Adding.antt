-- ===== src/Devices/Adding.antt =====
-- A device is added within the limit of its location, or nothing changes.
use vpn_infrastructure_showc.Base.{
  ℕ, ◌+◌, ◌≤◌, String, ◌≡◌, refl, true, false, Option, none, some, List, [], ◌∷◌, arith, length,
  leb, str_eq, select, is_none, Bool-cases, inl, inr,
}
use vpn_infrastructure_showc.Model.{User, Config}
use vpn_infrastructure_showc.Exec.{Result, ok, err, then_do}
use vpn_infrastructure_showc.Locations
use vpn_infrastructure_showc.Nodes.{Environment}
use vpn_infrastructure_showc.Plans.{config_limit}
use vpn_infrastructure_showc.Provisioner.Issue.{State}
use vpn_infrastructure_showc.Provisioner.Issue.Outcome.{
  with_row, IsIssued, IssueOutcome, issue_config-outcome,
}
use vpn_infrastructure_showc.Provisioner.Issue.Same.{SameDb, SameDb-refl}
use vpn_infrastructure_showc.Subscriptions.{has_active_subscription}
use vpn_infrastructure_showc.Payments.{one_or_none}
use vpn_infrastructure_showc.Payments.Orders.{current_user, user_or_404}
use vpn_infrastructure_showc.Devices.{
  NewDevice, devices_at, wanted, finish_adding, add_for, add_device,
}

module _ (env : Environment) where
  -- A device was added: the account has a paid period, the location takes new devices and had room.
  pub record IsAdded (s s' : State env) (req : NewDevice) (now : ℕ) (user : User) (c : Config)
      (used limit : ℕ) : Type 0 where
    pub paid : has_active_subscription user now ≡ true
    pub open_location : Locations.is_paused env.settings (wanted env req.location) ≡ false
    pub limit_of_plan : limit ≡ config_limit user.plan
    pub counted : used ≡ length (devices_at user (wanted env req.location) s.db) + 1
    pub within : used ≤ limit
    pub issued : IsIssued env s user req.name "paid" (wanted env req.location) c
    pub one_more : s'.db ≡ with_row env c s.db
    pub saved : s'.committed ≡ s'.db

  abbrev AddFor : State env → NewDevice → ℕ → User → Result (Config × ℕ × ℕ) × State env → Type 0
  AddFor s req now user (err e, s') = SameDb s s'
  AddFor s req now user (ok (c, used, limit), s') = IsAdded s s' req now user c used limit

  finish-AddFor :
      (s : State env) (req : NewDevice) (now : ℕ) (user : User)
      (r : Result (Option Config) × State env)
      → has_active_subscription user now ≡ true
      → Locations.is_paused env.settings (wanted env req.location) ≡ false
      → leb (config_limit user.plan) (length (devices_at user (wanted env req.location) s.db))
        ≡ false
      → IssueOutcome env s user req.name "paid" (wanted env req.location) r
      → AddFor s req now user (
          then_do
            (finish_adding env
              (length (devices_at user (wanted env req.location) s.db))
              (config_limit user.plan))
            r)
  unfolding finish_adding
  finish-AddFor s req now user (err e, t) paid open_here room h = h
  finish-AddFor s req now user (ok none, t) paid open_here room h = h
  finish-AddFor s req now user (ok (some c), t) paid open_here room (issued, added, saved) =
      record {
        paid = paid;
        open_location = open_here;
        limit_of_plan = refl;
        counted = refl;
        within = ground (arith, room);
        issued = issued;
        one_more = added;
        saved = refl;
      }

  add_for-AddFor :
      (s : State env) (req : NewDevice) (now : ℕ) (user : User)
      → AddFor s req now user (add_for env req now user s)
  unfolding add_for
  add_for-AddFor s req now user = elim (Bool-cases (has_active_subscription user now)) [
    | inr ended ↦ rw ended (SameDb-refl s)
    | inl paid ↦
        elim (Bool-cases (is_none (Locations.get env.settings (wanted env req.location)))) [
          | inl unknown ↦ rw (paid, unknown) (SameDb-refl s)
          | inr known ↦
              elim (Bool-cases (Locations.is_paused env.settings (wanted env req.location))) [
                | inl closed ↦ rw (paid, known, closed) (SameDb-refl s)
                | inr open_here ↦
                    elim (Bool-cases (
                      leb (config_limit user.plan)
                        (length (devices_at user (wanted env req.location) s.db)))) [
                          | inl full ↦ rw (paid, known, open_here, full) (SameDb-refl s)
                          | inr room ↦
                              rw (paid, known, open_here, room)
                                (finish-AddFor s req now user _ paid open_here room (
                                  issue_config-outcome env user req.name "paid"
                                    (wanted env req.location) now s))
                        ]
              ]
        ]
  ]

  -- How the request for a device ends.
  abbrev pub AddOutcome :
      String → NewDevice → ℕ → State env → Result (Config × ℕ × ℕ) × State env → Type 0
  AddOutcome sub req now s (err e, s') = SameDb s s'
  AddOutcome sub req now s (ok (c, used, limit), s') =
      (user : User) × (select (λ (u : User). str_eq u.username sub) s.db.users ≡ user ∷ [])
      × IsAdded s s' req now user c used limit

  AddFor-Outcome :
      (sub : String) (s : State env) (req : NewDevice) (now : ℕ) (user : User)
      (r : Result (Config × ℕ × ℕ) × State env)
      → select (λ (u : User). str_eq u.username sub) s.db.users ≡ user ∷ []
      → AddFor s req now user r
      → AddOutcome sub req now s r
  AddFor-Outcome sub s req now user (err e, s') one h = h
  AddFor-Outcome sub s req now user (ok (c, used, limit), s') one h = (user, one, h)

  users-Outcome :
      (sub : String) (s : State env) (req : NewDevice) (now : ℕ) (users : List User)
      → select (λ (u : User). str_eq u.username sub) s.db.users ≡ users
      → AddOutcome sub req now s
          (then_do (add_for env req now) (then_do (user_or_404 env) (one_or_none users s)))
  users-Outcome sub s req now [] e = SameDb-refl s
  users-Outcome sub s req now (user ∷ []) e =
      AddFor-Outcome sub s req now user _ e (add_for-AddFor s req now user)
  users-Outcome sub s req now (u ∷ v ∷ us) e = SameDb-refl s

  -- Adding a device, whatever the node does. If it succeeds, one device more is committed, for the
  -- one account of that name, which has a paid period, in a configured location that is not
  -- paused; the reported number of its devices there is one more than before, and within the limit
  -- of its plan. Otherwise the database is as it was, in the session and committed.
  pub add_device-outcome :
      (sub : String) (req : NewDevice) (now : ℕ) (s : State env)
      → AddOutcome sub req now s (add_device env sub req now s)
  unfolding add_device current_user
  add_device-outcome sub req now s = users-Outcome sub s req now _ refl
