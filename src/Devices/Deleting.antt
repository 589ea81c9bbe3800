-- ===== src/Devices/Deleting.antt =====
-- A device is deleted only after its node confirmed the removal.
use vpn_infrastructure_showc.Base.{
  ℕ, String, ◌≡◌, true, false, [], ◌∷◌, ◌==◌, str_eq, select, update,
}
use vpn_infrastructure_showc.Model.{User, Config}
use vpn_infrastructure_showc.Exec.{Result, ok, err}
use vpn_infrastructure_showc.Nodes.{Environment}
use vpn_infrastructure_showc.Provisioner.Issue.{State}
use vpn_infrastructure_showc.Provisioner.Issue.Same.{SameDb}
use vpn_infrastructure_showc.Provisioner.Removal.{remove_peer_for}
use vpn_infrastructure_showc.Devices.{own_device}

module _ (env : Environment) where
  -- A device of the account was deleted: the node confirmed, and its row alone is inactive.
  pub record IsDeleted (s s' : State env) (key : ℕ) (user : User) (c : Config) : Type 0 where
    pub own : own_device key user s.db ≡ c ∷ []
    pub of_plan : str_eq c.kind "trial" ≡ false
    pub reason : String
    pub confirmed : (remove_peer_for env c s).0 ≡ ok (true, reason)
    pub rows :
        s'.db.configs
        ≡ update (λ r. r.id == c.id) (λ _. record c { is_active = false }) s.db.configs
    pub saved : s'.committed ≡ s'.db

  -- How the request to delete a device ends.
  abbrev pub DeleteOutcome : String → ℕ → State env → Result ℕ × State env → Type 0
  DeleteOutcome sub key s (err e, s') = SameDb s s'
  DeleteOutcome sub key s (ok deleted, s') =
      (user : User) × (c : Config) × (select (λ (u : User). str_eq u.username sub) s.db.users
        ≡ user ∷ [])
      × (deleted ≡ c.id)
      × IsDeleted s s' key user c
