-- ===== src/Provisioner/Removal/Quiet.antt =====
-- Taking a peer off its node does not touch the database.
use vpn_infrastructure_showc.Base.{String, Option, none, some, Bool-cases, inl, inr, str_eq, ◌||◌}
use vpn_infrastructure_showc.Model.{Config}
use vpn_infrastructure_showc.Locations
use vpn_infrastructure_showc.Locations.{Location}
use vpn_infrastructure_showc.Nodes.{Environment}
use vpn_infrastructure_showc.Provisioner.Issue.{State, wrapper_answer}
use vpn_infrastructure_showc.Provisioner.Issue.Same.{
  SameDb, SameDb-refl, run_ssh-SameDb, then_pure-SameDb,
}
use vpn_infrastructure_showc.Provisioner.Removal.{remove_peer_at, remove_at, remove_peer_for}

module _ (env : Environment) where
  pub remove_peer_at-SameDb :
      (host pub_key : String) (s : State env) → SameDb s (remove_peer_at env host pub_key s).1
  unfolding remove_peer_at
  remove_peer_at-SameDb host pub_key s =
      then_pure-SameDb env wrapper_answer s _ (run_ssh-SameDb env host _ s)

  remove_at-SameDb :
      (key : String) (o : Option Location) (pub_key : String) (s : State env)
      → SameDb s (remove_at env key o pub_key s).1
  unfolding remove_at
  remove_at-SameDb key none pub_key s = SameDb-refl s
  remove_at-SameDb key (some loc) pub_key s = remove_peer_at-SameDb loc.host pub_key s

  pub remove_peer_for-SameDb : (c : Config) (s : State env) → SameDb s (remove_peer_for env c s).1
  unfolding remove_peer_for
  remove_peer_for-SameDb c s =
      elim (Bool-cases (str_eq c.location "" || str_eq c.location Locations.default)) [
        | inl germany ↦ rw germany (remove_peer_at-SameDb env.settings.bridge_ip c.public_key s)
        | inr other ↦
            rw other
              (remove_at-SameDb c.location (Locations.get env.settings c.location) c.public_key s)
      ]
