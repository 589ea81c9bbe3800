-- ===== src/Provisioner/Removal.antt =====
-- Taking a peer off its node: `_remove_peer_at` and `remove_peer_for`.
pub mod Quiet
use Prim.Native.String
use vpn_infrastructure_showc.Base.{
  String, Bool, false, Option, none, some, str_eq, ◌||◌, if◌then◌else◌,
}
use vpn_infrastructure_showc.Model.{Config}
use vpn_infrastructure_showc.Exec.{Exec, pure, ◌>>=◌}
use vpn_infrastructure_showc.Locations
use vpn_infrastructure_showc.Locations.{Location}
use vpn_infrastructure_showc.Nodes.{del_peer, Environment}
use vpn_infrastructure_showc.Provisioner.Issue.{State, run_ssh, wrapper_answer}

module _ (env : Environment) where
  -- `_remove_peer_at`; `_remove_peer_from_bridge` is this at Germany's host
  unfoldable pub remove_peer_at : String → String → Exec (State env) (Bool × String)
  remove_peer_at host pub_key = do
    printed ← run_ssh env host (del_peer pub_key)
    pure (wrapper_answer printed)

  unfoldable pub remove_at : String → Option Location → String → Exec (State env) (Bool × String)
  remove_at key none pub_key =
      pure (false, String.◌++◌ "location " (String.◌++◌ key " is not configured"))
  remove_at key (some loc) pub_key = remove_peer_at loc.host pub_key

  -- `remove_peer_for`; an empty location is the default one
  unfoldable pub remove_peer_for : Config → Exec (State env) (Bool × String)
  remove_peer_for config =
      if str_eq config.location "" || str_eq config.location Locations.default
      then remove_peer_at env.settings.bridge_ip config.public_key
      else remove_at config.location (Locations.get env.settings config.location) config.public_key
