-- ===== src/Provisioner/ClientFile.antt =====
-- The devices of an account, newest first, and the text of a client's file.
pub mod Newest
use Prim.Native.String
use vpn_infrastructure_showc.Base.{
  sort_desc, ℕ, String, Option, none, some, List, [], ◌∷◌, str_eq, first, if◌then◌else◌,
}
use vpn_infrastructure_showc.PyText.{decimal}
use vpn_infrastructure_showc.Model.{User, Config, Portal}
use vpn_infrastructure_showc.Locations
use vpn_infrastructure_showc.Locations.{Location, de_params}
use vpn_infrastructure_showc.Nodes.{Environment}
use vpn_infrastructure_showc.Provisioner.Activate.{held_by}

-- `active_configs`; rows of one moment stay in the table's order
unfoldable pub active_configs : User → Portal → List Config
active_configs user db = sort_desc (λ (c : Config). c.created_at) (held_by user db)

-- `"\n".join(f"{k} = {v}" ...)`
unfoldable pub param_lines : List (String × String) → String
param_lines [] = ""
param_lines ((k, v) ∷ []) = String.◌++◌ k (String.◌++◌ " = " v)
param_lines ((k, v) ∷ p ∷ ps) =
    String.◌++◌ k (String.◌++◌ " = " (String.◌++◌ v (String.◌++◌ "\n" (param_lines (p ∷ ps)))))

abbrev line : String → String → String
line k v = String.◌++◌ k (String.◌++◌ " = " (String.◌++◌ v "\n"))

unfoldable pub conf_text :
    List (String × String) → ℕ → String → String → String → String → String → String
conf_text params mtu pub_key endpoint priv psk peer_ip = String.◌++◌ "[Interface]\n" (
    String.◌++◌ (line "PrivateKey" priv) (
      String.◌++◌ (line "Address" (String.◌++◌ peer_ip "/32")) (
        String.◌++◌ (line "DNS" "1.1.1.1") (
          String.◌++◌ (line "MTU" (decimal mtu)) (
            String.◌++◌ (param_lines params) (
              String.◌++◌ "\n\n[Peer]\n" (
                String.◌++◌ (line "PublicKey" pub_key) (
                  String.◌++◌ (line "PresharedKey" psk) (
                    String.◌++◌ (line "Endpoint" endpoint) (
                      String.◌++◌ (line "AllowedIPs" "0.0.0.0/0")
                        (line "PersistentKeepalive" "25")))))))))))

module _ (env : Environment) where
  -- Germany's file is made from this module's own settings
  unfoldable pub conf_for : String → String → String → Option Location → Option String
  conf_for priv psk peer_ip none = none
  conf_for priv psk peer_ip (some loc) =
      if str_eq loc.key Locations.default
      then some (
          conf_text de_params 1300 env.settings.bridge_public_key env.settings.bridge_endpoint priv
            psk peer_ip)
      else some (conf_text loc.params loc.mtu loc.public_key loc.endpoint priv psk peer_ip)

  -- `_build_conf`; none is the ValueError of a location that is not configured
  unfoldable pub build_conf : String → String → String → String → Option String
  build_conf priv psk peer_ip location =
      conf_for priv psk peer_ip (Locations.get env.settings location)

  -- `render_config`
  unfoldable pub render_config : Config → Option String
  render_config config =
      build_conf (env.decrypt config.private_key) (env.decrypt config.preshared_key) config.peer_ip
        (if str_eq config.location "" then Locations.default else config.location)

  abbrev render_first : Option Config → Option (Option String)
  render_first none = none
  render_first (some config) = some (render_config config)

  -- `get_client_config`: none where the account has no device
  unfoldable pub get_client_config : User → Portal → Option (Option String)
  get_client_config user db = render_first (first (active_configs user db))
