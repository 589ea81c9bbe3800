-- ===== src/Nodes.antt =====
-- The calls that leave the portal's process: the wrappers on an entry node, reached over SSH, and
-- the making of keys. Neither is code of the portal, so they are an interface. An answer is what
-- `ssh` printed, or none where the call raised (a timeout).
use vpn_infrastructure_showc.Base.{String, Option, List}
use vpn_infrastructure_showc.Locations.{Settings}
use vpn_infrastructure_showc.Model.{Portal}

pub data Command : Type 0 where
  -- `sudo pwa-awg-show`
  awg_show : Command
  -- `sudo pwa-add-peer` with a public key, a preshared key, an address and a name
  add_peer : String → String → String → String → Command
  -- `sudo pwa-del-peer` with a public key
  del_peer : String → Command

pub record Keys : Type 0 where
  pub private_key : String
  pub public_key : String
  pub preshared_key : String

pub record Environment : Type 1 where
  pub World : Type 0
  pub settings : Settings
  -- `_ssh_bridge`: standard output and standard error
  pub ssh : String → Command → World → Option (String × String) × World
  -- the addresses that `_entry_used_ips` reads from the output of `pwa-awg-show`
  pub read_addresses : String → List String
  -- `_awg_genkey`, `_awg_pubkey`, `_awg_genpsk`; none if one of them raised
  pub make_keys : World → Option Keys × World
  -- `_encrypt`
  pub encrypt : String → String
  -- `_decrypt`
  pub decrypt : String → String

-- A request's state: the session's view of the database, what has been committed, and the world.
pub record Session (W : Type 0) : Type 0 where
  pub db : Portal
  pub committed : Portal
  pub world : W
