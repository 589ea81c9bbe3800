-- ===== src/Devices/Reading.antt =====
-- pwa/api/config.py: the devices of an account, and their files. These
-- endpoints write nothing.
pub mod Signed
pub mod Link
mod Examples
use Prim.Native.String.{◌++◌}
use vpn_infrastructure_showc.Base.{
  ℕ, ◌+◌, String, Bool, false, ◌&&◌, not, Option, none, some, List, [], ◌∷◌, map, length, ltb,
  str_eq, select, if◌then◌else◌,
}
use vpn_infrastructure_showc.Model.{User, Config}
use vpn_infrastructure_showc.Exec.{Exec, ok, err, http, ◌>>=◌}
use vpn_infrastructure_showc.Locations
use vpn_infrastructure_showc.Locations.{Settings, Location}
use vpn_infrastructure_showc.Nodes.{Environment}
use vpn_infrastructure_showc.Plans.{config_limit}
use vpn_infrastructure_showc.Provisioner.Issue.{State}
use vpn_infrastructure_showc.Provisioner.ClientFile.{
  active_configs, render_config, get_client_config,
}
use vpn_infrastructure_showc.Subscriptions.{has_active_subscription, has_access}
use vpn_infrastructure_showc.Payments.{one_or_none}
use vpn_infrastructure_showc.Payments.Orders.{current_user}
use vpn_infrastructure_showc.Devices.{place_of, own_device}

-- what `client_config` answers with
pub record ClientConfig : Type 0 where
  pub config : String
  pub peer_ip : Option String
  pub plan : Option String

-- a file to download: its name and its text
pub record Download : Type 0 where
  pub file_name : String
  pub content : String

-- `_describe`
pub record Description : Type 0 where
  pub id : ℕ
  pub name : String
  pub peer_ip : String
  pub created_at : ℕ
  pub kind : String
  pub location : String

unfoldable pub describe : Config → Description
describe c = record {
  id = c.id;
  name = c.name;
  peer_ip = c.peer_ip;
  created_at = c.created_at;
  kind = c.kind;
  location = place_of c;
}

-- `len([c for c in configs if (c.location or DEFAULT) == key])`
unfoldable pub used_at : String → List Config → ℕ
used_at key configs = length (select (λ c. str_eq (place_of c) key) configs)

-- one location of the list; `paused` is absent where it is false
pub record Slot : Type 0 where
  pub key : String
  pub limit : ℕ
  pub used : ℕ
  pub slot_recommended : Bool
  pub slot_paused : Bool

unfoldable pub slot_of : Settings → List Config → ℕ → Location → Slot
slot_of settings configs limit loc = record {
  key = loc.key;
  limit = limit;
  used = used_at loc.key configs;
  slot_recommended =
      str_eq loc.key (Locations.recommended settings) && ltb 1 (length (Locations.keys settings));
  slot_paused = Locations.is_paused settings loc.key;
}

-- `_location_slots`
unfoldable pub location_slots : Settings → List Config → ℕ → List Slot
location_slots settings configs limit =
    map (slot_of settings configs limit) (Locations.all_locations settings)

-- what `list_configs` answers with
pub record Listing : Type 0 where
  pub plan : Option String
  pub limit : ℕ
  pub used : ℕ
  pub locations : List Slot
  pub configs : List Description

-- a trial alone has its one device in Germany
unfoldable pub listing : Settings → User → ℕ → List Config → Listing
listing settings user now configs =
    let paid = has_active_subscription user now in
    let limit = if paid then config_limit user.plan else 1 in
    record {
      plan = user.plan;
      limit = limit;
      used = used_at Locations.default configs;
      locations =
          if paid
          then location_slots settings configs limit
          else record {
            key = Locations.default;
            limit = 1;
            used = length configs;
            slot_recommended = false;
            slot_paused = false;
          }
            ∷ [];
      configs = map describe configs;
    }

-- `f"{name}.conf"`
abbrev pub conf_name : String → String
conf_name name = name ++ ".conf"

module _ (env : Environment) where
  -- the file's text, or a location that the portal has no longer
  unfoldable pub found_conf : Option (Option String) → Exec (State env) String
  found_conf none s = (err (http 404 "Config not found"), s)
  found_conf (some none) s = (err (http 503 "Location unavailable"), s)
  found_conf (some (some conf)) s = (ok conf, s)

  unfoldable pub newest_for : ℕ → User → Exec (State env) String
  newest_for now user s =
      if has_access user now
      then found_conf (get_client_config env user s.db) s
      else (err (http 402 "No active subscription"), s)

  unfoldable pub client_config_for : ℕ → User → Exec (State env) ClientConfig
  client_config_for now user s =
      (newest_for now user >>= λ conf t.
      (ok (record { config = conf; peer_ip = user.peer_ip; plan = user.plan }), t))
        s

  -- the endpoint `client_config`
  unfoldable pub client_config : String → ℕ → Exec (State env) ClientConfig
  client_config sub now s = (current_user env sub >>= client_config_for now) s

  unfoldable pub raw_for : String → ℕ → User → Exec (State env) Download
  raw_for sub now user s =
      (newest_for now user >>= λ conf t.
      (ok (record { file_name = conf_name ("sovereign-" ++ sub); content = conf }), t))
        s

  -- `client_config_raw`
  unfoldable pub client_config_raw : String → ℕ → Exec (State env) Download
  client_config_raw sub now s = (current_user env sub >>= raw_for sub now) s

  unfoldable pub list_for : ℕ → User → Exec (State env) Listing
  list_for now user s =
      if has_access user now
      then (ok (listing env.settings user now (active_configs user s.db)), s)
      else (err (http 402 "No active subscription"), s)

  -- `list_configs`
  unfoldable pub list_configs : String → ℕ → Exec (State env) Listing
  list_configs sub now s = (current_user env sub >>= list_for now) s

  unfoldable pub rendered : Config → Option String → Exec (State env) Download
  rendered c none s = (err (http 503 "Location unavailable"), s)
  rendered c (some content) s = (ok (record { file_name = conf_name c.name; content = content }), s)

  unfoldable pub config_or_404 : String → Option Config → Exec (State env) Config
  config_or_404 detail none s = (err (http 404 detail), s)
  config_or_404 detail (some c) s = (ok c, s)

  -- the caller's active device with that key, for an account with access
  unfoldable pub own_open : ℕ → ℕ → User → Exec (State env) Config
  own_open key now user s =
      let found = (one_or_none (own_device key user s.db) >>= config_or_404 "Config not found") s in
      if has_access user now then found else (err (http 402 "No active subscription"), s)

  unfoldable pub file_of : Config → Exec (State env) Download
  file_of c s = rendered c (render_config env c) s

  -- `config_raw`
  unfoldable pub config_raw : String → ℕ → ℕ → Exec (State env) Download
  config_raw sub key now s = ((current_user env sub >>= own_open key now) >>= file_of) s
