-- ===== src/Devices.antt =====
-- pwa/api/config.py: a customer adds, renames and deletes a device.
pub mod Adding
pub mod Deleting
pub mod Reading
mod Examples
use vpn_infrastructure_showc.Base.{
  ℕ, ◌+◌, String, Bool, true, false, ◌&&◌, not, Option, none, some, List, map, length, first, leb,
  ◌==◌, str_eq, holds, is_none, select, if◌then◌else◌,
}
use vpn_infrastructure_showc.PyText.{strip}
use vpn_infrastructure_showc.Model.{User, Config, Portal, save_user, save_config}
use vpn_infrastructure_showc.Exec.{Exec, ok, err, http, ◌>>=◌}
use vpn_infrastructure_showc.Locations
use vpn_infrastructure_showc.Nodes.{Environment}
use vpn_infrastructure_showc.Plans.{config_limit}
use vpn_infrastructure_showc.Provisioner.Issue.{State, issue_config}
use vpn_infrastructure_showc.Provisioner.Removal.{remove_peer_for}
use vpn_infrastructure_showc.Provisioner.Activate.{commit}
use vpn_infrastructure_showc.Provisioner.ClientFile.{active_configs}
use vpn_infrastructure_showc.Subscriptions.{has_active_subscription}
use vpn_infrastructure_showc.Payments.{one_or_none}
use vpn_infrastructure_showc.Payments.Orders.{current_user}

-- `NewConfigRequest`
pub record NewDevice : Type 0 where
  pub name : String
  pub location : Option String

-- `config.location or DEFAULT`
abbrev pub place_of : Config → String
place_of c = if str_eq c.location "" then Locations.default else c.location

-- the paid devices of an account in a location
unfoldable pub devices_at : User → String → Portal → List Config
devices_at user location db =
    select (λ c. not (str_eq c.kind "trial") && str_eq (place_of c) location)
      (active_configs user db)

-- the active device with that key, if it is the user's
abbrev pub own_device : ℕ → User → Portal → List Config
own_device key user db =
    select (λ c. (c.id == key) && (c.user_id == user.id) && c.is_active) db.configs

-- the address that the account shows after a device is gone
unfoldable pub after_removal : User → Config → Portal → User
after_removal user c db =
    if holds (λ ip. str_eq ip c.peer_ip) user.peer_ip
    then record user {
      peer_ip = first (
          map (λ (d : Config). d.peer_ip)
            (select (λ d. not (d.id == c.id)) (active_configs user db)));
    }
    else user

module _ (env : Environment) where
  -- `req.location or locations.default_for_new()`
  unfoldable pub wanted : Option String → String
  wanted none = Locations.default_for_new env.settings
  wanted (some location) =
      if str_eq location "" then Locations.default_for_new env.settings else location

  -- the row is committed; the number of devices there, and the limit
  unfoldable pub finish_adding : ℕ → ℕ → Option Config → Exec (State env) (Config × ℕ × ℕ)
  finish_adding used limit none s = (err (http 503 "Could not provision a device"), s)
  finish_adding used limit (some c) s = (ok (c, used + 1, limit), commit env s)

  unfoldable pub add_for : NewDevice → ℕ → User → Exec (State env) (Config × ℕ × ℕ)
  add_for req now user s =
      let location = wanted req.location in
      let used = length (devices_at user location s.db) in
      let limit = config_limit user.plan in
      let issued =
        (issue_config env user req.name "paid" location now >>= finish_adding used limit) s in
      if not (has_active_subscription user now)
      then (err (http 402 "No active subscription"), s)
      else if is_none (Locations.get env.settings location)
      then (err (http 422 "Unknown location"), s)
      else if Locations.is_paused env.settings location
      then (err (http 409 "location_paused"), s)
      else if leb limit used
      then (err (http 409 "Plan allows no more devices in this location"), s)
      else issued

  -- the endpoint `add_config`
  unfoldable pub add_device : String → NewDevice → ℕ → Exec (State env) (Config × ℕ × ℕ)
  add_device sub req now s = (current_user env sub >>= add_for req now) s

  unfoldable pub rename_found : String → Option Config → Exec (State env) Config
  rename_found name none s = (err (http 404 "Config not found"), s)
  rename_found name (some c) s =
      let c' : Config = record c { name = name } in
      (ok c', commit env (record s { db = save_config c' s.db }))

  unfoldable pub rename_for : ℕ → String → User → Exec (State env) Config
  rename_for key wanted_name user s =
      let name = strip wanted_name in
      let found = (one_or_none (own_device key user s.db) >>= rename_found name) s in
      if str_eq name "" then (err (http 422 "Name is empty"), s) else found

  -- `rename_config`
  unfoldable pub rename_device : String → ℕ → String → Exec (State env) Config
  rename_device sub key name s = (current_user env sub >>= rename_for key name) s

  -- after the node's answer
  unfoldable pub finish_deleting : User → Config → Bool × String → Exec (State env) ℕ
  finish_deleting user c (false, reason) s = (err (http 503 "Could not remove the device"), s)
  finish_deleting user c (true, reason) s =
      let db' = save_config (record c { is_active = false }) s.db in
      (ok c.id, commit env (record s { db = save_user (after_removal user c db') db' }))

  unfoldable pub delete_found : User → Option Config → Exec (State env) ℕ
  delete_found user none s = (err (http 404 "Config not found"), s)
  delete_found user (some c) s =
      let removed = (remove_peer_for env c >>= finish_deleting user c) s in
      if str_eq c.kind "trial" then (err (http 409 "trial_device"), s) else removed

  unfoldable pub delete_for : ℕ → User → Exec (State env) ℕ
  delete_for key user s = (one_or_none (own_device key user s.db) >>= delete_found user) s

  -- `delete_config`
  unfoldable pub delete_device : String → ℕ → Exec (State env) ℕ
  delete_device sub key s = (current_user env sub >>= delete_for key) s
