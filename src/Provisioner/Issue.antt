-- ===== src/Provisioner/Issue.antt =====
-- The calls of the node's wrappers, and `issue_config`: keys, a free address, the peer on the
-- node, and the row.
pub mod Same
mod Address
pub mod Outcome
use Prim.Native.String
use text.Mathlib.Text.{starts_with, find?}
use vpn_infrastructure_showc.Base.{
  ℕ, zero, suc, String, Bool, true, false, Option, none, some, List, [], ◌∷◌, ◌++◌, str_eq, is_some,
  if◌then◌else◌,
}
use vpn_infrastructure_showc.PyText.{strip}
use vpn_infrastructure_showc.Model.{User, Config, Portal}
use vpn_infrastructure_showc.Exec.{Exec, Result, ok, err, failure, pure, ◌>>=◌, ◌>>◌}
use vpn_infrastructure_showc.Locations
use vpn_infrastructure_showc.Locations.{Location}
use vpn_infrastructure_showc.Nodes.{Command, awg_show, add_peer, Keys, Environment, Session}
use vpn_infrastructure_showc.Provisioner.Pool.{Pool, client_pool, trial_pool, find_free_ip}

-- `(ok, reason)` from what the wrapper printed
unfoldable pub wrapper_answer : String × String → Bool × String
wrapper_answer (stdout, stderr) =
    if starts_with stdout "ok:"
    then (true, "ok")
    else (false, strip (String.◌++◌ stdout (String.◌++◌ " " stderr)))

-- `"ip in use" in reason`
abbrev pub is_ip_in_use : String → Bool
is_ip_in_use reason = is_some (find? reason "ip in use")

unfoldable pub new_row :
    Portal → User → String → String → String → String → Keys → (String → String) → ℕ → Config
new_row db user name kind location ip keys encrypt now = record {
  id = db.next_id;
  user_id = user.id;
  name = name;
  peer_ip = ip;
  kind = kind;
  location = location;
  private_key = encrypt keys.private_key;
  public_key = keys.public_key;
  preshared_key = encrypt keys.preshared_key;
  is_active = true;
  created_at = now;
}

-- `db.add(config)`
unfoldable pub add_config : Config → Portal → Portal
add_config c db = record db { next_id = suc db.next_id; configs = db.configs ++ c ∷ [] }

abbrev pub pool_of : String → Pool
pool_of kind = if str_eq kind "trial" then trial_pool else client_pool

-- the label of the peer on the node
abbrev pub client_name : User → String → String
client_name user kind =
    String.slice (String.◌++◌ (if str_eq kind "trial" then "trial-" else "auto-") user.username) 0
      32

module _ (env : Environment) where
  abbrev pub State : Type 0
  State = Session env.World

  -- the answer of a host, with the world that the call leaves
  abbrev pub answered : {A : Type 0} → Option A × env.World → State → Result A × State
  answered (none, w) s = (err failure, record s { world = w })
  answered (some a, w) s = (ok a, record s { world = w })

  -- `_ssh_bridge`
  unfoldable pub run_ssh : String → Command → Exec State (String × String)
  run_ssh host cmd s = answered (env.ssh host cmd s.world) s

  -- `_add_peer_at`, which `_add_peer_to_bridge` calls with Germany's host
  unfoldable pub add_peer_at : String → Keys → String → String → Exec State (Bool × String)
  add_peer_at host keys ip name = do
    printed ← run_ssh host (add_peer keys.public_key keys.preshared_key (String.◌++◌ ip "/32") name)
    pure (wrapper_answer printed)

  -- the addresses in the answer, and none at all if the call raised
  abbrev pub or_nothing : Result (String × String) × State → Result (List String) × State
  or_nothing (ok printed, s) = (ok (env.read_addresses printed.0), s)
  or_nothing (err e, s) = (ok [], s)

  -- `_entry_used_ips`
  unfoldable pub entry_used_ips : String → Exec State (List String)
  entry_used_ips host s = or_nothing (run_ssh host awg_show s)

  -- the end of a try: the address was taken on, the node knows the address already, or it refused
  unfoldable pub after_try :
      Bool × String → String → Exec State (Option String) → Exec State (Option String)
  after_try (true, reason) ip again = pure (some ip)
  after_try (false, reason) ip again = if is_ip_in_use reason then again else pure none

  -- one round: the address that was found is put on the node
  unfoldable pub try_address :
      Location
      → Keys
      → String
      → (String → Exec State (Option String))
      → Option String
      → Exec State (Option String)
  try_address loc keys name again none = pure none
  try_address loc keys name again (some ip) =
      add_peer_at loc.host keys ip name >>= λ answer. after_try answer ip (again ip)

  -- the loop over at most `n` tries
  unfoldable pub find_and_add :
      ℕ → Location → Pool → Keys → String → List String → Exec State (Option String)
  find_and_add zero loc pool keys name tried s = (ok none, s)
  find_and_add (suc n) loc pool keys name tried s =
      try_address loc keys name (λ ip. find_and_add n loc pool keys name (ip ∷ tried))
        (find_free_ip s.db tried pool loc.key) s

  unfoldable pub save_row :
      User → String → String → Location → Keys → ℕ → Option String → Exec State (Option Config)
  save_row user name kind loc keys now none s = (ok none, s)
  save_row user name kind loc keys now (some ip) s =
      let row = new_row s.db user name kind loc.key ip keys env.encrypt now in
      (ok (some row), record s { db = add_config row s.db })

  unfoldable pub issue_with_keys :
      User → String → String → Location → ℕ → Option Keys → Exec State (Option Config)
  issue_with_keys user name kind loc now none = pure none
  issue_with_keys user name kind loc now (some keys) = do
    tried ← entry_used_ips loc.host
    ip ← find_and_add 10 loc (pool_of kind) keys (client_name user kind) tried
    save_row user name kind loc keys now ip

  -- the keys are made in this process; none if that failed
  unfoldable pub fresh_keys : Exec State (Option Keys)
  fresh_keys s = let (keys, w) = env.make_keys s.world in (ok keys, record s { world = w })

  unfoldable pub issue_at :
      User → String → String → ℕ → Option Location → Exec State (Option Config)
  issue_at user name kind now none = pure none
  issue_at user name kind now (some loc) = fresh_keys >>= issue_with_keys user name kind loc now

  -- `issue_config`: none if no device could be issued. A trial is in the default location.
  unfoldable pub issue_config : User → String → String → String → ℕ → Exec State (Option Config)
  issue_config user name kind location now =
      issue_at user name kind now
        (Locations.get env.settings (if str_eq kind "trial" then Locations.default else location))
