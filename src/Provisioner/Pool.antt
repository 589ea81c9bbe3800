-- ===== src/Provisioner/Pool.antt =====
-- `_find_free_ip`: the first free address of a pool.
pub mod Free
use vpn_infrastructure_showc.Base.{
  ℕ, zero, suc, ◌+◌, ◌-◌, String, Bool, ◌&&◌, ◌||◌, not, Option, none, some, List, str_eq, any,
  if◌then◌else◌,
}
use Prim.Native.String
use vpn_infrastructure_showc.PyText.{decimal}
use vpn_infrastructure_showc.Model.{Config, Portal}

-- a prefix, and the first and last number after it
pub record Pool : Type 0 where
  pub prefix : String
  pub start : ℕ
  pub end : ℕ

-- `CLIENT_POOL`
abbrev pub client_pool : Pool
client_pool = record { prefix = "10.88.88"; start = 42; end = 199 }

-- `TRIAL_POOL`
abbrev pub trial_pool : Pool
trial_pool = record { prefix = "10.88.89"; start = 10; end = 250 }

-- `f"{prefix}.{i}"`
unfoldable pub address : String → ℕ → String
address prefix i = String.◌++◌ prefix (String.◌++◌ "." (decimal i))

-- an active row of this location holds the address
abbrev pub holds_address : String → String → Config → Bool
holds_address location ip c =
    c.is_active && str_eq c.location location && str_eq c.peer_ip ip && not (str_eq c.peer_ip "")

-- `candidate in used`
unfoldable pub is_used : Portal → String → List String → String → Bool
is_used db location exclude ip =
    any (holds_address location ip) db.configs || any (λ u. str_eq u ip) exclude

-- the loop over `n` numbers from `i` on
unfoldable pub first_free : (String → Bool) → String → ℕ → ℕ → Option String
first_free used prefix zero i = none
first_free used prefix (suc n) i =
    let rest = first_free used prefix n (i + 1) in
    if used (address prefix i) then rest else some (address prefix i)

-- `_find_free_ip`
unfoldable pub find_free_ip : Portal → List String → Pool → String → Option String
find_free_ip db exclude pool location =
    first_free (is_used db location exclude) pool.prefix (pool.end + 1 - pool.start) pool.start
