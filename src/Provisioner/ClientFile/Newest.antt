-- ===== src/Provisioner/ClientFile/Newest.antt =====
-- The devices of an account, newest first.
use vpn_infrastructure_showc.Base.{
  ◌≡◌, Bool, List, count, IsDescending, sort_desc-IsDescending, count-sort_desc,
}
use vpn_infrastructure_showc.Model.{User, Config, Portal}
use vpn_infrastructure_showc.Provisioner.Activate.{held_by}
use vpn_infrastructure_showc.Provisioner.ClientFile.{active_configs}

-- No device is older than one after it.
abbrev pub IsNewestFirst : List Config → Type 0
IsNewestFirst = IsDescending (λ (c : Config). c.created_at)

-- The devices that the portal lists are exactly the active devices of the account (as many with any
-- property), and none is older than one listed after it.
pub active_configs-IsNewestFirst :
    (user : User) (db : Portal) (p : Config → Bool)
    → IsNewestFirst (active_configs user db)
      × (count p (active_configs user db) ≡ count p (held_by user db))
unfolding active_configs
active_configs-IsNewestFirst user db p = (
  sort_desc-IsDescending (λ (c : Config). c.created_at) (held_by user db),
  count-sort_desc (λ (c : Config). c.created_at) p (held_by user db),
)
