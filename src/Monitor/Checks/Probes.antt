-- ===== src/Monitor/Checks/Probes.antt =====
-- infrastructure/monitoring/sov_monitor.py: what a probe prints, and the settings it is judged by.
use vpn_infrastructure_showc.Base.{
  ℕ, suc, ◌*◌, String, Bool, true, false, not, Option, none, some, List, ◌==◌, str_eq, ℤ, pos,
  negsuc, ◌-ℤ◌,
}
use vpn_infrastructure_showc.Dict.{Dict}

-- what a line of a probe says
pub data Value : Type 0 where
  whole : ℤ → Value
  hundredths : ℤ → Value
  text : String → Value

abbrev pub Probe : Type 0
Probe = Dict Value

pub record Limits : Type 0 where
  pub disk_pct : ℤ
  pub mem_avail_pct : ℤ
  -- in hundredths
  pub load_per_cpu : ℕ
  pub clock_skew : ℕ
  -- in seconds
  pub link_stale_s : ℤ
  pub backup_max_s : ℤ
  pub pulled_backup_max_s : ℤ
  pub expiry_max_s : ℤ
  pub pool_warn_pct : ℕ
  pub pool_bad_pct : ℕ

-- a pool as `parse_pools` reads it: its label, prefix and range
pub record PoolRange : Type 0 where
  pub label : String
  pub prefix : String
  pub lo : ℕ
  pub hi : ℕ

-- a host's section of the settings, its lists already split; a limit of its own where it names one
pub record Section : Type 0 where
  pub links : List String
  pub clients : List String
  pub pools : List PoolRange
  pub backup_max_s : Option ℤ
  pub pulled_backup_max_s : Option ℤ
  pub expiry_max_s : Option ℤ

-- `isinstance(value, int)` and a test of it
abbrev pub whole_holds : (ℤ → Bool) → Option Value → Bool
whole_holds p (some (whole n)) = p n
whole_holds p _ = false

abbrev pub times_100 : ℤ → ℤ
times_100 (pos n) = pos (n * 100)
times_100 (negsuc n) = pos 0 -ℤ pos (suc n * 100)

-- a number, in hundredths; none if the value is missing or a text
abbrev pub in_hundredths : Option Value → Option ℤ
in_hundredths (some (whole n)) = some (times_100 n)
in_hundredths (some (hundredths n)) = some n
in_hundredths _ = none

abbrev pub magnitude : ℤ → ℕ
magnitude (pos n) = n
magnitude (negsuc n) = suc n

-- `if value`
abbrev pub is_truthy : Option Value → Bool
is_truthy none = false
is_truthy (some (whole (pos n))) = not (n == 0)
is_truthy (some (whole (negsuc n))) = true
is_truthy (some (hundredths (pos n))) = not (n == 0)
is_truthy (some (hundredths (negsuc n))) = true
is_truthy (some (text s)) = not (str_eq s "")
