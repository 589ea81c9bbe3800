-- ===== src/Monitor/Checks.antt =====
-- infrastructure/monitoring/sov_monitor.py: what of a host's probe is a problem. A problem is its
-- key here; the wording is not modelled. A whole number of a probe is an integer, another number
-- is counted in hundredths, and so are the limits on such numbers; ages, handshakes and processors
-- are numbers, as the probe prints them.
pub mod Probes
mod Examples
use Prim.Native.String.{◌++◌}
use vpn_infrastructure_showc.Base.{
  ℕ, ◌+◌, ◌-◌, ◌*◌, ◌/◌, String, Bool, true, false, not, ◌&&◌, ◌||◌, Option, none, some, List, [],
  ◌∷◌, map, leb, ◌==◌, str_eq, is_some, is_none, get_or_else, count, if◌then◌else◌, ℤ, pos, ◌-ℤ◌,
  leb_ℤ, ltb_ℤ,
}
use vpn_infrastructure_showc.Base
use vpn_infrastructure_showc.Dict.{lookup}
use vpn_infrastructure_showc.Monitor.Checks.Probes.{
  Value, whole, Probe, Limits, PoolRange, Section, whole_holds, times_100, in_hundredths, magnitude,
  is_truthy,
}

-- a key is a problem if the test says so
abbrev pub flagged : Bool → String → List String
flagged true key = key ∷ []
flagged false key = []

-- `probe.get("ncpu") or 1`, for a number of processors
unfoldable pub cpus : Option Value → ℕ
cpus (some (whole (pos n))) = if n == 0 then 1 else n
cpus _ = 1

unfoldable pub is_loaded : Limits → Probe → Bool
is_loaded limits probe =
    Base.holds (λ load. leb_ℤ (pos (limits.load_per_cpu * cpus (lookup "ncpu" probe))) load)
      (in_hundredths (lookup "load1" probe))

-- an unsynchronised clock, or one that is off
unfoldable pub is_clock_off : Limits → Probe → Bool
is_clock_off limits probe =
    Base.holds (λ n. magnitude n == 0) (in_hundredths (lookup "clock_synced" probe))
    || Base.holds (λ skew. leb limits.clock_skew (magnitude skew))
        (in_hundredths (lookup "clock_skew_s" probe))

-- never, or too long ago; an interface that is missing is a problem too
abbrev pub is_link_stale : ℤ → Option Value → Bool
is_link_stale stale none = true
is_link_stale stale (some v) =
    Base.holds (λ n. ltb_ℤ n (pos 0) || ltb_ℤ (times_100 stale) n) (in_hundredths (some v))

unfoldable pub link_problems : String → ℤ → Probe → List String → List String
link_problems name stale probe [] = []
link_problems name stale probe (i ∷ rest) =
    Base.◌++◌
      (flagged (is_link_stale stale (lookup ("awg." ++ i ++ ".fresh") probe))
        (name ++ ":link:" ++ i))
      (link_problems name stale probe rest)

unfoldable pub client_problems : String → Probe → List String → List String
client_problems name probe [] = []
client_problems name probe (i ∷ rest) =
    Base.◌++◌ (flagged (is_none (lookup ("awg." ++ i ++ ".peers") probe)) (name ++ ":iface:" ++ i))
      (client_problems name probe rest)

-- an address, as the part before the last dot and the number after it
pub record Address : Type 0 where
  pub head : String
  pub last : ℕ

abbrev pub is_in_range : PoolRange → Address → Bool
is_in_range r a = str_eq a.head r.prefix && leb r.lo a.last && leb a.last r.hi

-- how full a pool is, in whole per cent; `pool_usage` of the addresses of the clients' interfaces
unfoldable pub used_in : PoolRange → List Address → ℕ
used_in r addresses = count (is_in_range r) addresses

unfoldable pub pool_pct : PoolRange → List Address → ℕ
pool_pct r addresses = used_in r addresses * 100 / (r.hi - r.lo + 1)

unfoldable pub pool_problems : String → Limits → List Address → List PoolRange → List String
pool_problems name limits addresses [] = []
pool_problems name limits addresses (r ∷ rest) =
    let others = pool_problems name limits addresses rest in
    let pct = pool_pct r addresses in
    if leb limits.pool_bad_pct pct
    then (name ++ ":poolfull:" ++ r.label) ∷ others
    else if leb limits.pool_warn_pct pct
    then (name ++ ":pool:" ++ r.label) ∷ others
    else others

-- an age that is missing, or past the limit; `own` is the section's limit
abbrev pub is_old : ℤ → Option ℤ → Option Value → Bool
is_old limit own none = true
is_old limit own (some v) =
    Base.holds (λ age. ltb_ℤ (times_100 (get_or_else own limit)) age) (in_hundredths (some v))

-- a job is watched where the section names a limit or the probe an age
abbrev pub is_watched : Option ℤ → Option Value → Bool
is_watched own age = is_some own || is_some age

unfoldable pub job_problems : String → String → ℤ → Option ℤ → Option Value → List String
job_problems name kind limit own age =
    flagged (is_watched own age && is_old limit own age) (name ++ kind)

-- the sweep did not run, or it ran with failures
unfoldable pub expiry_problems : String → Limits → Section → Probe → List String
expiry_problems name limits section probe =
    let age = lookup "expiry_age" probe in
    if not (is_watched section.expiry_max_s age)
    then []
    else if is_old limits.expiry_max_s section.expiry_max_s age
    then (name ++ ":expiry") ∷ []
    else flagged (is_truthy (lookup "expiry_failures" probe)) (name ++ ":expiry_fail")

abbrev pub is_below : Option Value → Option Value → Bool
is_below (some (whole up)) (some (whole want)) = ltb_ℤ up want
is_below _ _ = false

-- the keys of the checks, in order
unfoldable pub joined : List (List String) → List (List String) → List String
joined [] [] = []
joined [] (ks ∷ rest) = Base.◌++◌ ks (joined [] rest)
joined (ks ∷ rest) more = Base.◌++◌ ks (joined rest more)

unfoldable pub probe_problems : String → Section → Limits → List Address → Probe → List String
probe_problems name section limits addresses probe =
    let keys =
      flagged (whole_holds (λ n. leb_ℤ limits.disk_pct n) (lookup "disk_root_pct" probe)) ":disk"
      ∷ flagged (whole_holds (λ n. ltb_ℤ n limits.mem_avail_pct) (lookup "mem_avail_pct" probe))
          ":mem"
      ∷ flagged (is_loaded limits probe) ":load"
      ∷ flagged (is_truthy (lookup "failed_units" probe)) ":units"
      ∷ flagged (is_clock_off limits probe) ":clock"
      ∷ [] in
    joined (map {A = List String} (λ ks. map (λ k. name ++ k) ks) keys) (
      link_problems name limits.link_stale_s probe section.links
      ∷ client_problems name probe section.clients
      ∷ pool_problems name limits addresses section.pools
      ∷ job_problems name ":backup" limits.backup_max_s section.backup_max_s
          (lookup "backup_age" probe)
      ∷ job_problems name ":pulled" limits.pulled_backup_max_s section.pulled_backup_max_s
          (lookup "pulled_backup_age" probe)
      ∷ expiry_problems name limits section probe
      ∷ flagged (is_below (lookup "containers_up" probe) (lookup "containers_expected" probe))
          (name ++ ":containers")
      ∷ [])

-- `host_problems`; a host without a probe does not answer
unfoldable pub host_problems : String → Section → Limits → List Address → Option Probe → List String
host_problems name section limits addresses none = (name ++ ":down") ∷ []
host_problems name section limits addresses (some probe) =
    probe_problems name section limits addresses probe

unfoldable pub skew_of : ℤ → ℤ → Option ℤ → Option ℤ
skew_of before after none = none
skew_of before after (some t) =
    if ltb_ℤ t before
    then some (t -ℤ before)
    else if ltb_ℤ after t
    then some (t -ℤ after)
    else some (pos 0)

-- `clock_skew`: how far a clock lies outside the moments before and after the call
unfoldable pub clock_skew : Option Value → ℤ → ℤ → Option ℤ
clock_skew clock before after = skew_of before after (in_hundredths clock)
