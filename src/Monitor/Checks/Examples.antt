-- ===== src/Monitor/Checks/Examples.antt =====
-- Tests for the checks of a host.
use vpn_infrastructure_showc.Base.{◌≡◌, refl, some, none, [], ◌∷◌, pos, negsuc, List, ◌-ℤ◌}
use vpn_infrastructure_showc.Monitor.Checks.Probes.{whole, hundredths, Probe, Limits, Section}
use vpn_infrastructure_showc.Monitor.Checks.{
  Address, cpus, is_loaded, is_clock_off, link_problems, client_problems, used_in, pool_pct,
  pool_problems, job_problems, expiry_problems, joined, probe_problems, host_problems, skew_of,
  clock_skew,
}

abbrev limits : Limits
limits = record {
  disk_pct = pos 85;
  mem_avail_pct = pos 10;
  load_per_cpu = 200;
  clock_skew = 200;
  link_stale_s = pos 300;
  backup_max_s = pos 93600;
  pulled_backup_max_s = pos 97200;
  expiry_max_s = pos 7200;
  pool_warn_pct = 70;
  pool_bad_pct = 95;
}

abbrev section : Section
section = record {
  links = "awg1" ∷ [];
  clients = "awg0" ∷ [];
  pools = record { label = "paid"; prefix = "10.88.88"; lo = 42; hi = 45 } ∷ [];
  backup_max_s = none;
  pulled_backup_max_s = none;
  expiry_max_s = none;
}

abbrev probe : Probe
probe =
    ("disk_root_pct", whole (pos 91))
    ∷ ("load1", hundredths (pos 410))
    ∷ ("ncpu", whole (pos 2))
    ∷ ("clock_skew_s", hundredths (negsuc 249))
    ∷ ("awg.awg1.fresh", whole (negsuc 0))
    ∷ ("awg.awg0.peers", whole (pos 3))
    ∷ ("backup_age", whole (pos 100))
    ∷ []

abbrev taken : List Address
taken =
    record { head = "10.88.88"; last = 42 }
    ∷ record { head = "10.88.88"; last = 43 }
    ∷ record { head = "10.88.88"; last = 44 }
    ∷ []

found :
    host_problems "a" section limits taken (some probe)
    ≡ "a:disk" ∷ "a:load" ∷ "a:clock" ∷ "a:link:awg1" ∷ "a:pool:paid" ∷ []
unfolding host_problems probe_problems is_loaded cpus is_clock_off link_problems client_problems
    pool_problems pool_pct used_in job_problems expiry_problems joined ◌-ℤ◌
found = refl

behind : clock_skew (some (whole (pos 10))) (pos 1250) (pos 1300) ≡ some (negsuc 249)
unfolding clock_skew skew_of ◌-ℤ◌
behind = refl
