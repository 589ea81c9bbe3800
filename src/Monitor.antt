-- ===== src/Monitor.antt =====
-- Monitoring: the monitor on the backup host, and what the portal keeps of its reports. Moments
-- are whole seconds here.
pub mod Steps
pub mod Checks
pub mod Watch
pub mod Report
use vpn_infrastructure_showc.Base.{ℕ, String, Bool, Option, List, is_none, ◌&&◌, str_eq}

pub record MonitorEvent : Type 0 where
  pub id : ℕ
  pub key : String
  pub level : String
  pub text : String
  pub started_at : ℕ
  pub ended_at : Option ℕ

-- The portal's tables of the monitor: the moment of the last report, the events, and the letters
-- that the mail service took on (their subjects' kinds).
pub record Board : Type 0 where
  pub next_id : ℕ
  pub received_at : Option ℕ
  pub events : List MonitorEvent
  pub letters : List String

-- the event of the portal itself
abbrev pub silent_key : String
silent_key = "portal:monitor-silent"

abbrev pub is_open : String → MonitorEvent → Bool
is_open key e = str_eq e.key key && is_none e.ended_at
