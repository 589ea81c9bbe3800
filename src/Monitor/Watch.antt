-- ===== src/Monitor/Watch.antt =====
-- pwa/services/monitor_watch.py: the letter when the reports stop, and the one when they are back.
pub mod Machine
mod Examples
use vpn_infrastructure_showc.Base.{
  ℕ, suc, ◌+◌, Bool, true, false, Option, none, some, [], ◌∷◌, ◌++◌, ltb, ◌==◌, find, update,
}
use vpn_infrastructure_showc.Monitor.{MonitorEvent, Board, silent_key, is_open}

-- `STALE_AFTER_S`
abbrev pub stale_after_s : ℕ
stale_after_s = 600

-- the answers of `watch`
pub data Watched : Type 0 where
  no_reports silent alert_failed alerted quiet recovery_failed recovered : Watched

unfoldable pub silent_event : ℕ → ℕ → MonitorEvent
silent_event key last = record {
  id = key;
  key = silent_key;
  level = "bad";
  text = "Мониторинг (am1) молчит";
  started_at = last;
  ended_at = none;
}

-- the event is added once the letter went out; `sent` is the mail service's answer
unfoldable pub alert : ℕ → Bool → Board → Watched × Board
alert last false b = (alert_failed, b)
alert last true b = (
  alerted,
  record b {
    next_id = suc b.next_id;
    events = b.events ++ silent_event b.next_id last ∷ [];
    letters = b.letters ++ "silent" ∷ [];
  },
)

-- the event is closed once the all-clear went out
unfoldable pub recover : ℕ → MonitorEvent → Bool → Board → Watched × Board
recover now e false b = (recovery_failed, b)
recover now e true b = (
  recovered,
  record b {
    events = update (λ r. r.id == e.id) (λ r. record r { ended_at = some now }) b.events;
    letters = b.letters ++ "recovered" ∷ [];
  },
)

-- `silent` says whether the last report is too old
unfoldable pub watch_event : ℕ → ℕ → Bool → Bool → Option MonitorEvent → Board → Watched × Board
watch_event now last true sent (some e) b = (silent, b)
watch_event now last true sent none b = alert last sent b
watch_event now last false sent none b = (quiet, b)
watch_event now last false sent (some e) b = recover now e sent b

unfoldable pub watch_since : ℕ → Bool → Option ℕ → Board → Watched × Board
watch_since now sent none b = (no_reports, b)
watch_since now sent (some last) b =
    watch_event now last (ltb (last + stale_after_s) now) sent (find (is_open silent_key) b.events)
      b

-- `watch`
unfoldable pub watch : ℕ → Bool → Board → Watched × Board
watch now sent b = watch_since now sent b.received_at b
