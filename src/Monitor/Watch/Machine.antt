-- ===== src/Monitor/Watch/Machine.antt =====
-- The watch as a machine of two phases, and the letters it writes.
use mathlib.Core.Path.{subst}
use vpn_infrastructure_showc.Base.{
  ℕ, ◌+◌, ◌≤◌, String, ◌≡◌, refl, sym, ap, ◌∙◌, Bool, true, false, some, List, [], ◌∷◌, ◌++◌, arith,
  ltb, ◌==◌, ==_self, str_eq, count, count-append, find, first, first-select, length, select,
  select-append_last, update,
}
use vpn_infrastructure_showc.Monitor.{MonitorEvent, Board, silent_key, is_open}
use vpn_infrastructure_showc.Monitor.Watch.{
  stale_after_s, Watched, silent, alert_failed, alerted, quiet, recovery_failed, recovered,
  silent_event, alert, recover, watch_event, watch_since, watch,
}

-- the two phases of the watch
pub data Phase : Type 0 where
  listening alarmed : Phase

-- What the watch promises: alarmed is entered exactly when a letter about a silence went out, and
-- left exactly when the all-clear went out. The arguments say whether the last report is too old,
-- and whether the mail service took the letter.
abbrev pub next_phase : Phase → Bool → Bool → Watched × Phase
next_phase listening true true = (alerted, alarmed)
next_phase listening true false = (alert_failed, listening)
next_phase listening false sent = (quiet, listening)
next_phase alarmed true sent = (silent, alarmed)
next_phase alarmed false true = (recovered, listening)
next_phase alarmed false false = (recovery_failed, alarmed)

-- the phase that a table of events stands for
abbrev pub phase_of : List MonitorEvent → Phase
phase_of [] = listening
phase_of (e ∷ events) = alarmed

abbrev pub open_rows : Board → List MonitorEvent
open_rows b = select (is_open silent_key) b.events

abbrev pub phase : Board → Phase
phase b = phase_of (open_rows b)

-- One event of the portal's own is open at most, and each letter about a silence but the last has
-- had its all-clear.
abbrev pub letters_of : String → Board → ℕ
letters_of kind b = count (str_eq kind) b.letters

abbrev pub pending : Phase → ℕ
pending listening = 0
pending alarmed = 1

pub record IsPaired (b : Board) : Type 0 where
  pub one : length (open_rows b) ≤ 1
  pub paired : letters_of "silent" b ≡ letters_of "recovered" b + pending (phase b)

still-closed :
    (now key : ℕ) (events : List MonitorEvent)
    → select (is_open silent_key) events ≡ []
    → select
        (is_open silent_key)
        (update (λ r. r.id == key) (λ r. record r { ended_at = some now }) events)
      ≡ []
still-closed now key [] none_there = refl
still-closed now key (x ∷ events) none_there = ground (arith, still-closed now key events)

closed-rows :
    (now key : ℕ) (e : MonitorEvent) (events : List MonitorEvent)
    → (e.id == key) ≡ true
    → select (is_open silent_key) events ≡ e ∷ []
    → select
        (is_open silent_key)
        (update (λ r. r.id == key) (λ r. record r { ended_at = some now }) events)
      ≡ []
closed-rows now key e [] same one = ground arith
closed-rows now key e (x ∷ events) same one =
    ground (arith, same, still-closed now key events, closed-rows now key e events same)

find-open :
    (b : Board) (rows : List MonitorEvent)
    → open_rows b ≡ rows
    → find (is_open silent_key) b.events ≡ first rows
find-open b rows e = sym (first-select (is_open silent_key) b.events) ∙ ap first e

-- What one check does, in the words of the machine.
pub record Implements (b : Board) (stale sent : Bool) (r : Watched × Board) : Type 0 where
  pub moves : (r.0, phase r.1) ≡ next_phase (phase b) stale sent
  pub sound : IsPaired r.1

module _ (now last : ℕ) (b : Board) (h : IsPaired b) where
  paired_at :
      (rows : List MonitorEvent)
      → open_rows b ≡ rows
      → letters_of "silent" b ≡ letters_of "recovered" b + pending (phase_of rows)
  paired_at rows e = h.paired ∙ ap (λ r. letters_of "recovered" b + pending (phase_of r)) e

  sounded :
      (b' : Board) (rows rows' : List MonitorEvent) (kind : String)
      → open_rows b ≡ rows
      → open_rows b' ≡ rows'
      → length rows' ≤ 1
      → b'.letters ≡ b.letters ++ kind ∷ []
      → count (str_eq "silent") (kind ∷ []) + pending (phase_of rows)
        ≡ count (str_eq "recovered") (kind ∷ []) + pending (phase_of rows')
      → IsPaired b'
  sounded b' rows rows' kind e e' le letters balance = record {
    one = rw e' le;
    paired =
        rw
          (
            e',
            letters,
            count-append (str_eq "silent") b.letters (kind ∷ []),
            count-append (str_eq "recovered") b.letters (kind ∷ []),
          )
          (omega (arith, paired_at rows e, balance));
  }

  implements :
      (rows : List MonitorEvent) (stale sent : Bool)
      → open_rows b ≡ rows
      → Implements b stale sent (watch_event now last stale sent (first rows) b)
  unfolding watch_event alert recover silent_event
  implements [] true true e =
      let row = silent_event b.next_id last in
      let e' = select-append_last (is_open silent_key) b.events row e refl in
      record {
        moves = rw (e, e') refl;
        sound = sounded _ [] (row ∷ []) "silent" e e' (omega arith) refl refl;
      }
  implements [] true false e = record { moves = rw e refl; sound = h }
  implements [] false sent e = record { moves = rw e refl; sound = h }
  implements (r ∷ rows) true sent e = record { moves = rw e refl; sound = h }
  implements (r ∷ rows) false false e = record { moves = rw e refl; sound = h }
  implements (r ∷ []) false true e =
      let e' = closed-rows now r.id r b.events (==_self r.id) e in
      record {
        moves = rw (e, e') refl;
        sound = sounded _ (r ∷ []) [] "recovered" e e' (omega arith) refl refl;
      }
  implements (r ∷ x ∷ rows) false true e = ground (arith, subst (λ l. length l ≤ 1) e h.one)

-- Every check of a portal that has had a report does what the machine of two phases does: a letter
-- about a silence goes out exactly when the reports have just become too old, the all-clear exactly
-- when they are back, a letter that failed is tried again by the next check, and the letters stay
-- paired. The tables are ones in which the letters were paired.
pub watch-Implements :
    (now last : ℕ) (sent : Bool) (b : Board)
    → b.received_at ≡ some last
    → IsPaired b
    → Implements b (ltb (last + stale_after_s) now) sent (watch now sent b)
unfolding watch watch_since
watch-Implements now last sent b received h =
    subst (λ o. Implements b (ltb (last + stale_after_s) now) sent (watch_since now sent o b))
      (sym received)
      (rw (find-open b (open_rows b) refl)
        (implements now last b h (open_rows b) (ltb (last + stale_after_s) now) sent refl))
