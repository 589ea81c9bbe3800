-- ===== src/Monitor/Report/Examples.antt =====
-- Tests for the monitor's reports.
use vpn_infrastructure_showc.Monitor.Report.Counts.{open_of}
use vpn_infrastructure_showc.Monitor.Report.Exact.{IsSound, receive-opens}
use vpn_infrastructure_showc.Monitor.Report.Sound.{receive-IsSound}
use vpn_infrastructure_showc.Base.{arith, ℕ, Option, String, ◌≡◌, refl, some, none, [], ◌∷◌, map}
use vpn_infrastructure_showc.Exec.{err, http}
use vpn_infrastructure_showc.PyText.{strip}
use vpn_infrastructure_showc.Monitor.{Board}
use vpn_infrastructure_showc.Monitor.Steps.{Problem}
use vpn_infrastructure_showc.Monitor.Report.{
  Report, authorised, by_key, note_problem, note_problems, close_others, note_notice, note_notices,
  forget_old, take_report, receive,
}

abbrev board : Board
board = record { next_id = 1; received_at = none; events = []; letters = [] }

abbrev problem : String → Problem
problem key = record { key = key; text = key; level = "bad"; since = 50 }

abbrev first_report : Report
first_report = record {
  problems = problem "a:disk" ∷ problem "b:down" ∷ [];
  notices = record { key = "a:reboot"; text = "a"; at = 90 } ∷ [];
}

abbrev second_report : Report
second_report = record { problems = problem "b:down" ∷ []; notices = [] }

abbrev after : Board
after =
    (receive "t" (some "Bearer t ") 220 second_report
      (receive "t" (some "Bearer t") 100 first_report board).1).1

one_closed :
    map {B = String × Option ℕ} (λ e. (e.key, e.ended_at)) after.events
    ≡ ("a:disk", some 220) ∷ ("b:down", none) ∷ ("a:reboot", some 90) ∷ []
unfolding receive authorised take_report by_key note_problems note_problem close_others note_notices
    note_notice forget_old strip
one_closed = refl

stranger : (receive "t" (some "Bearer x") 100 first_report board).0 ≡ err (http 401 "Bad token")
unfolding receive authorised strip
stranger = refl

empty-IsSound : IsSound board
empty-IsSound = record { ids = λ i. omega arith; fresh = tt; single = λ k. omega arith }

abbrev earlier : Board
earlier = (receive "t" (some "Bearer t") 100 first_report board).1

earlier-IsSound : IsSound earlier
earlier-IsSound = receive-IsSound "t" (some "Bearer t") 100 first_report board refl empty-IsSound

receive-IsSound_example : IsSound after
receive-IsSound_example =
    receive-IsSound "t" (some "Bearer t ") 220 second_report earlier refl earlier-IsSound

-- the disk's problem is over, the other goes on
receive-opens_example :
    open_of "b:down" (receive "t" (some "Bearer t ") 220 second_report earlier).1.events ≡ 1
unfolding receive authorised strip
receive-opens_example =
    receive-opens "b:down" "t" (some "Bearer t ") 220 second_report earlier earlier-IsSound refl
      refl
