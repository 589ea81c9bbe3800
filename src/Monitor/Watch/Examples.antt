-- ===== src/Monitor/Watch/Examples.antt =====
-- Tests and witnesses for the watch over the monitor.
use vpn_infrastructure_showc.Base.{◌≡◌, refl, true, false, some, [], ◌∷◌, arith}
use vpn_infrastructure_showc.Monitor.{Board}
use vpn_infrastructure_showc.Monitor.Watch.{
  alert_failed, silent_event, alert, recover, watch_event, watch_since, watch,
}
use vpn_infrastructure_showc.Monitor.Watch.Machine.{Implements, watch-Implements}

-- the last report came at 100
abbrev board : Board
board = record { next_id = 1; received_at = some 100; events = []; letters = [] }

abbrev warned : Board
warned = (watch 701 true board).1

letter_lost : (watch 701 false board).0 ≡ alert_failed
unfolding watch watch_since watch_event alert
letter_lost = refl

letters_paired :
    (watch 1300 true (record warned { received_at = some 1200 })).1.letters
    ≡ "silent" ∷ "recovered" ∷ []
unfolding watch watch_since watch_event alert recover silent_event
letters_paired = refl

watch-Implements_example : Implements board true true (watch 701 true board)
watch-Implements_example =
    watch-Implements 701 100 true board refl (record { one = omega arith; paired = refl })
