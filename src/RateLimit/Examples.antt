-- ===== src/RateLimit/Examples.antt =====
-- The trial limiter (three starts in a day) on attempts from two addresses.
use vpn_infrastructure_showc.Base.{
  ℕ, ◌+◌, ◌-◌, ◌*◌, ◌≤◌, ◌≡◌, refl, String, true, some, List, [], ◌∷◌, arith, ltb, length,
}
use vpn_infrastructure_showc.RateLimit.{
  second, pop_expired, keep, prune_found, prune, wait_for, retry_after, sweep_if_due, add,
  take_if_free, take, record_if, attempts, new,
}
use vpn_infrastructure_showc.RateLimit.Window.{recent}
use vpn_infrastructure_showc.RateLimit.Track.{times}
use vpn_infrastructure_showc.RateLimit.Admission.{run, attempts-within_limit, take-exact}
use vpn_infrastructure_showc.RateLimit.Waiting.{retry_after-suffices}

abbrev day : ℕ
day = 86400

abbrev starts : List (String × ℕ)
starts =
    ("10.0.0.1", 0)
    ∷ ("10.0.0.1", 5 * second)
    ∷ ("10.0.0.2", 6 * second)
    ∷ ("10.0.0.1", 7 * second)
    ∷ ("10.0.0.1", 8 * second)
    ∷ []

fourth_refused :
    (run 3 day starts).0
    ≡ ("10.0.0.1", 0)
      ∷ ("10.0.0.1", 5 * second)
      ∷ ("10.0.0.2", 6 * second)
      ∷ ("10.0.0.1", 7 * second)
      ∷ []
unfolding attempts new take retry_after prune prune_found keep pop_expired wait_for take_if_free add
    sweep_if_due record_if
fourth_refused = refl

attempts-within_limit_example :
    length (recent (day * second) (8 * second) (times "10.0.0.1" (run 3 day starts).0)) ≤ 3
attempts-within_limit_example =
    attempts-within_limit 3 day starts (omega arith) (omega arith) "10.0.0.1"

take-exact_example :
    (take "10.0.0.1" (9 * second) (run 3 day starts).1).0
    ≡ ltb (length (recent (day * second) (9 * second) (times "10.0.0.1" (run 3 day starts).0))) 3
take-exact_example =
    take-exact 3 day starts (omega arith) (omega arith) "10.0.0.1" (9 * second) (omega arith)

refused_wait : (retry_after "10.0.0.1" (9 * second) (run 3 day starts).1).0 ≡ some (day - 8)
unfolding attempts new take retry_after prune prune_found keep pop_expired wait_for take_if_free add
    sweep_if_due record_if
refused_wait = refl

retry_after-suffices_example :
    (1 ≤ day - 8)
    × ((take "10.0.0.1"
          (9 * second + (day - 8) * second)
          (retry_after "10.0.0.1" (9 * second) (run 3 day starts).1).1).0
        ≡ true)
retry_after-suffices_example =
    retry_after-suffices 3 day starts (omega arith) (omega arith) "10.0.0.1" (9 * second) (day - 8)
      (omega arith) refused_wait
