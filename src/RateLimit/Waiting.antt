-- ===== src/RateLimit/Waiting.antt =====
-- The wait that a refusal asks for is long enough, and never none.
use vpn_infrastructure_showc.Base.{
  ℕ, ◌+◌, ◌*◌, ◌≤◌, ◌<◌, String, ◌≡◌, refl, sym, ◌∙◌, true, Option, none, some, List, [], ◌∷◌,
  arith, lt→ltb, length, get_or_else, ap,
}
use vpn_infrastructure_showc.RateLimit.{Limiter, second, prune, wait_for, retry_after, take}
use vpn_infrastructure_showc.RateLimit.Window.{recent, recent-recent, length-recent_le}
use vpn_infrastructure_showc.RateLimit.Prune.{width, limit-prune}
use vpn_infrastructure_showc.RateLimit.Track.{times, Follows-later, Follows-prune}
use vpn_infrastructure_showc.RateLimit.Admission.{
  InTime, last_time, run, run-Follows, RunsAs, exact-of, within-of, seen-of, queue-eq-seen,
}

-- a wait is asked for only with a queue, whose first event has left the window by then
wait_for-some :
    (now s : ℕ) (l : Limiter) (o : Option (List ℕ))
    → wait_for now l o ≡ some s
    → (t : ℕ) × (q : List ℕ) × (get_or_else o [] ≡ t ∷ q)
      × (t + width l ≤ now + s * second)
      × (1 ≤ s)
unfolding wait_for
wait_for-some now s l none e = ground arith
wait_for-some now s l (some []) e = ground arith
wait_for-some now s l (some (t ∷ q)) e = (t, q, refl, ground arith, ground arith)

-- once the first of at most `n` events has left, there are fewer than `n`
room_after :
    (w n later t : ℕ) (q : List ℕ)
    → length (t ∷ q) ≤ n
    → t + w ≤ later
    → length (recent w later (t ∷ q)) < n
room_after w n later t q few left = ground (arith, length-recent_le w later q)

module _ (T limit window : ℕ) (log : List (String × ℕ)) (l : Limiter) (key : String)
    (now s : ℕ) where
  pruned-RunsAs :
      RunsAs T limit window log l → T ≤ now → RunsAs now limit window log (prune key now l).1
  pruned-RunsAs h le =
      let same = limit-prune key now l in
      (Follows-prune now log key l (Follows-later T now log l le h.0), same.0 ∙ h.1, same.1 ∙ h.2)

  wait-of :
      RunsAs T limit window log l
      → 0 < limit
      → T ≤ now
      → (retry_after key now l).0 ≡ some s
      → (1 ≤ s) × ((take key (now + s * second) (retry_after key now l).1).0 ≡ true)
  unfolding retry_after
  wait-of h pos le e =
      let p = (prune key now l).1 in
      let later = now + s * second in
      let w = window * second in
      let ts = times key log in
      let hp = pruned-RunsAs h le in
      let (t, q, queue, left, some_wait) = wait_for-some now s p (prune key now l).0 e in
      let inside =
        sym (seen-of T limit window log l h key now le) ∙ sym (queue-eq-seen key now l) ∙ queue in
      let few = within-of now limit window log p hp key in
      let apart = sym (recent-recent w now later ts (omega arith)) ∙ ap (recent w later) inside in
      (
        some_wait,
        exact-of now limit window log p hp pos key later (omega arith)
            ∙ lt→ltb _ _ (
                rw apart (
                  room_after w limit later t q (omega (arith, few, ap length inside))
                    (omega (arith, left, limit-prune key now l, h.2)))),
      )

-- After any run, an attempt that is told to wait `s` seconds is let through when it comes again
-- after exactly that time, if its key makes no other attempt meanwhile; `s` is at least 1.
pub retry_after-suffices :
    (limit window : ℕ) (reqs : List (String × ℕ))
    → 0 < limit
    → InTime 0 reqs
    → (key : String) (now s : ℕ) → last_time 0 reqs ≤ now
    → (retry_after key now (run limit window reqs).1).0 ≡ some s
    → let l = (retry_after key now (run limit window reqs).1).1 in
      (1 ≤ s) × ((take key (now + s * second) l).0 ≡ true)
retry_after-suffices limit window reqs pos ordered key now s le e =
    wait-of (last_time 0 reqs) limit window (run limit window reqs).0 (run limit window reqs).1 key
      now s (run-Follows limit window reqs pos ordered) pos le e
