-- ===== src/RateLimit/Admission.antt =====
-- The sliding window: which attempts are let through.
use vpn_infrastructure_showc.Base.{
  ℕ, ◌*◌, ◌≤◌, ◌<◌, String, ◌≡◌, refl, true, Option, none, some, List, [], ◌∷◌, arith, ltb, ltb→lt,
  length, Option-cases, inl, inr, get_or_else, is_none, sym, ◌∙◌,
}
use text.Mathlib.TextPositions.{eq_refl}
use vpn_infrastructure_showc.RateLimit.{
  Limiter, second, new, prune, wait_for, retry_after, take_if_free, take, attempts, record_if,
}
use vpn_infrastructure_showc.RateLimit.Window.{recent, pop_expired-eq-recent}
use vpn_infrastructure_showc.RateLimit.Prune.{
  seen, width, seen-prune, queue-prune, limit-prune, limit-add,
}
use vpn_infrastructure_showc.RateLimit.Track.{
  times, Follows, Follows-later, Follows-prune, Follows-add,
}

-- no wait is asked for exactly when the queue has room
wait_for-eq-ltb :
    (now : ℕ) (l : Limiter) (o : Option (List ℕ))
    → 0 < l.limit
    → is_none (wait_for now l o) ≡ ltb (length (get_or_else o [])) l.limit
unfolding wait_for
wait_for-eq-ltb now l none h = ground arith
wait_for-eq-ltb now l (some []) h = ground arith
wait_for-eq-ltb now l (some (t ∷ q)) h = ground arith

take_if_free-is_none :
    (o : Option ℕ) (key : String) (now : ℕ) (l : Limiter) → (take_if_free o key now l).0 ≡ is_none o
unfolding take_if_free
take_if_free-is_none none key now l = refl
take_if_free-is_none (some wait) key now l = refl

module _ (key : String) (now : ℕ) (l : Limiter) where
  pub queue-eq-seen : get_or_else (prune key now l).0 [] ≡ seen key (prune key now l).1
  queue-eq-seen = queue-prune key now l ∙ sym (rw (seen-prune key now l key, eq_refl))

  -- an attempt is let through exactly when the pruned queue has room
  pub take-room :
      0 < l.limit → (take key now l).0 ≡ ltb (length (seen key (prune key now l).1)) l.limit
  unfolding take retry_after
  take-room pos =
      take_if_free-is_none (wait_for now (prune key now l).1 (prune key now l).0) key now
        (prune key now l).1
      ∙ wait_for-eq-ltb now (prune key now l).1 (prune key now l).0
          (rw (limit-prune key now l).0 pos)
      ∙ rw (queue-eq-seen, (limit-prune key now l).0)

  pub limit-take : ((take key now l).1.limit ≡ l.limit) × ((take key now l).1.window ≡ l.window)
  unfolding take retry_after take_if_free
  limit-take = elim (Option-cases (wait_for now (prune key now l).1 (prune key now l).0)) [
    | inl free ↦ rw free (
        let a = limit-add key now (prune key now l).1 in
        let p = limit-prune key now l in (a.0 ∙ p.0, a.1 ∙ p.1))
    | inr (wait, full) ↦ rw full (limit-prune key now l)
  ]

module _ (key : String) (now : ℕ) (log : List (String × ℕ)) (l : Limiter) (T : ℕ) where
  pub take-Follows :
      T ≤ now
      → 0 < l.limit
      → Follows T log l
      → Follows now (record_if (take key now l).0 (key, now) log) (take key now l).1
  unfolding take retry_after record_if take_if_free
  take-Follows le pos h =
      let p = (prune key now l).1 in
      let f = Follows-prune now log key l (Follows-later T now log l le h) in
      let wait = wait_for now p (prune key now l).0 in
      elim (Option-cases wait) [
        | inl free ↦
            rw free (Follows-add now log key p (room (sym (take-room key now l pos) ∙ rw free)) f)
        | inr (w, full) ↦ rw full f
      ]
    where
      room :
          ltb (length (seen key (prune key now l).1)) l.limit ≡ true
          → length (seen key (prune key now l).1) < (prune key now l).1.limit
      room e = omega (arith, ltb→lt _ _ e, (limit-prune key now l).0)

-- Attempts are made in the order of time, the first at `T` or later.
abbrev pub InTime : ℕ → List (String × ℕ) → Type 0
InTime T [] = Unit
InTime T ((key, now) ∷ rest) = (T ≤ now) × InTime now rest

abbrev pub last_time : ℕ → List (String × ℕ) → ℕ
last_time T [] = T
last_time T ((key, now) ∷ rest) = last_time now rest

-- The limiter and the log after a sequence of attempts follow one another.
pub attempts-Follows :
    (T : ℕ) (reqs log : List (String × ℕ)) (l : Limiter)
    → 0 < l.limit
    → InTime T reqs
    → Follows T log l
    → let (log', l') = attempts reqs log l in
      Follows (last_time T reqs) log' l' × (l'.limit ≡ l.limit) × (l'.window ≡ l.window)
unfolding attempts
attempts-Follows T [] log l pos ordered h = (h, refl, refl)
attempts-Follows T ((key, now) ∷ rest) log l pos ordered h =
    let same = limit-take key now l in
    let later =
      attempts-Follows now rest (record_if (take key now l).0 (key, now) log) (take key now l).1
        (rw same.0 pos) ordered.1 (take-Follows key now log l T ordered.0 pos h) in
    (later.0, later.1 ∙ same.0, later.2 ∙ same.1)

new-Follows : (limit window : ℕ) → Follows 0 [] (new limit window)
unfolding new
new-Follows limit window k = record { sorted = omega arith; agree = refl; few = omega arith }

module _ (T limit window : ℕ) (log : List (String × ℕ)) (l : Limiter) where
  abbrev pub RunsAs : Type 0
  RunsAs = Follows T log l × (l.limit ≡ limit) × (l.window ≡ window)

  pub within-of :
      RunsAs → (key : String) → length (recent (window * second) T (times key log)) ≤ limit
  within-of h key = rw (← h.1, ← h.2, ← (h.0 key).agree) (h.0 key).few

  -- the pruned queue is what the log has inside the window
  pub seen-of :
      RunsAs
      → (key : String) (now : ℕ) → T ≤ now
      → seen key (prune key now l).1 ≡ recent (window * second) now (times key log)
  seen-of h key now le =
      let f = Follows-later T now log l le h.0 in
      rw (seen-prune key now l key, eq_refl, ← h.2)
        (pop_expired-eq-recent (width l) now 0 now (seen key l) (f key).sorted ∙ (f key).agree)

  pub exact-of :
      RunsAs
      → 0 < limit
      → (key : String) (now : ℕ) → T ≤ now
      → (take key now l).0 ≡ ltb (length (recent (window * second) now (times key log))) limit
  exact-of h pos key now le =
      take-room key now l (omega (arith, h.1)) ∙ rw (seen-of h key now le, h.1)

-- the attempts of a run from a new limiter that were let through, and the limiter afterwards
abbrev pub run : ℕ → ℕ → List (String × ℕ) → List (String × ℕ) × Limiter
run limit window reqs = attempts reqs [] (new limit window)

module _ (limit window : ℕ) (reqs : List (String × ℕ)) (pos : 0 < limit)
    (ordered : InTime 0 reqs) where
  pub run-Follows :
      Follows (last_time 0 reqs) (run limit window reqs).0 (run limit window reqs).1
      × ((run limit window reqs).1.limit ≡ limit)
      × ((run limit window reqs).1.window ≡ window)
  unfolding new
  run-Follows = attempts-Follows 0 reqs [] (new limit window) pos ordered (new-Follows limit window)

  -- Of the attempts of one key that a new limiter let through, at most `limit` lie inside the
  -- window that ends at the last attempt of the run, for every run of attempts in order of time.
  pub attempts-within_limit :
      (key : String)
      → length (recent (window * second) (last_time 0 reqs) (times key (run limit window reqs).0))
        ≤ limit
  attempts-within_limit key =
      within-of (last_time 0 reqs) limit window (run limit window reqs).0 (run limit window reqs).1
        run-Follows key

  -- After any run, the next attempt of a key is let through exactly when fewer than `limit` of its
  -- admitted attempts are still inside the window: none is refused for an older one.
  pub take-exact :
      (key : String) (now : ℕ)
      → last_time 0 reqs ≤ now
      → let (log, l) = run limit window reqs in
        (take key now l).0 ≡ ltb (length (recent (window * second) now (times key log))) limit
  take-exact key now le =
      exact-of (last_time 0 reqs) limit window (run limit window reqs).0 (run limit window reqs).1
        run-Follows pos key now le
