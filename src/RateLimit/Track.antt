-- ===== src/RateLimit/Track.antt =====
-- How the queue of a key follows the attempts of that key that were let through.
use vpn_infrastructure_showc.Base.{
  ℕ, ◌+◌, ◌≤◌, ◌<◌, String, ◌≡◌, sym, ap, ◌∙◌, List, [], ◌∷◌, ◌++◌, arith, str_eq, eq_iff,
  if◌then◌else◌, Bool-cases, inl, inr, leb, length, length-append,
}
use vpn_infrastructure_showc.Dict.{insert, lookup-insert, keys}
use vpn_infrastructure_showc.RateLimit.{
  sweep_every, Limiter, pop_expired, prune, sweep, sweep_if_due, add,
}
use vpn_infrastructure_showc.RateLimit.Window.{
  recent, InOrder, InOrder-snoc, pop_expired-eq-recent, pop_expired-InOrder, recent-recent,
  recent-append, length-recent_le,
}
use vpn_infrastructure_showc.RateLimit.Prune.{seen, width, seen-prune, limit-prune}

-- The times at which attempts of one key were let through.
abbrev pub times : String → List (String × ℕ) → List ℕ
times k [] = []
times k ((j, t) ∷ log) = let rest = times k log in if str_eq j k then t ∷ rest else rest

pub times-append :
    (k : String) (log : List (String × ℕ)) (j : String) (t : ℕ)
    → times k (log ++ (j, t) ∷ []) ≡ (if str_eq j k then times k log ++ t ∷ [] else times k log)
times-append k [] j t = ground arith
times-append k (x ∷ log) j t = ground (arith, times-append k log j t)

-- A queue `q` and the times `ts` agree on what is inside the window at `T`, and that is within
-- the limit.
pub record Tracks (w lim T : ℕ) (q ts : List ℕ) : Type 0 where
  pub sorted : InOrder 0 T q
  pub agree : recent w T q ≡ recent w T ts
  pub few : length (recent w T q) ≤ lim

InOrder-upper : (lo a b : ℕ) (q : List ℕ) → a ≤ b → InOrder lo a q → InOrder lo b q
InOrder-upper lo a b [] le h = omega arith
InOrder-upper lo a b (t ∷ q) le h = (h.0, InOrder-upper t a b q le h.1)

module _ (w lim : ℕ) where
  Tracks-later : (a b : ℕ) (q ts : List ℕ) → a ≤ b → Tracks w lim a q ts → Tracks w lim b q ts
  Tracks-later a b q ts le h = record {
    sorted = InOrder-upper 0 a b q le h.sorted;
    agree = sym (recent-recent w a b q le) ∙ ap (recent w b) h.agree ∙ recent-recent w a b ts le;
    few =
        omega
          (arith, h.few, ap length (recent-recent w a b q le), length-recent_le w b (recent w a q));
  }

  Tracks-pop : (T : ℕ) (q ts : List ℕ) → Tracks w lim T q ts → Tracks w lim T (pop_expired w T q) ts
  Tracks-pop T q ts h =
      let e = pop_expired-eq-recent w T 0 T q h.sorted in
      let again = recent-recent w T T q (omega arith) in
      record {
        sorted = pop_expired-InOrder w T 0 T q h.sorted;
        agree = rw e (again ∙ h.agree);
        few = rw (e, again) h.few;
      }

  Tracks-add :
      (T : ℕ) (q ts : List ℕ)
      → length q < lim
      → Tracks w lim T q ts
      → Tracks w lim T (q ++ T ∷ []) (ts ++ T ∷ [])
  Tracks-add T q ts room h = record {
    sorted = InOrder-snoc 0 T T q (omega arith) h.sorted;
    agree = rw (recent-append w T q, recent-append w T ts, h.agree);
    few = omega (arith, room, length-recent_le w T (q ++ T ∷ []), length-append q (T ∷ []));
  }

-- Every key's queue follows the log at time `T`.
abbrev pub Follows : ℕ → List (String × ℕ) → Limiter → Type 0
Follows T log l = (k : String) → Tracks (width l) l.limit T (seen k l) (times k log)

pub Follows-later :
    (a b : ℕ) (log : List (String × ℕ)) (l : Limiter) → a ≤ b → Follows a log l → Follows b log l
Follows-later a b log l le h k =
    Tracks-later (width l) l.limit a b (seen k l) (times k log) le (h k)

pub Follows-prune :
    (T : ℕ) (log : List (String × ℕ)) (key : String) (l : Limiter)
    → Follows T log l
    → Follows T log (prune key T l).1
Follows-prune T log key l h k =
    rw (seen-prune key T l k, (limit-prune key T l).0, (limit-prune key T l).1)
      (elim (Bool-cases (str_eq key k)) [
        | inl same ↦ rw same (Tracks-pop (width l) l.limit T (seen k l) (times k log) (h k))
        | inr other ↦ rw other (h k)
      ])

Follows-sweep :
    (T : ℕ) (log : List (String × ℕ)) (ks : List String) (l : Limiter)
    → Follows T log l
    → Follows T log (sweep ks T l)
unfolding sweep
Follows-sweep T log [] l h = h
Follows-sweep T log (k ∷ ks) l h =
    Follows-sweep T log ks (prune k T l).1 (Follows-prune T log k l h)

Follows-sweep_if_due :
    (T : ℕ) (log : List (String × ℕ)) (l : Limiter)
    → Follows T log l
    → Follows T log (sweep_if_due T l)
unfolding sweep_if_due
Follows-sweep_if_due T log l h = elim (Bool-cases (leb sweep_every l.since_sweep)) [
  | inl due ↦ rw due (Follows-sweep T log (keys l.events) (record l { since_sweep = 0 }) h)
  | inr not_due ↦ rw not_due h
]

Follows-insert :
    (T n : ℕ) (log : List (String × ℕ)) (key : String) (l : Limiter)
    → length (seen key l) < l.limit
    → Follows T log l
    → Follows T
        (log ++ (key, T) ∷ [])
        (record l { events = insert key (seen key l ++ T ∷ []) l.events; since_sweep = n })
Follows-insert T n log key l room h k =
    rw (lookup-insert key k (seen key l ++ T ∷ []) l.events, times-append k log key T)
      (elim (Bool-cases (str_eq key k)) [
        | inl same ↦
            rw (same, ← (eq_iff key k).0 same)
              (Tracks-add (width l) l.limit T (seen key l) (times key log) room (h key))
        | inr other ↦ rw other (h k)
      ])

pub Follows-add :
    (T : ℕ) (log : List (String × ℕ)) (key : String) (l : Limiter)
    → length (seen key l) < l.limit
    → Follows T log l
    → Follows T (log ++ (key, T) ∷ []) (add key T l)
unfolding add
Follows-add T log key l room h =
    Follows-sweep_if_due T (log ++ (key, T) ∷ [])
      (record l {
        events = insert key (seen key l ++ T ∷ []) l.events;
        since_sweep = l.since_sweep + 1;
      })
      (Follows-insert T (l.since_sweep + 1) log key l room h)
