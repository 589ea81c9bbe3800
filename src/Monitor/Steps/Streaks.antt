-- ===== src/Monitor/Steps/Streaks.antt =====
-- What the monitor remembers of a problem is how many runs in a row had it.
use vpn_infrastructure_showc.Base.{
  ℕ, suc, ◌≤◌, ◌<◌, String, ◌≡◌, refl, sym, ◌∙◌, Bool-cases, inl, inr, Option, none, some, List, [],
  ◌∷◌, arith, str_eq, eq_iff, is_some, All, if◌then◌else◌,
}
use vpn_infrastructure_showc.Dict.{Dict, lookup, insert, lookup-insert}
use vpn_infrastructure_showc.Monitor.Steps.{Seen, Memory, seen_again, is_due, told, judge, step}

-- no key twice
abbrev pub IsDict {ℓ} : {V : Type ℓ} → Dict V → Type ℓ
IsDict [] = Unit
IsDict ((k, v) ∷ d) = (lookup k d ≡ none) × IsDict d

-- the runs whose state was kept, the last one first: what `step` was given, and when
pub record Run : Type 0 where
  pub problems : Dict String
  pub now : ℕ

-- the number of the last runs in a row that had the problem
abbrev pub streak : String → List Run → ℕ
streak k [] = 0
streak k (r ∷ runs) = let n = streak k runs in if is_some (lookup k r.problems) then suc n else 0

module _ (confirm remind : ℕ) where
  -- what becomes of one problem in one run
  abbrev pub next_seen : ℕ → Option String → Option Seen → Option Seen
  next_seen now none old = none
  next_seen now (some text) old = some (told confirm remind now (seen_again now text old))

  abbrev or_else : Option Seen → Option Seen → Option Seen
  or_else none d = d
  or_else (some s) d = some s

  or_else-none : (o : Option Seen) → or_else o none ≡ o
  or_else-none none = refl
  or_else-none (some s) = refl

  lookup-judge :
      (now : ℕ) (old : Dict Seen) (problems : Dict String) (new : Dict Seen) (msgs : List String)
      (k : String)
      → IsDict problems
      → lookup k (judge confirm remind now old problems new msgs).1
        ≡ or_else (next_seen now (lookup k problems) (lookup k old)) (lookup k new)
  unfolding judge
  lookup-judge now old [] new msgs k h = refl
  lookup-judge now old ((key, text) ∷ rest) new msgs k h =
      let v = told confirm remind now (seen_again now text (lookup key old)) in
      elim (Bool-cases (str_eq key k)) [
        | inl same ↦
            rw
              (
                lookup-judge now old rest (insert key v new) _ k h.1,
                lookup-insert key k v new,
                same,
                sym ((eq_iff key k).0 same),
                h.0,
              )
              refl
        | inr other ↦
            rw
              (
                lookup-judge now old rest (insert key v new) _ k h.1,
                lookup-insert key k v new,
                other,
              )
              refl
      ]

  -- One run changes what is remembered of a problem by what it says of that problem alone.
  pub lookup-step :
      (memory : Memory) (problems : Dict String) (now : ℕ) (k : String)
      → IsDict problems
      → lookup k (step memory problems now confirm remind).1.problems
        ≡ next_seen now (lookup k problems) (lookup k memory.problems)
  unfolding step
  lookup-step memory problems now k h =
      lookup-judge now memory.problems problems [] [] k h ∙ or_else-none _

  -- the memory after those runs, from an empty state file
  abbrev pub after : List Run → Memory
  after [] = record { problems = []; boots = []; notices = []; digest_day = none }
  after (r ∷ runs) = (step (after runs) r.problems r.now confirm remind).1

  -- what is remembered of a problem: how often in a row it was seen, and that it was told only
  -- once that was often enough
  abbrev pub Remembers : ℕ → Option Seen → Type 0
  Remembers n none = n ≡ 0
  Remembers n (some s) = (s.count ≡ n) × (0 < n) × (0 < s.sent → confirm ≤ n)

  seen_again-Remembers :
      (n now : ℕ) (text : String) (old : Option Seen)
      → Remembers n old
      → Remembers (suc n) (some (seen_again now text old))
  unfolding seen_again
  seen_again-Remembers n now text none h =
      (omega (arith, h), omega arith, λ told. omega (arith, told))
  seen_again-Remembers n now text (some s) h =
      (omega (arith, h.0), omega arith, λ told. omega (arith, h.2 told))

  told-Remembers :
      (n now : ℕ) (s : Seen) → Remembers n (some s) → Remembers n (some (told confirm remind now s))
  unfolding told is_due
  told-Remembers n now s h = elim (Bool-cases (is_due confirm remind now s)) [
    | inl due ↦ rw due (h.0, h.1, λ sent. ground (arith, due, h.0))
    | inr early ↦ rw early h
  ]

  next_seen-Remembers :
      (n now : ℕ) (this : Option String) (old : Option Seen)
      → Remembers n old
      → Remembers (if is_some this then suc n else 0) (next_seen now this old)
  next_seen-Remembers n now none old h = refl
  next_seen-Remembers n now (some text) old h =
      told-Remembers (suc n) now (seen_again now text old) (seen_again-Remembers n now text old h)

  -- After any runs, what the monitor remembers of a problem is how many of the last runs in a row
  -- had it, and it has told of it only if there were at least as many of them as it takes to
  -- confirm a problem. Each run's problems have different keys.
  pub streak-Remembers :
      (k : String) (runs : List Run)
      → All (λ (r : Run). IsDict r.problems) runs
      → Remembers (streak k runs) (lookup k (after runs).problems)
  streak-Remembers k [] h = refl
  streak-Remembers k (r ∷ runs) h = rw (lookup-step (after runs) r.problems r.now k h.0) (
      next_seen-Remembers (streak k runs) r.now (lookup k r.problems)
        (lookup k (after runs).problems) (streak-Remembers k runs h.1))
