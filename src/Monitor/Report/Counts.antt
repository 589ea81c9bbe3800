-- ===== src/Monitor/Report/Counts.antt =====
-- How many events of one key are open, through each write of a report.
use vpn_infrastructure_showc.Base.{
  ℕ, ◌+◌, ◌≤◌, ◌<◌, ◌≡◌, refl, String, Bool, true, false, ◌&&◌, not, Option, none, some, List, [],
  ◌∷◌, arith, ◌==◌, str_eq, eq_iff, ◌∙◌, ◌-◌, ◌*◌, min, leb, Bool-cases, inl, inr, ltb, select,
  count, count-append, update, delete, any, is_none, is_some, if◌then◌else◌,
}
use vpn_infrastructure_showc.Monitor.{MonitorEvent, Board, is_open, silent_key}
use vpn_infrastructure_showc.Monitor.Steps.{Problem, Notice}
use vpn_infrastructure_showc.Monitor.Report.{
  note_problem, close, note_notice, note_notices, forget_old, is_open_elsewhere,
}

-- the open events of a key, and those of them with an id
abbrev pub open_of : String → List MonitorEvent → ℕ
open_of k = count (is_open k)

abbrev pub open_with : String → ℕ → List MonitorEvent → ℕ
open_with k i = count (λ e. is_open k e && (e.id == i))

module _ (k : String) where
  pub open_of-close :
      (now i : ℕ) (es : List MonitorEvent)
      → open_of k (update (λ r. r.id == i) (close now) es) + open_with k i es ≡ open_of k es
  open_of-close now i [] = refl
  open_of-close now i (e ∷ es) = ground (arith, open_of-close now i es)

  pub open_with-close_le :
      (now i j : ℕ) (es : List MonitorEvent)
      → open_with k j (update (λ r. r.id == i) (close now) es) ≤ open_with k j es
  open_with-close_le now i j [] = omega arith
  open_with-close_le now i j (e ∷ es) = ground (arith, open_with-close_le now i j es)

  pub open_with-close_other :
      (now i j : ℕ) (es : List MonitorEvent)
      → (i == j) ≡ false
      → open_with k j (update (λ r. r.id == i) (close now) es) ≡ open_with k j es
  open_with-close_other now i j [] h = refl
  open_with-close_other now i j (e ∷ es) h = ground (arith, open_with-close_other now i j es)

  pub open_with-le : (i : ℕ) (es : List MonitorEvent) → open_with k i es ≤ open_of k es
  open_with-le i [] = omega arith
  open_with-le i (e ∷ es) = ground (arith, open_with-le i es)

  reworded :
      (p : Problem) (i : ℕ) (es : List MonitorEvent)
      → open_of k (update (λ r. r.id == i) (λ r. record r { text = p.text; level = p.level }) es)
        ≡ open_of k es
  reworded p i [] = refl
  reworded p i (e ∷ es) = ground (arith, reworded p i es)

  reworded_with :
      (p : Problem) (i j : ℕ) (es : List MonitorEvent)
      → open_with k j
          (update (λ r. r.id == i) (λ r. record r { text = p.text; level = p.level }) es)
        ≡ open_with k j es
  reworded_with p i j [] = refl
  reworded_with p i j (e ∷ es) = ground (arith, reworded_with p i j es)

  pub open_of-note_problem :
      (now : ℕ) (p : Problem) (o : Option MonitorEvent) (b : Board)
      → open_of k (note_problem now p o b).events
        ≡ open_of k b.events + (if is_none o && str_eq p.key k then 1 else 0)
  unfolding note_problem
  open_of-note_problem now p none b = count-append (is_open k) b.events _ ∙ ground arith
  open_of-note_problem now p (some e) b = omega (arith, reworded p e.id b.events)

  -- new events have new ids
  pub open_with-note_problem :
      (now i : ℕ) (p : Problem) (o : Option MonitorEvent) (b : Board)
      → i < b.next_id
      → (open_with k i (note_problem now p o b).events ≡ open_with k i b.events)
        × (i < (note_problem now p o b).next_id)
  unfolding note_problem
  open_with-note_problem now i p none b lt = (
    count-append (λ e. is_open k e && (e.id == i)) b.events _ ∙ ground (arith, lt),
    omega (arith, lt),
  )
  open_with-note_problem now i p (some e) b lt = (reworded_with p e.id i b.events, lt)

  abbrev seen_at : ℕ → Notice → MonitorEvent → Bool
  seen_at at n e = str_eq e.key n.key && leb (at - 15 * 60) e.started_at

  open_of-note_notice :
      (now : ℕ) (n : Notice) (b : Board)
      → open_of k (note_notice now n b).events ≡ open_of k b.events
  unfolding note_notice
  open_of-note_notice now n b = elim (Bool-cases (any (seen_at (min n.at now) n) b.events)) [
    | inl again ↦ rw again refl
    | inr fresh ↦ rw fresh (count-append (is_open k) b.events _ ∙ ground arith)
  ]

  -- notices are over as they come
  pub open_of-note_notices :
      (now : ℕ) (ns : List Notice) (b : Board)
      → open_of k (note_notices now ns b).events ≡ open_of k b.events
  unfolding note_notices
  open_of-note_notices now [] b = refl
  open_of-note_notices now (n ∷ ns) b = open_of-note_notices now ns _ ∙ open_of-note_notice now n b

  kept :
      (now : ℕ) (es : List MonitorEvent)
      → open_of k (delete (λ e. is_some e.ended_at && ltb (e.started_at + 90 * 86400) now) es)
        ≡ open_of k es
  kept now [] = refl
  kept now (e ∷ es) = ground (arith, kept now es)

  -- what is forgotten is over
  pub open_of-forget_old :
      (now : ℕ) (b : Board) → open_of k (forget_old now b).events ≡ open_of k b.events
  unfolding forget_old
  open_of-forget_old now b = kept now b.events

  -- a key has an open event just when one is found
  pub open_of-any :
      (es : List MonitorEvent)
      → not (str_eq k silent_key) ≡ true
      → any (λ e. str_eq e.key k) (select is_open_elsewhere es) ≡ ltb 0 (open_of k es)
  open_of-any [] h = refl
  open_of-any (e ∷ es) h = ground (arith, h, eq_iff e.key k, open_of-any es)
