-- ===== src/Monitor/Report/Ids.antt =====
-- The ids of the monitor's events stay distinct.
use mathlib.Core.Path.{subst}
use vpn_infrastructure_showc.Base.{
  ℕ, suc, ◌+◌, ◌-◌, ◌*◌, ◌≤◌, ◌<◌, ◌≡◌, refl, sym, ◌∙◌, Bool, ◌&&◌, min, leb, ltb, Option, none,
  some, List, [], ◌∷◌, ◌++◌, arith, ◌==◌, ==_iff, str_eq, count, count-append, update, delete, any,
  is_some, All, All-append, All-map, Bool-cases, inl, inr,
}
use vpn_infrastructure_showc.Dict.{Dict, lookup}
use vpn_infrastructure_showc.Monitor.{MonitorEvent, Board}
use vpn_infrastructure_showc.Monitor.Steps.{Problem, Notice}
use vpn_infrastructure_showc.Monitor.Report.{
  Report, note_problem, note_problems, close_others, close, note_notice, note_notices, forget_old,
  take_report,
}

-- ids are distinct and drawn in order
abbrev pub HasIds : Board → Type 0
HasIds b =
    ((i : ℕ) → count (λ (e : MonitorEvent). e.id == i) b.events ≤ 1)
    × All (λ (e : MonitorEvent). e.id < b.next_id) b.events

count-fresh :
    (n : ℕ) (es : List MonitorEvent)
    → All (λ (e : MonitorEvent). e.id < n) es
    → count (λ (e : MonitorEvent). e.id == n) es ≡ 0
count-fresh n [] h = refl
count-fresh n (e ∷ es) h = ground (arith, h.0, count-fresh n es h.1)

module _ (q : MonitorEvent → Bool) (f : MonitorEvent → MonitorEvent)
    (same : (e : MonitorEvent) → (f e).id ≡ e.id) where
  count-update_id :
      (i : ℕ) (es : List MonitorEvent)
      → count (λ (e : MonitorEvent). e.id == i) (update q f es)
        ≡ count (λ (e : MonitorEvent). e.id == i) es
  count-update_id i [] = refl
  count-update_id i (e ∷ es) = ground (arith, same e, count-update_id i es)

  update-fresh :
      (n : ℕ) (es : List MonitorEvent)
      → All (λ (e : MonitorEvent). e.id < n) es
      → All (λ (e : MonitorEvent). e.id < n) (update q f es)
  update-fresh n [] h = tt
  update-fresh n (e ∷ es) h = (ground (arith, same e, h.0), update-fresh n es h.1)

  update-HasIds : (b : Board) → HasIds b → HasIds (record b { events = update q f b.events })
  update-HasIds b h =
      ((λ i. omega (arith, count-update_id i b.events, h.0 i)), update-fresh b.next_id b.events h.1)

module _ (e : MonitorEvent) where
  append-HasIds :
      (b : Board)
      → e.id ≡ b.next_id
      → HasIds b
      → HasIds (record b { next_id = suc b.next_id; events = b.events ++ e ∷ [] })
  append-HasIds b drawn h = (
    (λ i. elim (Bool-cases (e.id == i)) [
      | inl it ↦
          let none_yet : count (λ (r : MonitorEvent). r.id == i) b.events ≡ 0 =
            subst (λ n. count (λ (r : MonitorEvent). r.id == n) b.events ≡ 0)
              (sym drawn ∙ (==_iff e.id i).0 it) (count-fresh b.next_id b.events h.1) in
          ground
            (arith, count-append (λ (r : MonitorEvent). r.id == i) b.events (e ∷ []), it, none_yet)
      | inr other ↦
          ground
            (arith, count-append (λ (r : MonitorEvent). r.id == i) b.events (e ∷ []), other, h.0 i)
    ]),
    All-append (λ (r : MonitorEvent). r.id < suc b.next_id) b.events (e ∷ [])
        (All-map (λ (r : MonitorEvent). r.id < b.next_id) _ (λ r lt. omega arith) b.events h.1)
        (omega (arith, drawn), tt),
  )

module _ (q : MonitorEvent → Bool) where
  count-delete_le :
      (p : MonitorEvent → Bool) (es : List MonitorEvent) → count p (delete q es) ≤ count p es
  count-delete_le p [] = omega arith
  count-delete_le p (e ∷ es) = ground (arith, count-delete_le p es)

  delete-All :
      (n : ℕ) (es : List MonitorEvent)
      → All (λ (e : MonitorEvent). e.id < n) es
      → All (λ (e : MonitorEvent). e.id < n) (delete q es)
  delete-All n [] h = tt
  delete-All n (e ∷ es) h = elim (Bool-cases (q e)) [
    | inl gone ↦ rw gone (delete-All n es h.1)
    | inr stays ↦ rw stays (h.0, delete-All n es h.1)
  ]

note_problem-HasIds :
    (now : ℕ) (p : Problem) (o : Option MonitorEvent) (b : Board)
    → HasIds b
    → HasIds (note_problem now p o b)
unfolding note_problem
note_problem-HasIds now p none b h = append-HasIds _ b refl h
note_problem-HasIds now p (some e) b h = update-HasIds _ _ (λ r. refl) b h

note_problems-HasIds :
    (now : ℕ) (D : Dict MonitorEvent) (C : Dict Problem) (b : Board)
    → HasIds b
    → HasIds (note_problems now D C b)
unfolding note_problems
note_problems-HasIds now D [] b h = h
note_problems-HasIds now D ((j, p) ∷ C) b h =
    note_problems-HasIds now D C _ (note_problem-HasIds now p (lookup j D) b h)

close_others-HasIds :
    (now : ℕ) (C : Dict Problem) (D : Dict MonitorEvent) (b : Board)
    → HasIds b
    → HasIds (close_others now C D b)
unfolding close_others
close_others-HasIds now C [] b h = h
close_others-HasIds now C ((j, e) ∷ D) b h = elim (Bool-cases (is_some (lookup j C))) [
  | inl reported ↦ rw (close_others, reported) (close_others-HasIds now C D b h)
  | inr ended ↦
      rw (close_others, ended)
        (close_others-HasIds now C D _
          (update-HasIds (λ r. r.id == e.id) (close now) (λ r. refl) b h))
]

note_notices-HasIds :
    (now : ℕ) (ns : List Notice) (b : Board) → HasIds b → HasIds (note_notices now ns b)
unfolding note_notices note_notice
note_notices-HasIds now [] b h = h
note_notices-HasIds now (n ∷ ns) b h =
    note_notices-HasIds now ns _
      (elim (Bool-cases
        (any (λ e. str_eq e.key n.key && leb (min n.at now - 15 * 60) e.started_at) b.events)) [
          | inl again ↦ rw again h
          | inr fresh ↦ rw fresh (append-HasIds _ b refl h)
        ])

forget_old-HasIds : (now : ℕ) (b : Board) → HasIds b → HasIds (forget_old now b)
unfolding forget_old
forget_old-HasIds now b h = (
  (λ i. omega (arith, count-delete_le old (λ (e : MonitorEvent). e.id == i) b.events, h.0 i)),
  delete-All old b.next_id b.events h.1,
)
  where
    old : MonitorEvent → Bool
    old e = is_some e.ended_at && ltb (e.started_at + 90 * 86400) now

pub take_report-HasIds :
    (now : ℕ) (report : Report) (b : Board) → HasIds b → HasIds (take_report now report b)
unfolding take_report
take_report-HasIds now report b h = forget_old-HasIds now _ (
    note_notices-HasIds now report.notices _
      (close_others-HasIds now _ _ _ (note_problems-HasIds now _ _ _ h)))
