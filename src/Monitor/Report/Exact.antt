-- ===== src/Monitor/Report/Exact.antt =====
-- After a report exactly its problems are open.
use vpn_infrastructure_showc.Base.{
  ℕ, ◌+◌, ◌≤◌, ◌<◌, ◌≡◌, refl, ==_self, All-every, All-map, ◌∙◌, String, Bool, true, false, ◌&&◌,
  Option, some, List, [], ◌∷◌, arith, ◌==◌, str_eq, eq_iff, count, select, any, All, Bool-cases,
  inl, inr, if◌then◌else◌,
}
use vpn_infrastructure_showc.Dict.{Dict}
use vpn_infrastructure_showc.Exec.{Result, ok, err}
use vpn_infrastructure_showc.Monitor.{MonitorEvent, Board, is_open, silent_key}
use vpn_infrastructure_showc.Monitor.Steps.{Problem}
use vpn_infrastructure_showc.Monitor.Report.{
  Report, is_open_elsewhere, by_key, note_problems, take_report, receive, authorised, accept,
  supplied,
}
use vpn_infrastructure_showc.Monitor.Report.Keys.{by_key-NodupKeys, by_key-All, lookup-by_key}
use vpn_infrastructure_showc.Monitor.Report.Counts.{
  open_of, open_with, open_of-note_notices, open_of-forget_old, open_of-any,
}
use vpn_infrastructure_showc.Monitor.Report.Folds.{
  IsKeyed, Marked, open_of-note_problems, open_with-note_problems, open_of-close_others,
}

-- The events are sound: no two have one id, none has an id yet to come, and no key is open twice.
pub record IsSound (b : Board) : Type 0 where
  pub ids : (i : ℕ) → count (λ (e : MonitorEvent). e.id == i) b.events ≤ 1
  pub fresh : All (λ (e : MonitorEvent). e.id < b.next_id) b.events
  pub single : (k : String) → open_of k b.events ≤ 1

-- the same event, open
abbrev hit : MonitorEvent → MonitorEvent → Bool
hit e r = is_open e.key r && (r.id == e.id)

module _ {A : Type 0} (s : A → Bool) (q : A → A → Bool) (P : A → Type 0)
    (self : (x : A) → s x ≡ true → q x x ≡ true) where
  All-selected :
      (xs ys : List A)
      → All P xs
      → ((f : A → Bool) → count f xs ≤ count f ys)
      → All (λ x. P x × (s x ≡ true) × (1 ≤ count (q x) ys)) (select s xs)
  All-selected [] ys h le = tt
  All-selected (x ∷ xs) ys h le = elim (Bool-cases (s x)) [
    | inl passes ↦ rw passes (
      (h.0, passes, ground (arith, self x passes, le (q x))),
      All-selected xs ys h.1 λ f. ground (arith, le f),
    )
    | inr fails ↦ rw fails (All-selected xs ys h.1 λ f. ground (arith, le f))
  ]

pub authorised-same :
    (token : String) (header : Option String) (b : Board) → (authorised token header b).1 ≡ b
unfolding authorised
authorised-same token header b = elim (Bool-cases (str_eq token "")) [
  | inl bare ↦ rw bare refl
  | inr set ↦ elim (Bool-cases (str_eq (supplied header) token)) [
    | inl good ↦ rw (set, good) refl
    | inr bad ↦ rw (set, bad) refl
  ]
]

module _ (k : String) where
  apart :
      (e : MonitorEvent) (es : List MonitorEvent)
      → str_eq e.key k ≡ false
      → count (hit e) es + open_with k e.id es ≤ count (λ r. r.id == e.id) es
  apart e [] other = omega arith
  apart e (r ∷ es) other =
      ground (arith, apart e es other, eq_iff r.key e.key, eq_iff r.key k, eq_iff e.key k)

  together :
      (e : MonitorEvent) (es : List MonitorEvent)
      → str_eq e.key k ≡ true
      → count (hit e) es ≤ open_with k e.id es
  together e [] same = omega arith
  together e (r ∷ es) same =
      ground (arith, together e es same, eq_iff r.key e.key, eq_iff r.key k, eq_iff e.key k)

  -- every open event of the report's query says what it should of key `k`
  open-Marked :
      (b : Board)
      → IsSound b
      → All (λ e. Marked k b.next_id b.events (e.key, e)) (select is_open_elsewhere b.events)
  open-Marked b h =
      All-map _ _
        (λ e hit_e. (
          hit_e.0,
          (λ other. omega (arith, apart e b.events other, h.ids e.id, hit_e.2)),
          (λ same. omega (arith, together e b.events same, hit_e.2)),
        ))
        _
        (All-selected is_open_elsewhere hit (λ e. e.id < b.next_id)
          (λ e on. ground (arith, on, eq_iff e.key e.key, ==_self e.id)) b.events b.events h.fresh
          λ f. omega arith)

  module _ (now : ℕ) (C : Dict Problem) (b : Board) where
    noted-Marked :
        (D : Dict MonitorEvent) (all_open : Dict MonitorEvent)
        → All (Marked k b.next_id b.events) D
        → All
            (Marked k
              (note_problems now all_open C b).next_id
              (note_problems now all_open C b).events)
            D
    noted-Marked D all_open =
        All-map _ _
          (λ x m. (
            (open_with-note_problems k now all_open x.1.id C b m.0).1,
            (λ other. (open_with-note_problems k now all_open x.1.id C b m.0).0 ∙ m.1 other),
            (λ same. rw ((open_with-note_problems k now all_open x.1.id C b m.0).0) (m.2 same)),
          ))
          D

  pub take_report-opens :
      (now : ℕ) (report : Report) (b : Board)
      → IsSound b
      → str_eq k silent_key ≡ false
      → open_of k (take_report now report b).events
        ≡ (if any (λ (p : Problem). str_eq p.key k) report.problems then 1 else 0)
  unfolding take_report
  take_report-opens now report b h loud =
      let D = by_key (λ (e : MonitorEvent). e.key) (select is_open_elsewhere b.events) [] in
      let C = by_key (λ (p : Problem). p.key) report.problems [] in
      let received : Board = record b { received_at = some now } in
      let marked : All (Marked k b.next_id b.events) D =
        by_key-All (λ (e : MonitorEvent). e.key) (Marked k b.next_id b.events) _ []
          (open-Marked b h) tt in
      let noted = open_of-note_problems k now D C received (by_key-NodupKeys _ _ [] tt) (
        by_key-All (λ (p : Problem). p.key) IsKeyed report.problems []
          (All-every (λ p. IsKeyed (p.key, p)) (λ p. refl) report.problems) tt) in
      let held =
        lookup-by_key (λ (e : MonitorEvent). e.key) k (select is_open_elsewhere b.events) [] in
      let found = open_of-any k b.events (ground (arith, loud)) in
      let asked = lookup-by_key (λ (p : Problem). p.key) k report.problems [] in
      open_of-forget_old k now _
      ∙ open_of-note_notices k now report.notices _
      ∙ open_of-close_others k now C D _ (by_key-NodupKeys _ _ [] tt)
          (noted-Marked now C received D D marked) (ground (arith, noted, held, found, h.single k))
      ∙ ground (arith, noted, held, found, asked, h.single k)

  answer-opens :
      (now : ℕ) (report : Report) (b : Board) (r : Result (Unit {0}) × Board)
      → IsSound b
      → str_eq k silent_key ≡ false
      → r.1 ≡ b
      → (accept now report r).0 ≡ ok tt
      → open_of k (accept now report r).1.events
        ≡ (if any (λ (p : Problem). str_eq p.key k) report.problems then 1 else 0)
  answer-opens now report b (ok a, c) h loud same taken =
      rw same (take_report-opens now report b h loud)
  answer-opens now report b (err e, c) h loud same taken = ground arith

  -- Once a report is taken from the monitor, a key has one open event if a problem of the report has
  -- it, and none otherwise. This is said of a board that is sound: no two events share an id, no id
  -- is one yet to come, and no key is open twice; and of every key but the portal's own.
  pub receive-opens :
      (token : String) (header : Option String) (now : ℕ) (report : Report) (b : Board)
      → IsSound b
      → str_eq k silent_key ≡ false
      → (receive token header now report b).0 ≡ ok tt
      → open_of k (receive token header now report b).1.events
        ≡ (if any (λ (p : Problem). str_eq p.key k) report.problems then 1 else 0)
  unfolding receive
  receive-opens token header now report b h loud taken =
      answer-opens now report b (authorised token header b) h loud (authorised-same token header b)
        taken
