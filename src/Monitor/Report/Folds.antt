-- ===== src/Monitor/Report/Folds.antt =====
-- The loops over a report's problems and over the open events, seen from one key.
use vpn_infrastructure_showc.Base.{
  ℕ, ◌+◌, ◌≤◌, ◌<◌, ◌≡◌, refl, sym, ap, ==_iff, ◌∙◌, String, true, false, ◌&&◌, none, List, [], ◌∷◌,
  arith, ◌==◌, str_eq, eq_iff, update, is_none, is_some, All, Bool-cases, inl, inr, if◌then◌else◌,
}
use vpn_infrastructure_showc.Dict.{Dict, lookup}
use vpn_infrastructure_showc.Monitor.{MonitorEvent, Board}
use vpn_infrastructure_showc.Monitor.Steps.{Problem}
use vpn_infrastructure_showc.Monitor.Report.{note_problem, note_problems, close_others, close}
use vpn_infrastructure_showc.Monitor.Report.Keys.{NodupKeys}
use vpn_infrastructure_showc.Monitor.Report.Counts.{
  open_of, open_with, open_of-close, open_with-close_le, open_with-close_other,
  open_of-note_problem, open_with-note_problem,
}

abbrev pub IsKeyed : String × Problem → Type 0
IsKeyed (j, p) = p.key ≡ j

same_entry : (j k : String) (C : Dict Problem) → str_eq j k ≡ true → lookup j C ≡ lookup k C
same_entry j k C same = ap (λ x. lookup x C) ((eq_iff j k).0 same)

module _ (k : String) where
  -- what an entry of the open events says of those of key `k`
  abbrev pub Marked : ℕ → List MonitorEvent → String × MonitorEvent → Type 0
  Marked next es (j, e) =
      (e.id < next)
      × (str_eq j k ≡ false → open_with k e.id es ≡ 0)
      × (str_eq j k ≡ true → 1 ≤ open_with k e.id es)

  module _ (now : ℕ) (D : Dict MonitorEvent) where
    -- a problem whose key is not open opens it
    pub open_of-note_problems :
        (C : Dict Problem) (b : Board)
        → NodupKeys C
        → All IsKeyed C
        → open_of k (note_problems now D C b).events
          ≡ open_of k b.events + (if is_some (lookup k C) && is_none (lookup k D) then 1 else 0)
    unfolding note_problems
    open_of-note_problems [] b u h = omega arith
    open_of-note_problems ((j, p) ∷ C) b u h =
        let rest = open_of-note_problems C (note_problem now p (lookup j D) b) u.1 h.1 in
        let step = open_of-note_problem k now p (lookup j D) b in
        let named : str_eq p.key k ≡ str_eq j k = ap (λ x. str_eq x k) h.0 in
        elim (Bool-cases (str_eq j k)) [
          | inl same ↦
              let jk = (eq_iff j k).0 same in
              let gone : lookup k C ≡ none = ap (λ x. lookup x C) (sym jk) ∙ u.0 in
              let open_there : lookup j D ≡ lookup k D = ap (λ x. lookup x D) jk in
              rw same (rest ∙ ground (arith, step, named, gone, open_there))
          | inr other ↦ rw other (rest ∙ ground (arith, step, named))
        ]

    pub open_with-note_problems :
        (i : ℕ) (C : Dict Problem) (b : Board)
        → i < b.next_id
        → (open_with k i (note_problems now D C b).events ≡ open_with k i b.events)
          × (i < (note_problems now D C b).next_id)
    unfolding note_problems
    open_with-note_problems i [] b lt = (refl, lt)
    open_with-note_problems i ((j, p) ∷ C) b lt =
        let step = open_with-note_problem k now i p (lookup j D) b lt in
        let rest = open_with-note_problems i C _ step.1 in (rest.0 ∙ step.0, rest.1)

  close-All-Marked :
      (now i : ℕ) (next : ℕ) (es : List MonitorEvent) (D : Dict MonitorEvent)
      → open_with k i es ≡ 0
      → All (Marked next es) D
      → All (Marked next (update (λ r. r.id == i) (close now) es)) D
  close-All-Marked now i next es [] z h = tt
  close-All-Marked now i next es ((j, e) ∷ D) z h = (
    (
      h.0.0,
      λ other. omega (arith, h.0.1 other, open_with-close_le k now i e.id es),
      λ same. elim (Bool-cases (i == e.id)) [
        | inl it ↦ ground (arith, it, h.0.2 same, ap (λ x. open_with k x es) ((==_iff i e.id).0 it))
        | inr not_it ↦ rw (open_with-close_other k now i e.id es not_it) (h.0.2 same)
      ],
    ),
    close-All-Marked now i next es D z h.1,
  )

  pub open_of-close_others_le :
      (now : ℕ) (C : Dict Problem) (D : Dict MonitorEvent) (b : Board)
      → open_of k (close_others now C D b).events ≤ open_of k b.events
  unfolding close_others
  open_of-close_others_le now C [] b = omega arith
  open_of-close_others_le now C ((j, e) ∷ D) b = elim (Bool-cases (is_some (lookup j C))) [
    | inl reported ↦ rw (close_others, reported) (open_of-close_others_le now C D b)
    | inr ended ↦
        rw (close_others, ended)
          (omega (
            arith,
            open_of-close_others_le now C D
                (record b { events = update (λ r. r.id == e.id) (close now) b.events }),
            open_of-close k now e.id b.events,
          ))
  ]

  pub open_of-close_others :
      (now : ℕ) (C : Dict Problem) (D : Dict MonitorEvent) (b : Board)
      → NodupKeys D
      → All (Marked b.next_id b.events) D
      → open_of k b.events ≤ 1
      → open_of k (close_others now C D b).events
        ≡ (if is_some (lookup k D) && is_none (lookup k C) then 0 else open_of k b.events)
  unfolding close_others
  open_of-close_others now C [] b u h le = refl
  open_of-close_others now C ((j, e) ∷ D) b u h le =
      let closed : Board = record b { events = update (λ r. r.id == e.id) (close now) b.events } in
      let less = open_of-close k now e.id b.events in
      elim (Bool-cases (is_some (lookup j C))) [
        | inl reported ↦
            rw (close_others, reported)
              (open_of-close_others now C D b u.1 h.1 le
                ∙ ground (arith, reported, same_entry j k C))
        | inr ended ↦ elim (Bool-cases (str_eq j k)) [
          | inl same ↦
              rw (close_others, ended, same)
                (ground (
                  arith,
                  open_of-close_others_le now C D closed,
                  less,
                  le,
                  h.0.2 same,
                  ended,
                  same_entry j k C,
                ))
          | inr other ↦
              rw (close_others, ended, other)
                (open_of-close_others now C D closed u.1
                    (close-All-Marked now e.id b.next_id b.events D (h.0.1 other) h.1)
                    (omega (arith, le, less))
                  ∙ ground (arith, less, h.0.1 other))
        ]
      ]
