-- ===== src/Subscriptions/Trials/Rows.antt =====
-- Which rows the sweep of the trials marks: every ended one.
use mathlib.Core.Path.{subst}
use vpn_infrastructure_showc.Base.{
  ℕ, ◌≡◌, refl, inl, inr, Bool, true, false, ◌&&◌, List, [], ◌∷◌, ◌++◌, arith, map, ◌==◌, ==_self,
  any, select, update, All, Bool-cases,
}
use vpn_infrastructure_showc.Model.{User, Config}
use vpn_infrastructure_showc.Subscriptions.Trials.{is_trial_device, is_owner_past, ended_trials}

-- An active trial device whose owner's trial is over.
abbrev pub is_ended : ℕ → List User → Config → Bool
is_ended now users c = is_trial_device c && any (is_owner_past now c) users

-- the device of every row is marked
abbrev pub mark_rows : List (Config × User) → List Config → List Config
mark_rows [] cs = cs
mark_rows (row ∷ rows) cs =
    mark_rows rows (update (λ r. r.id == row.0.id) (λ _. record row.0 { is_active = false }) cs)

-- an ended row is one of those
abbrev pub Marks : ℕ → List User → List (Config × User) → Config → Type 0
Marks now users rows c = is_ended now users c ≡ true → any (λ row. row.0.id == c.id) rows ≡ true

module _ (now : ℕ) (users : List User) where
  Marks-update :
      (row : Config × User) (rows : List (Config × User)) (cs : List Config)
      → All (Marks now users (row ∷ rows)) cs
      → All
          (Marks now users rows)
          (update (λ r. r.id == row.0.id) (λ _. record row.0 { is_active = false }) cs)
  Marks-update row rows [] h = tt
  Marks-update row rows (c ∷ cs) h = (
    (elim (Bool-cases (c.id == row.0.id)) [
      | inl same ↦ rw same (λ bad. ground arith)
      | inr other ↦ rw other (λ bad. ground (arith, h.0 bad))
    ]),
    Marks-update row rows cs h.1,
  )

  any-none : (cs : List Config) → All (Marks now users []) cs → any (is_ended now users) cs ≡ false
  any-none [] h = refl
  any-none (c ∷ cs) h = ground (arith, h.0, any-none cs h.1)

  pub any-mark_rows :
      (rows : List (Config × User)) (cs : List Config)
      → All (Marks now users rows) cs
      → any (is_ended now users) (mark_rows rows cs) ≡ false
  any-mark_rows [] cs h = any-none cs h
  any-mark_rows (row ∷ rows) cs h = any-mark_rows rows _ (Marks-update row rows cs h)

  Marks-more :
      (front rows : List (Config × User)) (cs : List Config)
      → All (Marks now users rows) cs
      → All (Marks now users (front ++ rows)) cs
  Marks-more front rows [] h = tt
  Marks-more front rows (c ∷ cs) h =
      ((λ bad. any-after front rows c (h.0 bad)), Marks-more front rows cs h.1)
    where
      any-after :
          (front rows : List (Config × User)) (c : Config)
          → any (λ row. row.0.id == c.id) rows ≡ true
          → any (λ row. row.0.id == c.id) (front ++ rows) ≡ true
      any-after [] rows c e = e
      any-after (x ∷ front) rows c e = ground (arith, any-after front rows c e)

  -- a device with an owner in the list has a row
  any-pair :
      (c : Config) (us : List User) (rest : List (Config × User))
      → any (is_owner_past now c) us ≡ true
      → any (λ row. row.0.id == c.id) (map (λ u. (c, u)) (select (is_owner_past now c) us) ++ rest)
        ≡ true
  any-pair c [] rest e = ground arith
  any-pair c (u ∷ us) rest e = elim (Bool-cases (is_owner_past now c u)) [
    | inl past ↦ rw past (ground (arith, ==_self c.id))
    | inr other ↦ rw other (any-pair c us rest (ground (arith, e, other)))
  ]

  pub ended_trials-Marks : (cs : List Config) → All (Marks now users (ended_trials now users cs)) cs
  unfolding ended_trials
  ended_trials-Marks [] = tt
  ended_trials-Marks (c ∷ cs) =
      let rest : List (Config × User) = ended_trials now users cs in
      let front : List (Config × User) = map (λ u. (c, u)) (select (is_owner_past now c) users) in
      elim (Bool-cases (is_trial_device c)) [
        | inl trial ↦
            subst (λ rows. All (Marks now users rows) (c ∷ cs)) {x = front ++ rest} (rw trial refl)
              (
                (λ bad. any-pair c users rest (ground (arith, bad, trial))),
                Marks-more front rest cs (ended_trials-Marks cs),
              )
        | inr other ↦
            subst (λ rows. All (Marks now users rows) (c ∷ cs)) {x = rest} (rw other refl)
              ((λ bad. ground (arith, bad, other)), ended_trials-Marks cs)
      ]
