-- ===== src/Subscriptions/Closing.antt =====
-- Which rows the sweep closes: every one that is past its end.
use mathlib.Core.Path.{subst}
use vpn_infrastructure_showc.Base.{
  ℕ, ◌≡◌, refl, true, false, List, [], ◌∷◌, arith, ◌==◌, ==_self, any, select, update, Bool-cases,
  inl, inr, All,
}
use vpn_infrastructure_showc.Model.{User}
use vpn_infrastructure_showc.Subscriptions.{is_past_end}

-- every account of the list is closed
abbrev pub close_all : List User → List User → List User
close_all [] rows = rows
close_all (u ∷ us) rows =
    close_all us (update (λ r. r.id == u.id) (λ _. record u { is_subscribed = false }) rows)

-- a row past its end is one that the list closes
abbrev pub Closes : ℕ → List User → User → Type 0
Closes now us r = is_past_end now r ≡ true → any (λ u. u.id == r.id) us ≡ true

Closes-update :
    (now : ℕ) (u : User) (us rows : List User)
    → All (Closes now (u ∷ us)) rows
    → All
        (Closes now us)
        (update (λ r. r.id == u.id) (λ _. record u { is_subscribed = false }) rows)
Closes-update now u us [] h = tt
Closes-update now u us (r ∷ rows) h = (
  (elim (Bool-cases (r.id == u.id)) [
    | inl same ↦ rw same (λ past. cc)
    | inr other ↦ rw other (λ past. ground (arith, h.0 past))
  ]),
  Closes-update now u us rows h.1,
)

any-none :
    (now : ℕ) (rows : List User) → All (Closes now []) rows → any (is_past_end now) rows ≡ false
any-none now [] h = refl
any-none now (r ∷ rows) h = ground (arith, h.0, any-none now rows h.1)

pub any-close_all :
    (now : ℕ) (us rows : List User)
    → All (Closes now us) rows
    → any (is_past_end now) (close_all us rows) ≡ false
any-close_all now [] rows h = any-none now rows h
any-close_all now (u ∷ us) rows h = any-close_all now us _ (Closes-update now u us rows h)

Closes-more :
    (now : ℕ) (u : User) (us rows : List User)
    → All (Closes now us) rows
    → All (Closes now (u ∷ us)) rows
Closes-more now u us [] h = tt
Closes-more now u us (r ∷ rows) h =
    ((λ past. ground (arith, h.0 past)), Closes-more now u us rows h.1)

pub select-Closes :
    (now : ℕ) (rows : List User) → All (Closes now (select (is_past_end now) rows)) rows
select-Closes now [] = tt
select-Closes now (r ∷ rows) =
    let due = select (is_past_end now) rows in
    elim (Bool-cases (is_past_end now r)) [
      | inl past ↦
          subst (λ us. All (Closes now us) (r ∷ rows)) {x = r ∷ due} (rw past)
            ((λ _. rw ==_self), Closes-more now r due rows (select-Closes now rows))
      | inr live ↦
          subst (λ us. All (Closes now us) (r ∷ rows)) {x = due} (rw live)
            ((λ past. cc), select-Closes now rows)
    ]
