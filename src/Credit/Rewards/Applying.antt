-- ===== src/Credit/Rewards/Applying.antt =====
-- Applying rewards: how far the subscription moves, and that a reward is applied once.
use mathlib.Core.Path.{subst}
use vpn_infrastructure_showc.Base.{
  ℕ, ◌+◌, ◌≡◌, refl, sym, ap, ◌∙◌, true, Option, none, some, List, [], ◌∷◌, arith, ◌==◌, ==_self,
  any, select, update, map, Bool-cases, inl, inr, if◌then◌else◌, All,
}
use vpn_infrastructure_showc.Model.{days, User, ReferralReward, Portal, save_user}
use vpn_infrastructure_showc.Notify.{notify, post}
use vpn_infrastructure_showc.Credit.Rewards.{
  subscribed, is_due_to, later, mark_applied, apply_reward, apply_all, apply_rewards_for,
}

-- the days of a list of rewards
abbrev pub total_days : List ReferralReward → ℕ
total_days [] = 0
total_days (r ∷ rs) = r.days + total_days rs

later-later : (a b : ℕ) (o : Option ℕ) → later b (later a o) ≡ later (a + b) o
later-later a b none = refl
later-later a b (some t) = ap some (omega arith)

later_zero : (o : Option ℕ) → later 0 o ≡ o
later_zero none = refl
later_zero (some t) = ap some (omega arith)

module _ (now : ℕ) where
  apply_all-days :
      (due : List ReferralReward) (added : ℕ) (user : User) (db : Portal)
      → (apply_all now due added (user, db)).0 ≡ added + total_days due
  unfolding apply_all apply_reward
  apply_all-days [] added user db = omega arith
  apply_all-days (r ∷ due) added user db = apply_all-days due (added + r.days) _ _ ∙ omega arith

  apply_all-user :
      (due : List ReferralReward) (added : ℕ) (user : User) (db : Portal)
      → (apply_all now due added (user, db)).1
        ≡ record user { subscribed_until = later (days (total_days due)) user.subscribed_until }
  unfolding apply_all apply_reward
  apply_all-user [] added user db =
      ap (λ (o : Option ℕ). record user { subscribed_until = o })
        (sym (later_zero user.subscribed_until))
  apply_all-user (r ∷ due) added user db =
      apply_all-user due (added + r.days) _ _
      ∙ ap (λ (o : Option ℕ). record user { subscribed_until = o })
          (later-later (days r.days) (days (total_days due)) user.subscribed_until
            ∙ ap (λ (n : ℕ). later n user.subscribed_until) (omega arith))

  -- notifying and saving the account leave the rewards alone
  rewards-apply_reward :
      (r : ReferralReward) (user : User) (db : Portal)
      → (apply_reward now r (user, db)).1.referral_rewards
        ≡ update (λ q. q.id == r.id) (λ q. record q { applied_at = some now }) db.referral_rewards
  unfolding apply_reward mark_applied save_user notify post
  rewards-apply_reward r user db = ground arith

  -- a reward as it is once those of `due` are marked
  abbrev mark : List ReferralReward → ReferralReward → ReferralReward
  mark due q = if any (λ r. r.id == q.id) due then record q { applied_at = some now } else q

  mark-update :
      (r : ReferralReward) (due rows : List ReferralReward)
      → map (mark due) (update (λ q. q.id == r.id) (λ q. record q { applied_at = some now }) rows)
        ≡ map (mark (r ∷ due)) rows
  mark-update r due [] = refl
  mark-update r due (q ∷ rows) = ground (arith, mark-update r due rows)

  map-mark_none : (rows : List ReferralReward) → map (mark []) rows ≡ rows
  map-mark_none [] = refl
  map-mark_none (q ∷ rows) = ap (λ (qs : List ReferralReward). q ∷ qs) (map-mark_none rows)

  -- the loop marks exactly the rewards that it goes through
  rewards-apply_all :
      (due : List ReferralReward) (added : ℕ) (user : User) (db : Portal)
      → (apply_all now due added (user, db)).2.referral_rewards ≡ map (mark due) db.referral_rewards
  unfolding apply_all
  rewards-apply_all [] added user db = sym (map-mark_none db.referral_rewards)
  rewards-apply_all (r ∷ due) added user db =
      let (user', db') = apply_reward now r (user, db) in
      rewards-apply_all due (added + r.days) user' db'
      ∙ ap (map (mark due)) (rewards-apply_reward r user db)
      ∙ mark-update r due db.referral_rewards

  -- every due reward of the account is among those that the loop goes through
  abbrev Covers : ℕ → List ReferralReward → ReferralReward → Type 0
  Covers uid due q = is_due_to uid now q ≡ true → any (λ r. r.id == q.id) due ≡ true

  Covers-more :
      (uid : ℕ) (r : ReferralReward) (due rows : List ReferralReward)
      → All (Covers uid due) rows
      → All (Covers uid (r ∷ due)) rows
  Covers-more uid r due [] h = tt
  Covers-more uid r due (q ∷ rows) h =
      ((λ is_due. ground (arith, h.0 is_due)), Covers-more uid r due rows h.1)

  select-Covers :
      (uid : ℕ) (rows : List ReferralReward)
      → All (Covers uid (select (is_due_to uid now) rows)) rows
  select-Covers uid [] = tt
  select-Covers uid (q ∷ rows) =
      let due = select (is_due_to uid now) rows in
      elim (Bool-cases (is_due_to uid now q)) [
        | inl yes_due ↦
            subst (λ xs. All (Covers uid xs) (q ∷ rows)) {x = q ∷ due} (rw yes_due)
              ((λ _. rw ==_self), Covers-more uid q due rows (select-Covers uid rows))
        | inr other ↦
            subst (λ xs. All (Covers uid xs) (q ∷ rows)) {x = due} (rw other)
              ((λ is_due. cc), select-Covers uid rows)
      ]

  -- what is marked is due no more
  select-mark :
      (uid : ℕ) (due rows : List ReferralReward)
      → All (Covers uid due) rows
      → select (is_due_to uid now) (map (mark due) rows) ≡ []
  select-mark uid due [] h = refl
  select-mark uid due (q ∷ rows) h = ground (arith, h.0, select-mark uid due rows h.1)

module _ (db : Portal) (user : User) (now : ℕ) where
  abbrev due : List ReferralReward
  due = select (is_due_to user.id now) db.referral_rewards

  -- A live subscription is extended by the days of every reward of the account that has vested and
  -- was not applied, no more and no less, and the call reports that number; nothing else of the
  -- account changes. A lapsed subscription is left as it is, with its rewards.
  pub apply_rewards_for-extends :
      let extension = if subscribed user now then total_days due else 0 in
      ((apply_rewards_for db user now).0 ≡ extension)
      × ((apply_rewards_for db user now).1
          ≡ record user { subscribed_until = later (days extension) user.subscribed_until })
      × ((apply_rewards_for db user now).2
          ≡ (if subscribed user now then (apply_rewards_for db user now).2 else db))
  unfolding apply_rewards_for
  apply_rewards_for-extends = elim (Bool-cases (subscribed user now)) [
    | inl live ↦
        rw live
          (apply_all-days now due 0 user db ∙ omega arith, apply_all-user now due 0 user db, refl)
    | inr lapsed ↦ rw lapsed (
      refl,
      ap (λ (o : Option ℕ). record user { subscribed_until = o })
          (sym (later_zero user.subscribed_until)),
      refl,
    )
  ]

  no_days_lem : due ≡ [] → (apply_rewards_for db user now).0 ≡ 0
  no_days_lem e = apply_rewards_for-extends.0 ∙ rw e (ground arith)

no_days :
    (db : Portal) (user : User) (now : ℕ)
    → select (is_due_to user.id now) db.referral_rewards ≡ []
    → (apply_rewards_for db user now).0 ≡ 0
no_days = no_days_lem

module _ (db : Portal) (user : User) (now : ℕ) where
  applied_none :
      subscribed user now ≡ true
      → select (is_due_to user.id now) (apply_rewards_for db user now).2.referral_rewards ≡ []
  unfolding apply_rewards_for
  applied_none live =
      rw (live, rewards-apply_all now (due db user now) 0 user db)
        (select-mark now user.id (due db user now) db.referral_rewards
          (select-Covers now user.id db.referral_rewards))

  -- Where a subscription is live, after the call no reward of the account is due, so applying them again at
  -- the same moment adds no day.
  pub apply_rewards_for-once :
      subscribed user now ≡ true
      → let (_, user', db') = apply_rewards_for db user now in
        (select (is_due_to user.id now) db'.referral_rewards ≡ [])
        × ((apply_rewards_for db' user' now).0 ≡ 0)
  apply_rewards_for-once live =
      let (added, user', db') = apply_rewards_for db user now in
      let same_id = ap (λ (u : User). u.id) (apply_rewards_for-extends db user now).1 in
      (applied_none live, no_days db' user' now (rw same_id (applied_none live)))
