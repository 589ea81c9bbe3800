-- ===== src/Provisioner/Activate/Account.antt =====
-- What the account's row is once its payment was settled.
use mathlib.Core.Path.{subst}
use vpn_infrastructure_showc.Base.{
  ℕ, ◌+◌, ◌<◌, ◌≡◌, ap, ◌∙◌, Bool, true, Bool-cases, inl, inr, some, List, [], ◌∷◌, max, ◌==◌,
  ==_self, get_or_else, select, update, All, arith,
}
use vpn_infrastructure_showc.Model.{days, User, Payment, Portal, save_user, save_payment}
use vpn_infrastructure_showc.Plans.{Plan}
use vpn_infrastructure_showc.Credit.Spending.{spend_on_payment}
use vpn_infrastructure_showc.Credit.Rewards.{is_due_to, reward_for_payment, apply_rewards_for}
use vpn_infrastructure_showc.Credit.Rewards.Applying.{total_days, apply_rewards_for-extends}
use vpn_infrastructure_showc.Provisioner.Activate.{extend, mark_paid, end_trial, settle}
use vpn_infrastructure_showc.Provisioner.Activate.Extension.{settle-until}

-- An account with the plan, until the later of now and the end it had, plus the plan's days and
-- those of the referral rewards due to it.
pub record IsPaidUp (user : User) (payment : Payment) (plan : Plan) (now : ℕ) (start : Portal)
    (row : User) : Type 0 where
  pub subscribed : row.is_subscribed ≡ true
  pub of_plan : row.plan ≡ some payment.plan
  pub address : row.peer_ip ≡ user.peer_ip
  pub until :
      row.subscribed_until
      ≡ some (
          max now (get_or_else user.subscribed_until now)
          + days plan.days
          + days (total_days (select (is_due_to user.id now) start.referral_rewards)))

-- a write that reaches every row of a test leaves no other row there
select-update_All :
    (P : User → Type 0) (q : User → Bool) (y : User) (rows : List User)
    → P y
    → q y ≡ true
    → All P (select q (update q (λ _. y) rows))
select-update_All P q y [] h same = tt
select-update_All P q y (x ∷ rows) h same = elim (Bool-cases (q x)) [
  | inl own ↦ rw (own, same) (h, select-update_All P q y rows h same)
  | inr other ↦ rw (other, other) (select-update_All P q y rows h same)
]

saved-All :
    (P : User → Type 0) (key : ℕ) (y : User) (db : Portal)
    → P y
    → y.id ≡ key
    → All P (select (λ (u : User). u.id == key) (save_user y db).users)
unfolding save_user
saved-All P key y db h own =
    subst (λ k. All P (select (λ (u : User). u.id == k) (save_user y db).users)) own
      (select-update_All P (λ u. u.id == y.id) y db.users h (==_self y.id))

-- the end of a trial is all that `end_trial` writes
end_trial-same :
    (now : ℕ) (u : User)
    → ((end_trial now u).is_subscribed ≡ u.is_subscribed)
      × ((end_trial now u).plan ≡ u.plan)
      × ((end_trial now u).peer_ip ≡ u.peer_ip)
      × ((end_trial now u).id ≡ u.id)
unfolding end_trial
end_trial-same now u = (ground arith, ground arith, ground arith, ground arith)

module _ (user : User) (payment : Payment) (plan : Plan) (now : ℕ) (db : Portal) where
  settle-same :
      let u = (settle user payment plan now db).0 in
      (u.is_subscribed ≡ true)
      × (u.plan ≡ some payment.plan)
      × (u.peer_ip ≡ user.peer_ip)
      × (u.id ≡ user.id)
  unfolding settle extend
  settle-same =
      let paid = mark_paid payment now in
      let e = extend user payment plan now in
      let db1 = save_payment paid (save_user e db) in
      let db2 = (spend_on_payment db1 paid now).1 in
      let db3 = (reward_for_payment db2 paid now).1 in
      let kept = end_trial-same now (apply_rewards_for db3 e now).1 in
      let longer = (apply_rewards_for-extends db3 e now).1 in
      (
        kept.0 ∙ ap (λ (u : User). u.is_subscribed) longer,
        kept.1 ∙ ap (λ (u : User). u.plan) longer,
        kept.2 ∙ ap (λ (u : User). u.peer_ip) longer,
        kept.3 ∙ ap (λ (u : User). u.id) longer,
      )

  -- the row that the transaction leaves under the account's key
  pub settle-IsPaidUp :
      0 < plan.days
      → All
          (IsPaidUp user payment plan now db)
          (select (λ (u : User). u.id == user.id) (settle user payment plan now db).1.users)
  unfolding settle
  settle-IsPaidUp pos_days =
      let (subscribed, of_plan, address, key) = settle-same in
      saved-All (IsPaidUp user payment plan now db) user.id (settle user payment plan now db).0 _
        (record {
          subscribed = subscribed;
          of_plan = of_plan;
          address = address;
          until = settle-until user payment plan now db pos_days;
        })
        key
