-- ===== src/Provisioner/Activate/Extension.antt =====
-- The period that a payment buys: counted from now or from the end already paid for.
use vpn_infrastructure_showc.Base.{
  ℕ, ◌+◌, ◌≤◌, ◌<◌, ◌≡◌, refl, ap, ◌∙◌, true, some, arith, inl, inr, get_or_else, select, max,
  select-append_none,
}
use vpn_infrastructure_showc.Model.{days, User, Payment, Portal, save_user, save_payment}
use vpn_infrastructure_showc.Plans.{Plan}
use vpn_infrastructure_showc.Credit.Spending.{spend_on_payment, add_entry}
use vpn_infrastructure_showc.Credit.Rewards.{
  is_due_to, subscribed, reward_for_payment, reward_row, add_reward, apply_rewards_for,
}
use vpn_infrastructure_showc.Credit.Rewards.Recording.{
  reward_for_payment-only, reward_for_payment-rewarding,
}
use vpn_infrastructure_showc.Credit.Rewards.Applying.{total_days, apply_rewards_for-extends}
use vpn_infrastructure_showc.Provisioner.Activate.{base_of, extend, mark_paid, end_trial, settle}

-- a reward recorded now has not vested
due-reward_for_payment :
    (uid : ℕ) (db : Portal) (payment : Payment) (now : ℕ)
    → select (is_due_to uid now) (reward_for_payment db payment now).1.referral_rewards
      ≡ select (is_due_to uid now) db.referral_rewards
due-reward_for_payment uid db payment now = elim (reward_for_payment-only db payment now) [
  | inl (owner, r) ↦ rw (reward_for_payment-rewarding db payment now owner r) (
      unfold add_reward in
      select-append_none (is_due_to uid now) db.referral_rewards (reward_row db payment owner now)
        (unfold reward_row in ground arith))
  | inr nothing ↦ rw nothing
]

rewards-spend_on_payment :
    (db : Portal) (payment : Payment) (now : ℕ)
    → (spend_on_payment db payment now).1.referral_rewards ≡ db.referral_rewards
unfolding spend_on_payment add_entry
rewards-spend_on_payment db payment now = ground arith

until-end_trial :
    (now : ℕ) (user : User) → (end_trial now user).subscribed_until ≡ user.subscribed_until
unfolding end_trial
until-end_trial now user = ground arith

-- the paid period ends after now
live-extend :
    (user : User) (payment : Payment) (plan : Plan) (now : ℕ)
    → 0 < plan.days
    → subscribed (extend user payment plan now) now ≡ true
unfolding subscribed extend base_of
live-extend user payment plan now pos_days = ground arith

-- The end of a subscription after a payment: the later of now and the end already paid for, plus
-- the plan's days, plus the days of every referral reward of the account that had vested and was
-- not applied. The reward that this payment records for somebody else is not among them.
pub settle-until :
    (user : User) (payment : Payment) (plan : Plan) (now : ℕ) (db : Portal)
    → 0 < plan.days
    → (settle user payment plan now db).0.subscribed_until
      ≡ some (
          max now (get_or_else user.subscribed_until now)
          + days plan.days
          + days (total_days (select (is_due_to user.id now) db.referral_rewards)))
unfolding settle
settle-until user payment plan now db pos_days =
    let paid = mark_paid payment now in
    let e = extend user payment plan now in
    let db1 = save_payment paid (save_user e db) in
    let db2 = (spend_on_payment db1 paid now).1 in
    let db3 = (reward_for_payment db2 paid now).1 in
    until-end_trial now (apply_rewards_for db3 e now).1
    ∙ ap (λ (u : User). u.subscribed_until) (apply_rewards_for-extends db3 e now).1
    ∙ rw
        (
          live-extend user payment plan now pos_days,
          due-reward_for_payment e.id db2 paid now,
          rewards-spend_on_payment db1 paid now,
        )
        (unfold extend save_payment save_user base_of in refl)

-- A payment never shortens a subscription, and always gives at least the plan's days from now on.
pub settle_never_shortens :
    (user : User) (payment : Payment) (plan : Plan) (now : ℕ) (db : Portal)
    → 0 < plan.days
    → (until : ℕ) × ((settle user payment plan now db).0.subscribed_until ≡ some until)
      × (now + days plan.days ≤ until)
      × (get_or_else user.subscribed_until now + days plan.days ≤ until)
settle_never_shortens user payment plan now db pos_days = (
  max now (get_or_else user.subscribed_until now)
      + days plan.days
      + days (total_days (select (is_due_to user.id now) db.referral_rewards)),
  settle-until user payment plan now db pos_days,
  omega arith,
  omega arith,
)
