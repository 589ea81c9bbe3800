-- ===== src/Provisioner/Activate/Written.antt =====
-- What the transaction of a payment leaves alone: the devices, and every order but the paid one.
use vpn_infrastructure_showc.Base.{
  ℕ, ◌+◌, String, ◌≡◌, refl, ◌∙◌, Bool-cases, inl, inr, Option, none, some, List, [], ◌∷◌, arith,
  ◌==◌, holds, update, if◌then◌else◌,
}
use vpn_infrastructure_showc.Model.{
  User, Payment, ReferralReward, Portal, save_user, save_payment, DedupeKey,
}
use vpn_infrastructure_showc.Notify.{notify, post, to_chat, already_sent}
use vpn_infrastructure_showc.Plans.{Plan}
use vpn_infrastructure_showc.Credit.Spending.{spend_on_payment, add_entry}
use vpn_infrastructure_showc.Credit.Rewards.{
  subscribed, reward_for_payment, reward_owner, add_reward, mark_applied, apply_reward, apply_all,
  apply_rewards_for, owner_of_code,
}
use vpn_infrastructure_showc.Credit.Codes.{is_blank}
use vpn_infrastructure_showc.Provisioner.Activate.{is_gift, mark_paid, extend, settle}

-- the same devices and orders
abbrev Aside : Portal → Portal → Type 0
Aside a b = (b.configs ≡ a.configs) × (b.payments ≡ a.payments)

Aside-trans : (a b c : Portal) → Aside a b → Aside b c → Aside a c
Aside-trans a b c h k = (k.0 ∙ h.0, k.1 ∙ h.1)

to_chat-Aside : (chat : Option ℕ) (kind : String) (db : Portal) → Aside db (to_chat chat kind db)
to_chat-Aside none kind db = (refl, refl)
to_chat-Aside (some chat) kind db = elim (Bool-cases (chat == 0)) [
  | inl no_chat ↦ rw no_chat (refl, refl)
  | inr there ↦ rw there (refl, refl)
]

notify-Aside :
    (now : ℕ) (user : User) (kind : String) (dedupe : Option DedupeKey) (db : Portal)
    → Aside db (notify now user kind dedupe db).1
unfolding notify post
notify-Aside now user kind dedupe db =
    elim (Bool-cases (holds (λ key. already_sent user.id key db) dedupe)) [
      | inl sent ↦ rw sent (refl, refl)
      | inr new ↦ rw new (to_chat-Aside user.telegram_id kind _)
    ]

spend_on_payment-Aside :
    (db : Portal) (payment : Payment) (now : ℕ) → Aside db (spend_on_payment db payment now).1
unfolding spend_on_payment add_entry
spend_on_payment-Aside db payment now = (ground arith, ground arith)

reward_owner-Aside :
    (db : Portal) (payment : Payment) (now : ℕ) (owner : Option ℕ)
    → Aside db (reward_owner db payment now owner).1
unfolding reward_owner add_reward
reward_owner-Aside db payment now none = (refl, refl)
reward_owner-Aside db payment now (some owner) = (ground arith, ground arith)

reward_for_payment-Aside :
    (db : Portal) (payment : Payment) (now : ℕ) → Aside db (reward_for_payment db payment now).1
unfolding reward_for_payment
reward_for_payment-Aside db payment now = elim (Bool-cases (is_blank payment.promo_code)) [
  | inl none_typed ↦ rw none_typed (refl, refl)
  | inr typed ↦ rw typed (reward_owner-Aside db payment now (owner_of_code db payment.promo_code))
]

apply_reward-Aside :
    (now : ℕ) (reward : ReferralReward) (user : User) (db : Portal)
    → Aside db (apply_reward now reward (user, db)).1
unfolding apply_reward mark_applied save_user
apply_reward-Aside now reward user db = notify-Aside now _ "referral_bonus" _ _

apply_all-Aside :
    (now : ℕ) (due : List ReferralReward) (added : ℕ) (user : User) (db : Portal)
    → Aside db (apply_all now due added (user, db)).2
unfolding apply_all
apply_all-Aside now [] added user db = (refl, refl)
apply_all-Aside now (reward ∷ due) added user db =
    let next = apply_reward now reward (user, db) in
    Aside-trans db next.1 (apply_all now due (added + reward.days) next).2
      (apply_reward-Aside now reward user db)
      (apply_all-Aside now due (added + reward.days) next.0 next.1)

apply_rewards_for-Aside :
    (db : Portal) (user : User) (now : ℕ) → Aside db (apply_rewards_for db user now).2
unfolding apply_rewards_for
apply_rewards_for-Aside db user now = elim (Bool-cases (subscribed user now)) [
  | inl live ↦ rw live (apply_all-Aside now _ 0 user db)
  | inr lapsed ↦ rw lapsed (refl, refl)
]

-- The order that was paid.
abbrev pub paid : Payment → ℕ → Payment
paid payment now = record payment { status = "paid"; paid_at = some now }

-- the transaction keeps every device, and writes one order
pub settle-rows :
    (user : User) (payment : Payment) (plan : Plan) (now : ℕ) (db : Portal)
    → ((settle user payment plan now db).1.configs ≡ db.configs)
      × ((settle user payment plan now db).1.payments
          ≡ update (λ (r : Payment). r.id == payment.id) (λ _. paid payment now) db.payments)
unfolding settle save_user save_payment mark_paid
settle-rows user payment plan now db =
    let p = mark_paid payment now in
    let e = extend user payment plan now in
    let db1 = save_payment p (save_user e db) in
    let db2 = (spend_on_payment db1 p now).1 in
    let db3 = (reward_for_payment db2 p now).1 in
    let (added, rewarded, db4) = apply_rewards_for db3 e now in
    let gift = if_gift payment in
    let db5 = (notify now rewarded gift none db4).1 in
    Aside-trans db1 db2 db5 (spend_on_payment-Aside db1 p now) (
      Aside-trans db2 db3 db5 (reward_for_payment-Aside db2 p now) (
        Aside-trans db3 db4 db5 (apply_rewards_for-Aside db3 e now)
          (notify-Aside now rewarded gift none db4)))
  where
    if_gift : Payment → String
    if_gift q = if is_gift q then "granted" else "paid"
