-- ===== src/Credit/Rewards.antt =====
-- Referral rewards: recorded for a paid order, cancelled by a refund, and added to the referrer's
-- subscription once they have vested.
pub mod Recording
pub mod Applying
use vpn_infrastructure_showc.Base.{
  ℕ, suc, ◌+◌, String, Bool, ◌&&◌, Option, none, some, List, [], ◌∷◌, ◌++◌, ℤ, pos, leb_ℤ, leb, ltb,
  ◌==◌, str_eq, is_some, is_none, holds, find, select, delete, update, any, if◌then◌else◌,
}
use vpn_infrastructure_showc.Model.{
  days, User, Payment, CreditEntry, ReferralReward, Portal, referral, save_user,
}
use vpn_infrastructure_showc.Plans.{plan_info}
use vpn_infrastructure_showc.Notify.{notify}
use vpn_infrastructure_showc.Credit.Codes.{is_blank}

abbrev pub referral_reward_days : ℕ
referral_reward_days = 30

abbrev pub reward_vesting_days : ℕ
reward_vesting_days = 14

-- the owner of the code that a payment carried
unfoldable pub owner_of_code : Portal → Option String → Option ℕ
owner_of_code db none = none
owner_of_code db (some code) = elim (find (λ p. str_eq p.code code) db.promo_codes) [
  | none ↦ none
  | some promo ↦ promo.owner_user_id
]

abbrev pub is_reward_for : ℕ → ReferralReward → Bool
is_reward_for pid r = r.source_payment_id == pid

unfoldable pub reward_row : Portal → Payment → ℕ → ℕ → ReferralReward
reward_row db payment owner now = record {
  id = db.next_id;
  referrer_user_id = owner;
  source_payment_id = payment.id;
  days = referral_reward_days;
  vests_at = now + days reward_vesting_days;
  applied_at = none;
  created_at = now;
  note = some payment.plan;
}

unfoldable pub add_reward : ReferralReward → Portal → Portal
add_reward r db = record db {
  next_id = suc db.next_id;
  referral_rewards = db.referral_rewards ++ r ∷ [];
}

unfoldable pub reward_owner : Portal → Payment → ℕ → Option ℕ → ℕ × Portal
reward_owner db payment now none = (0, db)
reward_owner db payment now (some owner) =
    if owner == payment.user_id
    then (0, db)
    else if is_none (plan_info payment.plan)
    then (0, db)
    else if leb_ℤ payment.amount (pos 0)
    then (0, db)
    else if is_some (find (is_reward_for payment.id) db.referral_rewards)
    then (0, db)
    else (referral_reward_days, add_reward (reward_row db payment owner now) db)

-- `reward_for_payment`: the days recorded
unfoldable pub reward_for_payment : Portal → Payment → ℕ → ℕ × Portal
reward_for_payment db payment now =
    if is_blank payment.promo_code
    then (0, db)
    else reward_owner db payment now (owner_of_code db payment.promo_code)

-- the points that a purchase earned under the old rule
abbrev pub is_points_for : ℕ → CreditEntry → Bool
is_points_for pid e = str_eq e.reason "referral_reward" && holds (λ p. p == pid) e.source_payment_id

unfoldable pub cancel_points : Portal → ℕ → Option CreditEntry → ℤ × Portal
cancel_points db now none = (pos 0, db)
cancel_points db now (some entry) = if holds (λ v. leb v now) entry.vests_at then (pos 0, db) else (
  entry.delta,
  record db { credit_entries = delete (λ e. e.id == entry.id) db.credit_entries },
)

unfoldable pub cancel_found : Portal → Payment → ℕ → Option ReferralReward → ℤ × Portal
cancel_found db payment now (some reward) = if is_some reward.applied_at then (pos 0, db) else (
  pos reward.days,
  record db { referral_rewards = delete (λ r. r.id == reward.id) db.referral_rewards },
)
cancel_found db payment now none =
    cancel_points db now (find (is_points_for payment.id) db.credit_entries)

-- `cancel_reward_for_payment`: the days, or the points, taken back
unfoldable pub cancel_reward_for_payment : Portal → Payment → ℕ → ℤ × Portal
cancel_reward_for_payment db payment now =
    cancel_found db payment now (find (is_reward_for payment.id) db.referral_rewards)

-- `_subscribed`
unfoldable pub subscribed : User → ℕ → Bool
subscribed user now = user.is_subscribed && holds (λ until. ltb now until) user.subscribed_until

-- vested, and not applied yet
abbrev pub is_due : ℕ → ReferralReward → Bool
is_due now r = is_none r.applied_at && leb r.vests_at now

abbrev pub is_due_to : ℕ → ℕ → ReferralReward → Bool
is_due_to uid now r = (r.referrer_user_id == uid) && is_due now r

abbrev pub later : ℕ → Option ℕ → Option ℕ
later n none = none
later n (some until) = some (until + n)

-- `reward.applied_at = now`
unfoldable pub mark_applied : ℕ → ReferralReward → Portal → Portal
mark_applied now reward db = record db {
  referral_rewards =
      update (λ r. r.id == reward.id) (λ r. record r { applied_at = some now }) db.referral_rewards;
}

-- one round of the loop: the days, the mark and the message
unfoldable pub apply_reward : ℕ → ReferralReward → User × Portal → User × Portal
apply_reward now reward (user, db) =
    let user' : User = record user {
      subscribed_until = later (days reward.days) user.subscribed_until;
    } in
    (
      user',
      (notify now user' "referral_bonus" (some (referral reward.id))
          (mark_applied now reward (save_user user' db))).1,
    )

-- `for reward in due`, with the days added so far
unfoldable pub apply_all : ℕ → List ReferralReward → ℕ → User × Portal → ℕ × User × Portal
apply_all now [] added (user, db) = (added, user, db)
apply_all now (reward ∷ due) added s =
    apply_all now due (added + reward.days) (apply_reward now reward s)

-- `apply_rewards_for`: the days added, and the account with its new end
unfoldable pub apply_rewards_for : Portal → User → ℕ → ℕ × User × Portal
apply_rewards_for db user now =
    if subscribed user now
    then apply_all now (select (is_due_to user.id now) db.referral_rewards) 0 (user, db)
    else (0, user, db)

-- the referrers that have a reward due, each once
abbrev add_distinct : ℕ → List ℕ → List ℕ
add_distinct uid ids = if any (λ i. i == uid) ids then ids else uid ∷ ids

unfoldable pub owners_due : ℕ → List ReferralReward → List ℕ
owners_due now [] = []
owners_due now (r ∷ rs) =
    let rest = owners_due now rs in
    if is_due now r then add_distinct r.referrer_user_id rest else rest

pub record RewardStats : Type 0 where
  pub referrers_rewarded : ℕ
  pub referral_days_added : ℕ

abbrev pub count_days : ℕ → RewardStats → RewardStats
count_days added stats = if added == 0 then stats else record {
  referrers_rewarded = stats.referrers_rewarded + 1;
  referral_days_added = stats.referral_days_added + added;
}

unfoldable pub apply_to : ℕ → Option User → RewardStats × Portal → RewardStats × Portal
apply_to now none (stats, db) = (stats, db)
apply_to now (some user) (stats, db) =
    let (added, _, db') = apply_rewards_for db user now in (count_days added stats, db')

unfoldable pub apply_owners : ℕ → List ℕ → RewardStats × Portal → RewardStats × Portal
apply_owners now [] s = s
apply_owners now (uid ∷ ids) (stats, db) =
    apply_owners now ids (apply_to now (find (λ u. u.id == uid) db.users) (stats, db))

-- `apply_due_rewards`
unfoldable pub apply_due_rewards : Portal → ℕ → RewardStats × Portal
apply_due_rewards db now =
    apply_owners now (owners_due now db.referral_rewards)
      (record { referrers_rewarded = 0; referral_days_added = 0 }, db)
