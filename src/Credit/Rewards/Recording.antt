-- ===== src/Credit/Rewards/Recording.antt =====
-- When a purchase earns its referrer a reward, and that it does so once.
use vpn_infrastructure_showc.Base.{
  ℕ, ◌≡◌, ◌≢◌, false, none, some, arith, pos, ◌≤ℤ◌, leb_ℤ, ◌==◌, ◌⊎◌, find, find-append,
  Option-cases, Bool-cases, inl, inr,
}
use vpn_infrastructure_showc.Model.{Payment, Portal}
use vpn_infrastructure_showc.Plans.{plan_info}
use vpn_infrastructure_showc.Credit.Codes.{is_blank}
use vpn_infrastructure_showc.Credit.Rewards.{
  referral_reward_days, owner_of_code, is_reward_for, reward_row, add_reward, reward_owner,
  reward_for_payment,
}

-- What a payment must be to earn its referrer a reward.
pub record IsRewarding (db : Portal) (payment : Payment) (owner : ℕ) : Type 0 where
  pub has_code : is_blank payment.promo_code ≡ false
  pub owned : owner_of_code db payment.promo_code ≡ some owner
  pub not_self : owner ≢ payment.user_id
  pub known_plan : plan_info payment.plan ≢ none
  pub cash : pos 1 ≤ℤ payment.amount
  pub first_time : find (is_reward_for payment.id) db.referral_rewards ≡ none

module _ (db : Portal) (payment : Payment) (now : ℕ) where
  -- A payment that earns a reward has it recorded for the owner of its code, thirty days.
  pub reward_for_payment-rewarding :
      (owner : ℕ)
      → IsRewarding db payment owner
      → reward_for_payment db payment now
        ≡ (referral_reward_days, add_reward (reward_row db payment owner now) db)
  unfolding reward_for_payment reward_owner
  reward_for_payment-rewarding owner r =
      ground (arith, r.has_code, r.owned, r.not_self, r.known_plan, r.cash, r.first_time)

  -- a payment that passes the owner's tests is rewarding
  reward_owner-cases :
      (owner : ℕ)
      → is_blank payment.promo_code ≡ false
      → owner_of_code db payment.promo_code ≡ some owner
      → IsRewarding db payment owner ⊎ (reward_owner db payment now (some owner) ≡ (0, db))
  unfolding reward_owner
  reward_owner-cases owner has_code owned = elim (Bool-cases (owner == payment.user_id)) [
    | inl self ↦ inr (ground arith)
    | inr other ↦ elim (Option-cases (plan_info payment.plan)) [
      | inl unknown ↦ inr (ground arith)
      | inr (plan, known) ↦ elim (Bool-cases (leb_ℤ payment.amount (pos 0))) [
        | inl free ↦ inr (ground arith)
        | inr paid ↦ elim (Option-cases (find (is_reward_for payment.id) db.referral_rewards)) [
          | inl fresh ↦ inl (record {
            has_code = has_code;
            owned = owned;
            not_self = λ e. ground arith;
            known_plan = λ e. cc;
            cash = ground arith;
            first_time = fresh;
          })
          | inr (old, recorded) ↦ inr (ground arith)
        ]
      ]
    ]
  ]

  -- Days are recorded only for a payment that is rewarding; for any other, none are and nothing is
  -- written.
  pub reward_for_payment-only :
      ((owner : ℕ) × IsRewarding db payment owner) ⊎ (reward_for_payment db payment now ≡ (0, db))
  unfolding reward_for_payment
  reward_for_payment-only = elim (Bool-cases (is_blank payment.promo_code)) [
    | inl blank ↦ inr (ground arith)
    | inr has_code ↦ elim (Option-cases (owner_of_code db payment.promo_code)) [
      | inl nobody ↦ inr (unfold reward_owner in ground arith)
      | inr (owner, owned) ↦ elim (reward_owner-cases owner has_code owned) [
        | inl rewarding ↦ inl (owner, rewarding)
        | inr refused ↦ inr (rw (has_code, owned) refused)
      ]
    ]
  ]

module _ (db : Portal) (payment : Payment) (now later : ℕ) where
  again-rewarded :
      (owner : ℕ)
      → find (is_reward_for payment.id) db.referral_rewards ≡ none
      → let db' = add_reward (reward_row db payment owner now) db in
        reward_for_payment db' payment later ≡ (0, db')
  unfolding reward_for_payment add_reward reward_row
  again-rewarded owner fresh =
      let recorded =
        find-append (is_reward_for payment.id) db.referral_rewards (reward_row db payment owner now)
          fresh in
      elim (Option-cases (owner_of_code db payment.promo_code)) [
        | inl nobody ↦ unfold reward_owner owner_of_code in ground arith
        | inr (o, owned) ↦ unfold reward_owner owner_of_code in ground (arith, recorded)
      ]

  nothing_later :
      reward_for_payment db payment now ≡ (0, db) → reward_for_payment db payment later ≡ (0, db)
  nothing_later nothing = elim (reward_for_payment-only db payment later) [
    | inl (owner, r) ↦ ground (arith, reward_for_payment-rewarding db payment now owner r)
    | inr still_nothing ↦ still_nothing
  ]

  -- A repeated notification for a payment records nothing more, at any later time.
  pub reward_for_payment-again :
      let db' = (reward_for_payment db payment now).1 in
      reward_for_payment db' payment later ≡ (0, db')
  reward_for_payment-again = elim (reward_for_payment-only db payment now) [
    | inl (owner, r) ↦
        rw (reward_for_payment-rewarding db payment now owner r) (again-rewarded owner r.first_time)
    | inr nothing ↦ rw nothing (nothing_later nothing)
  ]
