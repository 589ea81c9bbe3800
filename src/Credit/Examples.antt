-- ===== src/Credit/Examples.antt =====
-- Credit and codes on a customer whose friend sent a code, with points and a vested reward.
use vpn_infrastructure_showc.Base.{
  ◌≡◌, ◌↔◌, refl, true, false, none, some, [], ◌∷◌, arith, pos, ◌-ℤ◌, ◌+ℤ◌, select, str_eq,
  if◌then◌else◌,
}
use vpn_infrastructure_showc.Model.{days, PromoCode}
use vpn_infrastructure_showc.PyText.{strip, upper}
use vpn_infrastructure_showc.Plans.{plan_info}
use vpn_infrastructure_showc.Credit.Ledger.{balance, sum_where}
use vpn_infrastructure_showc.Credit.Codes.{
  resolve_code, resolve_found, refusal_of, uses_of, is_first_purchase, find_code, code_for,
  issue_code, unused_code, referral_code, add_code, new_code, issue_or_keep,
}
use vpn_infrastructure_showc.Credit.Codes.Usable.{IsUsable, resolve_code-IsUsable}
use vpn_infrastructure_showc.Credit.Pricing.{
  Quote, round_div, discounted_price, max_credit_for, takes_link_code, applied_promo, quote_for,
  price_plan, price_order,
}
use vpn_infrastructure_showc.Credit.Pricing.Quotes.{IsFair, price_order-IsFair}
use vpn_infrastructure_showc.Credit.Spending.{spend_on_payment}
use vpn_infrastructure_showc.Credit.Spending.Once.{balance-spend_on_payment}
use vpn_infrastructure_showc.Credit.Rewards.{
  subscribed, is_due_to, later, apply_rewards_for, owner_of_code,
}
use vpn_infrastructure_showc.Credit.Rewards.Recording.{IsRewarding}
use vpn_infrastructure_showc.Credit.Rewards.Applying.{
  total_days, apply_rewards_for-extends, apply_rewards_for-once,
}
use vpn_infrastructure_showc.Sample.{customer, friend_code, order, portal}

abbrev quoted : Quote
quoted = record {
  plan = "basic-1m";
  base_price = pos 350;
  discount = pos 35;
  promo_code = some "FRIEND";
  promo_auto = true;
  promo_refused = none;
  promo_refused_text = none;
  credit_available = pos 175;
  credit_max = pos 157;
  credit_spent = pos 157;
  amount = pos 158;
}

-- the friend's code applies by itself, and the points are capped at half
priced : price_order (portal []) (customer 1 2000) "basic-1m" none (pos 1000) 1000 ≡ some quoted
unfolding price_order price_plan quote_for applied_promo takes_link_code resolve_code resolve_found
    refusal_of find_code uses_of is_first_purchase upper strip discounted_price max_credit_for
    round_div balance sum_where ◌-ℤ◌ ◌+ℤ◌ plan_info
priced = refl

price_order-IsFair_example : IsFair (portal []) (customer 1 2000) "basic-1m" (pos 1000) 1000 quoted
price_order-IsFair_example =
    price_order-IsFair (portal []) (customer 1 2000) "basic-1m" none (pos 1000) 1000 quoted
      (omega arith) priced

resolve_code-IsUsable_example :
    (resolve_code (portal []) (some " friend ") (customer 1 2000) 1000 ≡ (some friend_code, none))
    ↔ ((str_eq " friend " "" ≡ false)
        × (find_code (portal []) " friend " ≡ some friend_code)
        × IsUsable (portal []) (customer 1 2000) 1000 friend_code)
resolve_code-IsUsable_example =
    resolve_code-IsUsable (portal []) (customer 1 2000) 1000 " friend " friend_code

abbrev own_code : PromoCode
own_code = referral_code (portal []) (customer 1 2000) 1000 "NEW"

issued :
    issue_code (portal []) (customer 1 2000) 1000 ("FRIEND" ∷ "NEW" ∷ [])
    ≡ some (own_code, add_code own_code (portal []))
unfolding issue_code issue_or_keep new_code unused_code code_for
issued = refl

balance-spend_on_payment_example :
    let (spent, db') = spend_on_payment (portal []) (order "basic-1m") 1000 in
    balance db' (customer 1 2000) 1500 ≡ balance (portal []) (customer 1 2000) 1500 -ℤ spent
balance-spend_on_payment_example =
    balance-spend_on_payment (portal []) (order "basic-1m") 1000 (customer 1 2000) 1500

rewarding : IsRewarding (portal []) (order "basic-1m") 2
unfolding owner_of_code plan_info
rewarding = record {
  has_code = refl;
  owned = refl;
  not_self = λ e. omega (arith, e);
  known_plan = λ e. ground (arith, e);
  cash = omega arith;
  first_time = refl;
}

live : subscribed (customer 1 2000) 1000 ≡ true
unfolding subscribed
live = refl

apply_rewards_for-extends_example :
    let due = select (is_due_to 1 1000) (portal []).referral_rewards in
    let extension = if subscribed (customer 1 2000) 1000 then total_days due else 0 in
    ((apply_rewards_for (portal []) (customer 1 2000) 1000).0 ≡ extension)
    × ((apply_rewards_for (portal []) (customer 1 2000) 1000).1
        ≡ record (customer 1 2000) { subscribed_until = later (days extension) (some 2000) })
    × ((apply_rewards_for (portal []) (customer 1 2000) 1000).2 ≡ (
        if subscribed (customer 1 2000) 1000
        then (apply_rewards_for (portal []) (customer 1 2000) 1000).2
        else portal []))
apply_rewards_for-extends_example = apply_rewards_for-extends (portal []) (customer 1 2000) 1000

apply_rewards_for-once_example :
    let (_, user', db') = apply_rewards_for (portal []) (customer 1 2000) 1000 in
    (select (is_due_to 1 1000) db'.referral_rewards ≡ [])
    × ((apply_rewards_for db' user' 1000).0 ≡ 0)
apply_rewards_for-once_example = apply_rewards_for-once (portal []) (customer 1 2000) 1000 live
