-- ===== src/Credit/Pricing.antt =====
-- Pricing an order: the discount, the credit it may use, and `price_order`. An amount is a whole
-- number of rubles. `round` is Python's: to the nearest, and a half to the even side; the quotient
-- by 100 that it is given is a float, exact at every half.
pub mod Rounding
pub mod Quotes
use vpn_infrastructure_showc.Base.{
  ℕ, suc, ◌+◌, ◌*◌, ◌/◌, ◌%◌, String, Bool, false, ◌&&◌, not, Option, none, some, ℤ, pos, negsuc,
  ◌-ℤ◌, leb_ℤ, ltb, is_some, if◌then◌else◌,
}
use vpn_infrastructure_showc.Model.{User, PromoCode, Portal}
use vpn_infrastructure_showc.Plans.{Plan, plan_info}
use vpn_infrastructure_showc.Credit.Ledger.{balance}
use vpn_infrastructure_showc.Credit.Codes.{
  Refusal, refusal_text, resolve_code, is_first_purchase, is_blank,
}

abbrev pub min_ℤ : ℤ → ℤ → ℤ
min_ℤ a b = if leb_ℤ a b then a else b

abbrev pub max_ℤ : ℤ → ℤ → ℤ
max_ℤ a b = if leb_ℤ a b then b else a

-- `round(n / d)`
unfoldable pub round_div : ℕ → ℕ → ℕ
round_div n d =
    let q = n / d in
    let twice = 2 * (n % d) in if ltb twice d then q else if ltb d twice then q + 1 else q + q % 2

-- what a promo takes off a price
abbrev pub discount_of : ℕ → Option PromoCode → ℕ
discount_of price none = 0
discount_of price (some promo) = round_div (price * promo.discount_percent) 100

-- `discounted_price` of a plan that was found
unfoldable pub discounted_price : Plan → Option PromoCode → ℤ
discounted_price plan promo = pos plan.amount -ℤ pos (discount_of plan.amount promo)

-- `int(amount * MAX_CREDIT_SHARE)`, with a share of one half
unfoldable pub max_credit_for : ℤ → ℤ
max_credit_for (pos n) = pos (n / 2)
max_credit_for (negsuc n) = pos 0 -ℤ pos (suc n / 2)

pub record Quote : Type 0 where
  pub plan : String
  pub base_price : ℤ
  pub discount : ℤ
  pub promo_code : Option String
  pub promo_auto : Bool
  pub promo_refused : Option Refusal
  pub promo_refused_text : Option String
  pub credit_available : ℤ
  pub credit_max : ℤ
  pub credit_spent : ℤ
  pub amount : ℤ

abbrev code_of : Option PromoCode → Option String
code_of none = none
code_of (some promo) = some promo.code

abbrev text_of : Option Refusal → Option String
text_of none = none
text_of (some reason) = some (refusal_text reason)

-- the referral link's code is tried when none was typed, on a first purchase
unfoldable pub takes_link_code : Portal → User → Option String → Bool
takes_link_code db user code =
    is_blank code && not (is_blank user.referred_code) && is_first_purchase db user

-- the promo that applies, and whether it came by the link
unfoldable pub applied_promo : Portal → User → Option String → ℕ → Option PromoCode × Bool
applied_promo db user code now =
    if takes_link_code db user code
    then (let promo = (resolve_code db user.referred_code user now).0 in (promo, is_some promo))
    else ((resolve_code db code user now).0, false)

unfoldable pub quote_for :
    Portal → User → String → Plan → Option String → ℤ → ℕ → Option PromoCode × Bool → Quote
quote_for db user plan_key plan code use_credit now (promo, auto) =
    let refusal = (resolve_code db code user now).1 in
    let base = pos plan.amount in
    let after_discount = discounted_price plan promo in
    let available = balance db user now in
    let limit = max_credit_for after_discount in
    let credit = max_ℤ (pos 0) (min_ℤ (min_ℤ use_credit available) limit) in
    record {
      plan = plan_key;
      base_price = base;
      discount = base -ℤ after_discount;
      promo_code = code_of promo;
      promo_auto = auto;
      promo_refused = refusal;
      promo_refused_text = text_of refusal;
      credit_available = available;
      credit_max = limit;
      credit_spent = credit;
      amount = after_discount -ℤ credit;
    }

unfoldable pub price_plan :
    Portal → User → String → Option String → ℤ → ℕ → Option Plan → Option Quote
price_plan db user plan_key code use_credit now none = none
price_plan db user plan_key code use_credit now (some plan) =
    some (quote_for db user plan_key plan code use_credit now (applied_promo db user code now))

-- `price_order`; none is the error that an unknown plan raises
unfoldable pub price_order : Portal → User → String → Option String → ℤ → ℕ → Option Quote
price_order db user plan_key code use_credit now =
    price_plan db user plan_key code use_credit now (plan_info plan_key)
