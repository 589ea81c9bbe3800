-- ===== src/Credit/Pricing/Quotes.antt =====
-- What a quote adds up to, and what it can never exceed.
use mathlib.Core.Path.{subst}
use vpn_infrastructure_showc.Base.{
  ℕ, ◌-◌, ◌/◌, ◌≤◌, String, ◌≡◌, refl, Option, none, some, arith, ℤ, pos, pos_part, ◌+ℤ◌, ◌-ℤ◌,
  ◌≤ℤ◌, int_laws, All, find-All, Option-cases, Bool-cases, inl, inr, str_eq, ◌⊎◌, Bool, ◌⊎◌, Bool,
}
use vpn_infrastructure_showc.Model.{User, PromoCode, Portal}
use vpn_infrastructure_showc.PyText.{strip, upper}
use vpn_infrastructure_showc.Plans.{Plan, plan_info}
use vpn_infrastructure_showc.Credit.Ledger.{balance}
use vpn_infrastructure_showc.Credit.Codes.{find_code, refusal_of, resolve_found, resolve_code}
use vpn_infrastructure_showc.Credit.Pricing.{
  Quote, discount_of, discounted_price, max_credit_for, max_ℤ, min_ℤ, takes_link_code,
  applied_promo, quote_for, price_plan, price_order,
}
use vpn_infrastructure_showc.Credit.Pricing.Rounding.{discount-le-price}

-- the promo that a lookup accepts is one of the stored ones
resolve_code-All :
    (P : PromoCode → Type 0) (db : Portal) (code : Option String) (buyer : User) (now : ℕ)
    (promo : PromoCode)
    → All P db.promo_codes
    → (resolve_code db code buyer now).0 ≡ some promo
    → P promo
unfolding resolve_code resolve_found find_code
resolve_code-All P db none buyer now promo h e = ground arith
resolve_code-All P db (some code) buyer now promo h e = elim (Option-cases (find_code db code)) [
  | inl missing ↦ ground arith
  | inr (found, stored) ↦ elim (Option-cases (refusal_of db buyer now found)) [
    | inl fine ↦
        find-All P (λ p. str_eq p.code (upper (strip code))) db.promo_codes promo h (ground arith)
    | inr (reason, refused) ↦ ground arith
  ]
]

applied_promo-All :
    (P : PromoCode → Type 0) (db : Portal) (user : User) (code : Option String) (now : ℕ)
    (promo : PromoCode)
    → All P db.promo_codes
    → (applied_promo db user code now).0 ≡ some promo
    → P promo
unfolding applied_promo
applied_promo-All P db user code now promo h e = elim (Bool-cases (takes_link_code db user code)) [
  | inl link ↦ resolve_code-All P db user.referred_code user now promo h (ground arith)
  | inr typed ↦ resolve_code-All P db code user now promo h (ground arith)
]

-- No stored code takes off more than the whole price.
abbrev pub IsPercent : PromoCode → Type 0
IsPercent promo = promo.discount_percent ≤ 100

discount_of-le :
    (price : ℕ) (o : Option PromoCode)
    → ((promo : PromoCode) → o ≡ some promo → IsPercent promo)
    → discount_of price o ≤ price
discount_of-le price none h = omega arith
discount_of-le price (some promo) h = discount-le-price price promo.discount_percent (h promo refl)

-- The parts of a quote fit together, and come from the plan's price, from what the account has on
-- its balance, and from the credit that was asked for.
pub record IsFair (db : Portal) (user : User) (key : String) (asked : ℤ) (now : ℕ) (q : Quote)
    : Type 0 where
  pub plan : Plan
  pub of_plan : plan_info key ≡ some plan
  pub price : q.base_price ≡ pos plan.amount
  pub on_balance : q.credit_available ≡ balance db user now
  pub within_asked : (q.credit_spent ≡ pos 0) ⊎ (q.credit_spent ≤ℤ asked)
  pub adds_up : q.base_price ≡ q.amount +ℤ q.discount +ℤ q.credit_spent
  pub discount_nonneg : pos 0 ≤ℤ q.discount
  pub credit_nonneg : pos 0 ≤ℤ q.credit_spent
  pub within_balance : (q.credit_spent ≡ pos 0) ⊎ (q.credit_spent ≤ℤ balance db user now)
  pub within_half : q.credit_spent +ℤ q.credit_spent ≤ℤ q.base_price -ℤ q.discount
  pub cash_covers_credit : q.credit_spent ≤ℤ q.amount

discounted_price-eq :
    (plan : Plan) (promo : Option PromoCode)
    → discount_of plan.amount promo ≤ plan.amount
    → discounted_price plan promo ≡ pos (plan.amount - discount_of plan.amount promo)
unfolding discounted_price
discounted_price-eq plan promo h = omega int_laws

-- the credit that is spent, as a number: at most the limit, and covered by the balance
abbrev clamped : ℤ → ℤ → ℕ → ℤ
clamped asked available limit = max_ℤ (pos 0) (min_ℤ (min_ℤ asked available) (pos limit))

clamped-pos :
    (asked available : ℤ) (limit : ℕ)
    → clamped asked available limit ≡ pos (pos_part (clamped asked available limit))
clamped-pos asked available limit = ground arith

clamped_bounds :
    (asked available : ℤ) (limit : ℕ)
    → let k = pos_part (clamped asked available limit) in
      (k ≤ limit) × ((k ≡ 0) ⊎ (pos k ≤ℤ available)) × ((k ≡ 0) ⊎ (pos k ≤ℤ asked))
clamped_bounds asked available limit = ground arith

quote_for-IsFair :
    (db : Portal) (user : User) (key : String) (plan : Plan) (code : Option String) (use_credit : ℤ)
    (now : ℕ) (a : Option PromoCode × Bool)
    → plan_info key ≡ some plan
    → discount_of plan.amount a.0 ≤ plan.amount
    → IsFair db user key use_credit now (quote_for db user key plan code use_credit now a)
unfolding quote_for max_credit_for
quote_for-IsFair db user key plan code use_credit now (promo, auto) found h =
    let m = plan.amount - discount_of plan.amount promo in
    let available = balance db user now in
    let (small, covered, wanted) = clamped_bounds use_credit available (m / 2) in
    rw (discounted_price-eq plan promo h, clamped-pos use_credit available (m / 2))
      (record {
        plan = plan;
        of_plan = found;
        price = refl;
        on_balance = refl;
        within_asked = ground (arith, wanted);
        adds_up = omega int_laws;
        discount_nonneg = omega int_laws;
        credit_nonneg = omega int_laws;
        within_balance = ground (arith, covered);
        within_half = omega (int_laws, small);
        cash_covers_credit = omega (int_laws, small);
      })

-- Whatever the customer asks for, an order that is priced adds up: the price of the plan is the
-- cash asked for, the discount and the credit together; neither the discount nor the credit is
-- negative; the quote shows the balance of the account; the credit is zero, or covered by that
-- balance and no more than was asked for; it is at most half of the price after the discount, and
-- no more than the cash. It needs that no stored code takes off over 100%.
pub price_order-IsFair :
    (db : Portal) (user : User) (key : String) (code : Option String) (use_credit : ℤ) (now : ℕ)
    (q : Quote)
    → All IsPercent db.promo_codes
    → price_order db user key code use_credit now ≡ some q
    → IsFair db user key use_credit now q
unfolding price_order price_plan
price_order-IsFair db user key code use_credit now q h e = elim (Option-cases (plan_info key)) [
  | inl missing ↦ ground arith
  | inr (plan, found) ↦ subst (IsFair db user key use_credit now) (ground arith) (
      quote_for-IsFair db user key plan code use_credit now (applied_promo db user code now) found (
        discount_of-le plan.amount (applied_promo db user code now).0
          (λ promo p. applied_promo-All IsPercent db user code now promo h p)))
]
