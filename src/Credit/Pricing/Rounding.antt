-- ===== src/Credit/Pricing/Rounding.antt =====
-- `round` on a quotient: nearest, and within the price.
use vpn_infrastructure_showc.Base.{ℕ, ◌+◌, ◌*◌, ◌≤◌, arith}
use vpn_infrastructure_showc.Credit.Pricing.{round_div}

-- The rounded hundredth is within a half of the exact quotient, on either side.
round_div_near :
    (n : ℕ) → (2 * n ≤ 200 * round_div n 100 + 100) × (200 * round_div n 100 ≤ 2 * n + 100)
unfolding round_div
round_div_near n = ground arith

-- A percentage up to 100 takes off at most the whole price.
pub discount-le-price :
    (price percent : ℕ) → percent ≤ 100 → round_div (price * percent) 100 ≤ price
discount-le-price price percent h = grind (arith, round_div_near (price * percent))
