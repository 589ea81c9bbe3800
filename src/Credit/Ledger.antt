-- ===== src/Credit/Ledger.antt =====
-- `balance` and `pending_balance`: sums over the ledger of a customer.
use vpn_infrastructure_showc.Base.{
  ℕ, Bool, ◌&&◌, ◌||◌, List, [], ◌∷◌, ℤ, pos, ◌+ℤ◌, ltb_ℤ, ltb, leb, ◌==◌, is_none, holds,
  if◌then◌else◌,
}
use vpn_infrastructure_showc.Model.{User, CreditEntry, Portal}

-- `func.coalesce(func.sum(CreditEntry.delta), 0)` over the rows that pass the test
unfoldable pub sum_where : (CreditEntry → Bool) → List CreditEntry → ℤ
sum_where p [] = pos 0
sum_where p (e ∷ es) = let rest = sum_where p es in if p e then e.delta +ℤ rest else rest

-- vested, and not expired
abbrev pub is_spendable : ℕ → ℕ → CreditEntry → Bool
is_spendable uid now e =
    (e.user_id == uid)
    && (is_none e.vests_at || holds (λ v. leb v now) e.vests_at)
    && (is_none e.expires_at || holds (λ x. ltb now x) e.expires_at)

-- earned, and not yet vested
abbrev pub is_pending : ℕ → ℕ → CreditEntry → Bool
is_pending uid now e =
    (e.user_id == uid) && ltb_ℤ (pos 0) e.delta && holds (λ v. ltb now v) e.vests_at

unfoldable pub balance : Portal → User → ℕ → ℤ
balance db user now = sum_where (is_spendable user.id now) db.credit_entries

unfoldable pub pending_balance : Portal → User → ℕ → ℤ
pending_balance db user now = sum_where (is_pending user.id now) db.credit_entries
