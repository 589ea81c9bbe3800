-- ===== src/Credit/Spending.antt =====
-- `spend_on_payment`: the credit an order was priced with, consumed once.
pub mod Once
use vpn_infrastructure_showc.Base.{
  ℕ, suc, Bool, none, some, [], ◌∷◌, ◌++◌, ◌&&◌, ℤ, pos, ◌-ℤ◌, leb_ℤ, ◌==◌, str_eq, is_some, holds,
  find, if◌then◌else◌,
}
use vpn_infrastructure_showc.Model.{Payment, CreditEntry, Portal}

-- the spend recorded for a payment
abbrev pub is_spend_of : ℕ → CreditEntry → Bool
is_spend_of pid e = str_eq e.reason "spend" && holds (λ p. p == pid) e.payment_id

unfoldable pub spend_entry : Portal → Payment → ℕ → CreditEntry
spend_entry db payment now = record {
  id = db.next_id;
  user_id = payment.user_id;
  delta = pos 0 -ℤ payment.credit_spent;
  reason = "spend";
  payment_id = some payment.id;
  source_payment_id = none;
  vests_at = none;
  expires_at = none;
  created_at = now;
  note = some payment.plan;
}

unfoldable pub add_entry : CreditEntry → Portal → Portal
add_entry e db = record db {
  next_id = suc db.next_id;
  credit_entries = db.credit_entries ++ e ∷ [];
}

unfoldable pub spend_on_payment : Portal → Payment → ℕ → ℤ × Portal
spend_on_payment db payment now =
    if leb_ℤ payment.credit_spent (pos 0)
    then (pos 0, db)
    else if is_some (find (is_spend_of payment.id) db.credit_entries)
    then (pos 0, db)
    else (payment.credit_spent, add_entry (spend_entry db payment now) db)
