-- ===== src/Credit/Spending/Once.antt =====
-- Credit is spent once for a payment, and by the amount that the order was priced with.
use vpn_infrastructure_showc.Base.{
  ℕ, ◌≡◌, Bool, List, [], ◌∷◌, ◌++◌, arith, pos, ◌+ℤ◌, ◌-ℤ◌, int_laws, sub_zero, add_neg, ◌==◌,
  find, find-append, Option-cases, inl, inr, if◌then◌else◌,
}
use vpn_infrastructure_showc.Model.{User, Payment, CreditEntry, Portal}
use vpn_infrastructure_showc.Credit.Ledger.{sum_where, balance, is_spendable}
use vpn_infrastructure_showc.Credit.Spending.{is_spend_of, spend_entry, add_entry, spend_on_payment}

sum_where-append :
    (p : CreditEntry → Bool) (es : List CreditEntry) (e : CreditEntry)
    → sum_where p (es ++ e ∷ []) ≡ (if p e then sum_where p es +ℤ e.delta else sum_where p es)
unfolding sum_where
sum_where-append p [] e = grind int_laws
sum_where-append p (x ∷ es) e = grind (int_laws, sum_where-append p es e)

module _ (db : Portal) (payment : Payment) (now : ℕ) where
  -- A second notification for the same payment spends nothing and changes nothing, at any time.
  pub spend_on_payment-again :
      (later : ℕ)
      → let db' = (spend_on_payment db payment now).1 in
        spend_on_payment db' payment later ≡ (pos 0, db')
  unfolding spend_on_payment add_entry spend_entry
  spend_on_payment-again later =
      elim (Option-cases (find (is_spend_of payment.id) db.credit_entries)) [
        | inl fresh ↦ ground (
          arith,
          find-append (is_spend_of payment.id) db.credit_entries (spend_entry db payment now) fresh,
        )
        | inr (old, spent) ↦ ground arith
      ]

  spendable-spend_entry :
      (uid at : ℕ) → is_spendable uid at (spend_entry db payment now) ≡ (payment.user_id == uid)
  unfolding spend_entry
  spendable-spend_entry uid at = ground arith

  balance-add_entry :
      (user : User) (at : ℕ)
      → balance (add_entry (spend_entry db payment now) db) user at ≡ (
          if payment.user_id == user.id
          then balance db user at -ℤ payment.credit_spent
          else balance db user at)
  unfolding add_entry balance
  balance-add_entry user at =
      rw
        (
          sum_where-append (is_spendable user.id at) db.credit_entries (spend_entry db payment now),
          spendable-spend_entry user.id at,
        )
        (unfold spend_entry in rw add_neg)

  -- Every balance after the call is the balance before it less the credit that the call reports,
  -- if the account is the one that pays, and is unchanged for every other account.
  pub balance-spend_on_payment :
      (user : User) (at : ℕ)
      → let (spent, db') = spend_on_payment db payment now in
        balance db' user at
        ≡ (if payment.user_id == user.id then balance db user at -ℤ spent else balance db user at)
  unfolding spend_on_payment
  balance-spend_on_payment user at =
      ground (arith, balance-add_entry user at, sub_zero (balance db user at))
