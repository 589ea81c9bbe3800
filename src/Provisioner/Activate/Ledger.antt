-- ===== src/Provisioner/Activate/Ledger.antt =====
-- Writes that leave the accounts, payments, credit, rewards and messages as they are.
use vpn_infrastructure_showc.Base.{◌≡◌, refl, ◌∙◌}
use vpn_infrastructure_showc.Model.{Config, Portal, save_config}

-- The same accounts, payments, credit, rewards and messages; devices and the outbox may differ.
pub record SameLedger (a b : Portal) : Type 0 where
  pub users : b.users ≡ a.users
  pub payments : b.payments ≡ a.payments
  pub credit_entries : b.credit_entries ≡ a.credit_entries
  pub referral_rewards : b.referral_rewards ≡ a.referral_rewards
  pub promo_codes : b.promo_codes ≡ a.promo_codes
  pub notifications : b.notifications ≡ a.notifications

pub SameLedger-refl : (a : Portal) → SameLedger a a
SameLedger-refl a = record {
  users = refl;
  payments = refl;
  credit_entries = refl;
  referral_rewards = refl;
  promo_codes = refl;
  notifications = refl;
}

pub SameLedger-trans : {a b c : Portal} → SameLedger a b → SameLedger b c → SameLedger a c
SameLedger-trans p q = record {
  users = q.users ∙ p.users;
  payments = q.payments ∙ p.payments;
  credit_entries = q.credit_entries ∙ p.credit_entries;
  referral_rewards = q.referral_rewards ∙ p.referral_rewards;
  promo_codes = q.promo_codes ∙ p.promo_codes;
  notifications = q.notifications ∙ p.notifications;
}

pub SameLedger-save_config : (c : Config) (a : Portal) → SameLedger a (save_config c a)
unfolding save_config
SameLedger-save_config c a = record {
  users = refl;
  payments = refl;
  credit_entries = refl;
  referral_rewards = refl;
  promo_codes = refl;
  notifications = refl;
}
