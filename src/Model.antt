-- ===== src/Model.antt =====
-- pwa/db/models.py: one record for each table, and the database as the list of each table's rows.
-- Keys made by `uuid4` are numbers, since they are only compared; a moment is the number of
-- seconds since the epoch, in UTC (every stored moment is read through `_aware`, so a moment
-- without an offset is one in UTC).
use vpn_infrastructure_showc.Base.{ℕ, ◌*◌, String, Bool, Option, List, ℤ, ◌==◌, update}

-- `timedelta(days=n)`, in seconds
abbrev pub days : ℕ → ℕ
days n = n * 86400

pub record User : Type 0 where
  pub id : ℕ
  pub username : String
  pub email : Option String
  pub password_hash : String
  pub is_active : Bool
  pub is_subscribed : Bool
  pub peer_ip : Option String
  pub plan : Option String
  pub created_at : ℕ
  pub subscribed_until : Option ℕ
  pub reset_token : Option String
  pub reset_expires : Option ℕ
  pub email_verified_at : Option ℕ
  pub email_verify_token : Option String
  pub email_verify_expires : Option ℕ
  pub lang : String
  pub trial_until : Option ℕ
  pub referred_code : Option String
  pub telegram_id : Option ℕ
  pub google_sub : Option String
  pub telegram_link_hash : Option String
  pub telegram_link_expires : Option ℕ

pub record Config : Type 0 where
  pub id : ℕ
  pub user_id : ℕ
  pub name : String
  pub peer_ip : String
  pub kind : String
  pub location : String
  pub private_key : String
  pub public_key : String
  pub preshared_key : String
  pub is_active : Bool
  pub created_at : ℕ

pub record Payment : Type 0 where
  pub id : ℕ
  pub user_id : ℕ
  pub plan : String
  pub amount : ℤ
  pub currency : String
  pub status : String
  pub heleket_invoice_id : Option String
  pub provider : Option String
  pub provider_ref : Option String
  pub promo_code : Option String
  pub credit_spent : ℤ
  pub created_at : ℕ
  pub paid_at : Option ℕ

pub record PromoCode : Type 0 where
  pub id : ℕ
  pub code : String
  pub owner_user_id : Option ℕ
  pub discount_percent : ℕ
  pub max_uses : Option ℕ
  pub is_active : Bool
  pub expires_at : Option ℕ
  pub created_at : ℕ
  pub note : Option String

pub record CreditEntry : Type 0 where
  pub id : ℕ
  pub user_id : ℕ
  pub delta : ℤ
  pub reason : String
  pub payment_id : Option ℕ
  pub source_payment_id : Option ℕ
  pub vests_at : Option ℕ
  pub expires_at : Option ℕ
  pub created_at : ℕ
  pub note : Option String

pub record ReferralReward : Type 0 where
  pub id : ℕ
  pub referrer_user_id : ℕ
  pub source_payment_id : ℕ
  pub days : ℕ
  pub vests_at : ℕ
  pub applied_at : Option ℕ
  pub created_at : ℕ
  pub note : Option String

pub record TrialGrant : Type 0 where
  pub id : ℕ
  pub email_norm : Option String
  pub telegram_id : Option ℕ
  pub user_id : Option ℕ
  pub source_ip : Option String
  pub granted_at : ℕ

-- The texts that `dedupe_key` holds: a prefix and what follows it.
pub data DedupeKey : Type 0 where
  referral : ℕ → DedupeKey
  sub1 sub3 trial1 : ℕ → DedupeKey
  ended : String → ℕ → DedupeKey

pub record Notification : Type 0 where
  pub id : ℕ
  pub user_id : ℕ
  pub kind : String
  pub link : Option String
  pub dedupe_key : Option DedupeKey
  pub created_at : ℕ
  pub read_at : Option ℕ

pub record AppSession : Type 0 where
  pub id : ℕ
  pub user_id : ℕ
  pub token_hash : String
  pub created_at : ℕ
  pub last_used_at : ℕ
  pub expires_at : ℕ

-- What is handed to the background senders of mail and of the Telegram bot, in order.
pub data Outgoing : Type 0 where
  -- `telegram.send_later` to a chat: the bell's message of a kind
  telegram : ℕ → String → Outgoing
  -- `mailer.send_later` to an address, if there is one: a letter of a kind
  letter : Option String → String → Outgoing

-- The portal's state: its tables and what was handed to the senders. `next_id` is the key that
-- the next row gets: `uuid4` repeats none.
pub record Portal : Type 0 where
  pub next_id : ℕ
  pub users : List User
  pub configs : List Config
  pub payments : List Payment
  pub promo_codes : List PromoCode
  pub credit_entries : List CreditEntry
  pub referral_rewards : List ReferralReward
  pub trial_grants : List TrialGrant
  pub notifications : List Notification
  pub app_sessions : List AppSession
  pub outbox : List Outgoing

-- A write to an attribute of a loaded row, as the session flushes it: the row with that key is
-- replaced.
unfoldable pub save_user : User → Portal → Portal
save_user u db = record db { users = update (λ r. r.id == u.id) (λ _. u) db.users }

unfoldable pub save_payment : Payment → Portal → Portal
save_payment p db = record db { payments = update (λ r. r.id == p.id) (λ _. p) db.payments }

unfoldable pub save_config : Config → Portal → Portal
save_config c db = record db { configs = update (λ r. r.id == c.id) (λ _. c) db.configs }
