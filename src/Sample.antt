-- ===== src/Sample.antt =====
-- Sample data for the tests: a customer, a referrer, an order and a node that agrees to everything.
use vpn_infrastructure_showc.Base.{ℕ, ◌+◌, String, true, none, some, List, [], ◌∷◌, pos}
use vpn_infrastructure_showc.Model.{
  days, User, Config, Payment, PromoCode, CreditEntry, ReferralReward, Portal,
}
use vpn_infrastructure_showc.Locations.{Settings}
use vpn_infrastructure_showc.Nodes.{Environment, Session}

abbrev pub settings : Settings
settings = record {
  bridge_ip = "192.0.2.1";
  bridge_public_key = "de-key";
  bridge_endpoint = "192.0.2.1:443";
  nl_entry_ip = "192.0.2.2";
  nl_public_key = "nl-key";
  nl_endpoint = "192.0.2.2:443";
  nl_params = some (("Jc", "4") ∷ []);
  nl_mtu = some 1280;
  locations_paused = "";
}

-- a node that does what it is asked; the world counts the calls
abbrev pub node : Environment
node = record {
  World = ℕ;
  settings = settings;
  ssh = λ host cmd w. (some ("ok: done", ""), w + 1);
  read_addresses = λ printed. "10.88.88.42" ∷ [];
  make_keys = λ w. (some (record { private_key = "p"; public_key = "q"; preshared_key = "r" }), w);
  encrypt = λ plain. plain;
  decrypt = λ cipher. cipher;
}

-- a customer with a subscription until `until`
abbrev pub customer : ℕ → ℕ → User
customer uid until = record {
  id = uid;
  username = "alice";
  email = some "alice@example.com";
  password_hash = "";
  is_active = true;
  is_subscribed = true;
  peer_ip = none;
  plan = some "basic-1m";
  created_at = 0;
  subscribed_until = some until;
  reset_token = none;
  reset_expires = none;
  email_verified_at = some 1;
  email_verify_token = none;
  email_verify_expires = none;
  lang = "en";
  trial_until = none;
  referred_code = some "FRIEND";
  telegram_id = none;
  google_sub = none;
  telegram_link_hash = none;
  telegram_link_expires = none;
}

-- the referrer's code: a tenth off
abbrev pub friend_code : PromoCode
friend_code = record {
  id = 3;
  code = "FRIEND";
  owner_user_id = some 2;
  discount_percent = 10;
  max_uses = none;
  is_active = true;
  expires_at = none;
  created_at = 0;
  note = none;
}

-- a reward of the customer that vested at 500
abbrev pub reward : ReferralReward
reward = record {
  id = 4;
  referrer_user_id = 1;
  source_payment_id = 90;
  days = 30;
  vests_at = 500;
  applied_at = none;
  created_at = 0;
  note = none;
}

-- old points of the customer
abbrev pub points : CreditEntry
points = record {
  id = 5;
  user_id = 1;
  delta = pos 175;
  reason = "referral_reward";
  payment_id = none;
  source_payment_id = some 91;
  vests_at = some 400;
  expires_at = none;
  created_at = 0;
  note = none;
}

-- an order for a plan, priced with the friend's code and some points
abbrev pub order : String → Payment
order plan = record {
  id = 7;
  user_id = 1;
  plan = plan;
  amount = pos 200;
  currency = "RUB";
  status = "pending";
  heleket_invoice_id = none;
  provider = some "platega";
  provider_ref = some "t-1";
  promo_code = some "FRIEND";
  credit_spent = pos 70;
  created_at = 900;
  paid_at = none;
}

abbrev pub device : String → String → Config
device kind ip = record {
  id = 8;
  user_id = 1;
  name = "device-1";
  peer_ip = ip;
  kind = kind;
  location = "de";
  private_key = "";
  public_key = "pk";
  preshared_key = "";
  is_active = true;
  created_at = 0;
}

-- the customer and the referrer, the code, the points and the reward, and the given devices
abbrev pub portal : List Config → Portal
portal devices = record {
  next_id = 100;
  users = customer 1 2000 ∷ record (customer 2 (days 400)) { username = "bob" } ∷ [];
  configs = devices;
  payments = [];
  promo_codes = friend_code ∷ [];
  credit_entries = points ∷ [];
  referral_rewards = reward ∷ [];
  trial_grants = [];
  notifications = [];
  app_sessions = [];
  outbox = [];
}

abbrev pub session : List Config → Session ℕ
session devices = record { db = portal devices; committed = portal devices; world = 0 }
