-- ===== src/Accounts/Register.antt =====
-- pwa/api/register.py: a new account, and a subscription granted by hand.
pub mod Consistent
pub mod Distinct
pub mod Login
mod Examples
use Prim.Native.Char.{Char, code}
use Prim.Native.String
use vpn_infrastructure_showc.Base.{
  ℕ, suc, ◌+◌, max, String, Bool, true, false, Option, none, some, List, [], ◌∷◌, ◌++◌, ◌&&◌, ◌||◌,
  leb, ◌==◌, str_eq, any, not, get_or_else, if◌then◌else◌,
}
use vpn_infrastructure_showc.PyText.{lower}
use vpn_infrastructure_showc.Model.{days, User, PromoCode, Portal, save_user}
use vpn_infrastructure_showc.Exec.{Exec, ok, err, http, ◌>>=◌}
use vpn_infrastructure_showc.Credit.Codes.{Refusal, resolve_code}
use vpn_infrastructure_showc.Accounts.{
  Visit, Server, register_per_ip, take_try, with_db, send_now, has_email, has_name,
}
use vpn_infrastructure_showc.Accounts.Letters.{query, issue_token}

-- a letter of the wrapper's alphabet: [A-Za-z0-9_-]
abbrev pub is_name_char : Char → Bool
is_name_char c =
    (leb 65 (code c) && leb (code c) 90)
    || (leb 97 (code c) && leb (code c) 122)
    || (leb 48 (code c) && leb (code c) 57)
    || (code c == 95)
    || (code c == 45)

unfoldable pub all_name_chars : String → Bool
all_name_chars String.[] = true
all_name_chars (String.◌∷◌ c s) = is_name_char c && all_name_chars s

-- `USERNAME_RE.fullmatch`
abbrev pub username_matches : String → Bool
username_matches v = leb 3 (String.len v) && leb (String.len v) 27 && all_name_chars v

-- RESERVED, with ADMIN_USERNAME
unfoldable pub reserved : String → List String
reserved admin_username =
    lower admin_username ∷ "admin" ∷ "root" ∷ "support" ∷ "sovereign" ∷ "sovrn" ∷ []

-- `RegisterRequest`, as it was sent
pub record RegisterRequest : Type 0 where
  pub username : String
  pub email : String
  pub password : String
  pub lang : String
  pub ref : Option String

abbrev pub lang_of : String → String
lang_of lang = if str_eq lang "ru" || str_eq lang "en" then lang else "ru"

-- `ref` has at most 32 characters
abbrev pub all_short : Option String → Bool
all_short none = true
all_short (some code) = leb (String.len code) 32

-- the validators: a request that they refuse is answered with 422
unfoldable pub is_valid : String → RegisterRequest → Bool
is_valid admin_username req =
    username_matches req.username
    && not (any (str_eq (lower req.username)) (reserved admin_username))
    && leb 8 (String.len req.password)
    && leb (String.len req.password) 128
    && all_short req.ref

abbrev pub code_of_promo : Option PromoCode → Option String
code_of_promo none = none
code_of_promo (some promo) = some promo.code

-- an account that is in no table, under a key that no row has
abbrev pub nobody : ℕ → User
nobody key = record {
  id = key;
  username = "";
  email = none;
  password_hash = "";
  is_active = true;
  is_subscribed = false;
  peer_ip = none;
  plan = none;
  created_at = 0;
  subscribed_until = none;
  reset_token = none;
  reset_expires = none;
  email_verified_at = none;
  email_verify_token = none;
  email_verify_expires = none;
  lang = "ru";
  trial_until = none;
  referred_code = none;
  telegram_id = none;
  google_sub = none;
  telegram_link_hash = none;
  telegram_link_expires = none;
}

module _ (digest : String → String) (hash_password : String → String) (admin_username : String)
    (v : Visit) where
  -- the new row
  unfoldable pub new_user : RegisterRequest → ℕ → User
  new_user req key = issue_token digest v (record {
    id = key;
    username = req.username;
    email = some (lower req.email);
    password_hash = hash_password req.password;
    is_active = true;
    is_subscribed = false;
    peer_ip = none;
    plan = none;
    created_at = v.now;
    subscribed_until = none;
    reset_token = none;
    reset_expires = none;
    email_verified_at = none;
    email_verify_token = none;
    email_verify_expires = none;
    lang = lang_of req.lang;
    trial_until = none;
    referred_code = none;
    telegram_id = none;
    google_sub = none;
    telegram_link_hash = none;
    telegram_link_expires = none;
  })

  -- a code that does not resolve is dropped without a word
  abbrev pub with_code : Option PromoCode × Option Refusal → User → User
  with_code (none, reason) u = u
  with_code (some promo, reason) u = record u { referred_code = some promo.code }

  -- the row is there when the code is looked up; the letter goes out after the commit
  unfoldable pub create : RegisterRequest → Portal → User × Portal
  create req db =
      let u = new_user req db.next_id in
      let flushed : Portal = record db { next_id = suc db.next_id; users = db.users ++ u ∷ [] } in
      let u' = with_code (resolve_code flushed req.ref u v.now) u in
      (u', send_now u'.email "welcome" (save_user u' flushed))

  unfoldable pub register_email : RegisterRequest → Option User → Exec Server User
  register_email req (some other) s = (err (http 409 "Email already registered"), s)
  register_email req none s = let (u, db) = create req s.db in (ok u, with_db db s)

  unfoldable pub register_name : RegisterRequest → Option User → Exec Server User
  register_name req (some other) s = (err (http 409 "Username already exists"), s)
  register_name req none s = (query (has_email (lower req.email)) >>= register_email req) s

  -- `register`
  unfoldable pub register : RegisterRequest → Exec Server User
  register req s =
      let registered =
        (take_try register_per_ip v.ip v >>= λ _.
        query (has_name (lower req.username)) >>= register_name req)
          s in
      if is_valid admin_username req then registered else (err (http 422 "Unprocessable Entity"), s)

-- the code of a link, looked up for someone who has no account yet: `User(id="-")`
unfoldable pub referred_by : Option String → ℕ → Portal → Option String
referred_by ref now db = code_of_promo (resolve_code db ref (nobody db.next_id) now).0

-- the month is added to what is left of the paid time
unfoldable pub assign_found : String → ℕ → ℕ → Option User → Exec Server User
assign_found peer_ip for_days now none s = (err (http 404 "User not found"), s)
assign_found peer_ip for_days now (some user) s =
    let user' : User = record user {
      peer_ip = some peer_ip;
      is_subscribed = true;
      subscribed_until = some (max now (get_or_else user.subscribed_until now) + days for_days);
    } in
    (ok user', with_db (save_user user' s.db) s)

-- `assign_peer`; `days` is from 1 to 365
unfoldable pub assign_peer : String → String → ℕ → ℕ → Exec Server User
assign_peer username peer_ip for_days now s =
    let assigned =
      (query (λ u. str_eq u.username username) >>= assign_found peer_ip for_days now) s in
    if leb 1 for_days && leb for_days 365
    then assigned
    else (err (http 422 "Unprocessable Entity"), s)
