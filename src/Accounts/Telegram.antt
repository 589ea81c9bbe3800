-- ===== src/Accounts/Telegram.antt =====
-- pwa/api/telegram.py: which account a chat is tied to, and the accounts that begin in Telegram.
-- What `verify_init_data` reads, a user of Telegram or nothing, is an argument, and so are the
-- bot's settings. The dialogue of the bot is `Bot`.
pub mod Counting
pub mod Chats
pub mod Newcomers
pub mod Tied
mod Examples
use Prim.Native.String
use vpn_infrastructure_showc.Base.{
  ℕ, suc, ◌+◌, ◌*◌, String, Bool, true, false, not, Option, none, some, [], ◌∷◌, ◌++◌, ltb, ◌==◌,
  str_eq, holds, any, if◌then◌else◌,
}
use vpn_infrastructure_showc.PyText.{lower, strip}
use vpn_infrastructure_showc.Model.{User, Portal, save_user}
use vpn_infrastructure_showc.Exec.{Exec, ok, err, http, ◌>>=◌}
use vpn_infrastructure_showc.Accounts.{
  Visit, Server, login_per_ip, register_per_ip, take_try, with_db, has_name,
}
use vpn_infrastructure_showc.Accounts.Letters.{query}
use vpn_infrastructure_showc.Accounts.SignIn.{Claims, create_token}
use vpn_infrastructure_showc.Accounts.Register.{username_matches, referred_by}

abbrev pub link_ttl : ℕ
link_ttl = 15 * 60

abbrev pub has_chat : ℕ → User → Bool
has_chat chat u = holds (λ t. t == chat) u.telegram_id

unfoldable pub me_or_404 : Option User → Exec Server User
me_or_404 none s = (err (http 404 "User not found"), s)
me_or_404 (some user) s = (ok user, s)

-- `_me`
abbrev pub me : String → Exec Server User
me sub = query (λ u. str_eq u.username sub) >>= me_or_404

-- `_user_by_chat`
abbrev pub user_by_chat : ℕ → Exec Server (Option User)
user_by_chat chat = query (has_chat chat)

-- the other account of a chat lets go of it first
unfoldable pub free_chat : User → Option User → Portal → Portal
free_chat user none db = db
free_chat user (some other) db =
    if other.id == user.id then db else save_user (record other { telegram_id = none }) db

-- the account, written over with its chat
unfoldable pub tie : User → Option User → Portal → Portal
tie user other db = save_user user (free_chat user other db)

unfoldable pub unlink : User → Exec Server (Unit {0})
unlink user s = (
  ok tt,
  with_db (save_user (record user { telegram_id = none; telegram_link_hash = none }) s.db) s,
)

-- `tg_unlink`; the farewell in the chat is not kept
unfoldable pub tg_unlink : String → Exec Server (Unit {0})
tg_unlink sub = me sub >>= unlink

-- the answers of `_link`
pub data Linked : Type 0 where
  link_is_old : Linked
  linked_to : String → Linked

unfoldable pub finish_link : ℕ → User → Option User → Exec Server Linked
finish_link chat user other s = (
  ok (linked_to user.username),
  with_db
      (tie
        (record user {
          telegram_id = some chat;
          telegram_link_hash = none;
          telegram_link_expires = none;
        })
        other s.db)
      s,
)

unfoldable pub link_until : ℕ → ℕ → User → Option ℕ → Exec Server Linked
link_until chat now user none s = (ok link_is_old, s)
link_until chat now user (some expires) s =
    let linked = (user_by_chat chat >>= finish_link chat user) s in
    if ltb expires now then (ok link_is_old, s) else linked

unfoldable pub link_found : ℕ → ℕ → Option User → Exec Server Linked
link_found chat now none s = (ok link_is_old, s)
link_found chat now (some user) s = link_until chat now user user.telegram_link_expires s

unfoldable pub finish_webapp : ℕ → User → Option User → Exec Server (Unit {0})
finish_webapp chat user other s = (
  ok tt,
  with_db (tie (record user { telegram_id = some chat; telegram_link_hash = none }) other s.db) s,
)

-- `tg_link_webapp`
unfoldable pub tg_link_webapp : Option ℕ → String → Exec Server (Unit {0})
tg_link_webapp none sub s = (err (http 401 "bad init data"), s)
tg_link_webapp (some chat) sub s =
    (me sub >>= λ user. user_by_chat chat >>= finish_webapp chat user) s

module _ (digest : String → String) where
  -- the new one-time token; the answer is the link's token
  unfoldable pub offer_link : Visit → User → Exec Server String
  offer_link v user s = (
    ok v.drawn,
    with_db
        (save_user
          (record user {
            telegram_link_hash = some (digest v.drawn);
            telegram_link_expires = some (v.now + link_ttl);
          })
          s.db)
        s,
  )

  -- `tg_link`
  unfoldable pub tg_link : Bool → String → Visit → Exec Server String
  tg_link enabled sub v s =
      let offered = (me sub >>= offer_link v) s in
      if enabled then offered else (err (http 503 "bot is off"), s)

  abbrev pub has_link : String → User → Bool
  has_link token u = holds (λ h. str_eq h (digest token)) u.telegram_link_hash

  -- `_link`
  unfoldable pub link : ℕ → String → ℕ → Exec Server Linked
  link chat token now = query (has_link token) >>= link_found chat now

-- the answers to a sign-in from Telegram
unfoldable pub tg_signed_in : ℕ → ℕ → Option User → Exec Server Claims
tg_signed_in admin_minutes now none s = (err (http 404 "not_linked"), s)
tg_signed_in admin_minutes now (some user) s =
    if user.is_active
    then (ok (create_token admin_minutes user.username "client" now), s)
    else (err (http 403 "Account disabled"), s)

unfoldable pub login_as : ℕ → ℕ → Option ℕ → Exec Server Claims
login_as admin_minutes now none s = (err (http 401 "bad init data"), s)
login_as admin_minutes now (some chat) s = (user_by_chat chat >>= tg_signed_in admin_minutes now) s

-- a request that the bot's being off refuses
abbrev pub if_on : {A : Type 0} → Bool → Exec Server A → Exec Server A
if_on true m s = m s
if_on false m s = (err (http 503 "bot is off"), s)

-- `tg_login`
unfoldable pub tg_login : ℕ → Bool → Option ℕ → Visit → Exec Server Claims
tg_login admin_minutes enabled chat v =
    take_try login_per_ip v.ip v >>= λ _. if_on enabled (login_as admin_minutes v.now chat)

pub record TgRegister : Type 0 where
  pub username : String
  pub ref : Option String

module _ (hash_password : String → String) (admin_minutes : ℕ) (v : Visit) where
  -- an account without a mailbox, and with a password that nobody knows
  unfoldable pub new_tg_user : ℕ → TgRegister → String → Portal → User
  new_tg_user chat req name db = record {
    id = db.next_id;
    username = name;
    email = none;
    password_hash = hash_password v.drawn;
    is_active = true;
    is_subscribed = false;
    peer_ip = none;
    plan = none;
    created_at = v.now;
    subscribed_until = none;
    reset_token = none;
    reset_expires = none;
    email_verified_at = none;
    email_verify_token = none;
    email_verify_expires = none;
    lang = "ru";
    trial_until = none;
    referred_code = referred_by req.ref v.now db;
    telegram_id = some chat;
    google_sub = none;
    telegram_link_hash = none;
    telegram_link_expires = none;
  }

  unfoldable pub tg_create : ℕ → TgRegister → Option User → Exec Server Claims
  tg_create chat req (some user) s = (err (http 409 "already_linked"), s)
  tg_create chat req none s =
      let name = strip req.username in
      let u = new_tg_user chat req name s.db in
      if not (username_matches name)
      then (err (http 422 "bad_username"), s)
      else if any (has_name (lower name)) s.db.users
      then (err (http 409 "username_taken"), s)
      else (
        ok (create_token admin_minutes name "client" v.now),
        with_db (record s.db { next_id = suc s.db.next_id; users = s.db.users ++ u ∷ [] }) s,
      )

  unfoldable pub register_as : TgRegister → Option ℕ → Exec Server Claims
  register_as req none s = (err (http 401 "bad init data"), s)
  register_as req (some chat) s = (user_by_chat chat >>= tg_create chat req) s

  -- `tg_register`
  unfoldable pub tg_register : Bool → TgRegister → Option ℕ → Exec Server Claims
  tg_register enabled req chat =
      take_try register_per_ip v.ip v >>= λ _. if_on enabled (register_as req chat)
