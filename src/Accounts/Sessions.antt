-- ===== src/Accounts/Sessions.antt =====
-- pwa/services/app_sessions.py: the long-lived sign-in of the app. The digest of a token and the
-- random token are arguments.
pub mod Bounded
pub mod Usable
mod Examples
use Prim.Native.String
use vpn_infrastructure_showc.Base.{
  ℕ, suc, ◌+◌, ◌-◌, String, Bool, ◌&&◌, not, Option, none, some, List, [], ◌∷◌, ◌++◌, leb, ltb,
  ◌==◌, str_eq, any, find, drop, select, delete, update, sort_desc, if◌then◌else◌,
}
use vpn_infrastructure_showc.Model.{days, User, AppSession, Portal}
use vpn_infrastructure_showc.Exec.{Exec, ok, ◌>>=◌}
use vpn_infrastructure_showc.Payments.{one_or_none}

abbrev pub app_session_days : ℕ
app_session_days = 90

abbrev pub max_sessions_per_user : ℕ
max_sessions_per_user = 10

abbrev pub is_own : ℕ → AppSession → Bool
is_own uid r = r.user_id == uid

abbrev pub last_used : AppSession → ℕ
last_used r = r.last_used_at

-- the expired sessions of a user go
unfoldable pub drop_expired : ℕ → ℕ → List AppSession → List AppSession
drop_expired uid now rows = delete (λ r. is_own uid r && ltb r.expires_at now) rows

-- the sessions past the ninth, the most recently used first
unfoldable pub stale_of : ℕ → List AppSession → List AppSession
stale_of uid rows =
    drop (max_sessions_per_user - 1) (sort_desc last_used (select (is_own uid) rows))

-- `AppSession.id.in_(stale)`
abbrev pub is_in : List AppSession → AppSession → Bool
is_in stale r = any (λ x. x.id == r.id) stale

unfoldable pub drop_stale : ℕ → List AppSession → List AppSession
drop_stale uid rows = delete (is_in (stale_of uid rows)) rows

unfoldable pub new_session : ℕ → ℕ → String → ℕ → AppSession
new_session key uid hash now = record {
  id = key;
  user_id = uid;
  token_hash = hash;
  created_at = now;
  last_used_at = now;
  expires_at = now + days app_session_days;
}

-- a write to the table of the sessions
unfoldable pub with_sessions : List AppSession → Portal → Portal
with_sessions rows db = record db { app_sessions = rows }

-- no token, or one that is too long to be one of ours
abbrev pub is_token : String → Bool
is_token token = not (str_eq token "") && leb (String.len token) 128

abbrev pub user_of : ℕ → Portal → Option User
user_of uid db = find (λ (u : User). u.id == uid) db.users

-- the use of a session moves its end ahead
abbrev pub renew : ℕ → AppSession → AppSession
renew now r = record r { last_used_at = now; expires_at = now + days app_session_days }

-- the account is there and active: the session's end moves ahead
unfoldable pub touch_session : AppSession → ℕ → Option User → Portal → Option User × Portal
touch_session row now none db = (none, db)
touch_session row now (some user) db =
    if user.is_active
    then (some user, with_sessions (update (λ r. r.id == row.id) (renew now) db.app_sessions) db)
    else (none, db)

unfoldable pub use_found : ℕ → Option AppSession → Exec Portal (Option User)
use_found now none db = (ok none, db)
use_found now (some row) db =
    let (user, touched) = touch_session row now (user_of row.user_id db) db in
    if leb row.expires_at now
    then (ok none, with_sessions (delete (λ r. r.id == row.id) db.app_sessions) db)
    else (ok user, touched)

module _ (digest : String → String) where
  -- `open_session`; the token is the one that was generated
  unfoldable pub open_session : User → String → ℕ → Portal → Portal
  open_session user token now db =
      let kept = drop_stale user.id (drop_expired user.id now db.app_sessions) in
      record db {
        next_id = suc db.next_id;
        app_sessions = kept ++ new_session db.next_id user.id (digest token) now ∷ [];
      }

  abbrev pub with_digest : String → Portal → List AppSession
  with_digest token db = select (λ r. str_eq r.token_hash (digest token)) db.app_sessions

  -- `use_session`: the account of a token. It raises if two rows have the token's digest.
  unfoldable pub use_session : String → ℕ → Exec Portal (Option User)
  use_session token now db =
      let used = (one_or_none (with_digest token db) >>= use_found now) db in
      if is_token token then used else (ok none, db)

  -- `close_session`
  unfoldable pub close_session : String → Portal → Portal
  close_session token db =
      if is_token token
      then with_sessions (delete (λ r. str_eq r.token_hash (digest token)) db.app_sessions) db
      else db

-- `close_all`
unfoldable pub close_sessions : User → Portal → Portal
close_sessions user db = with_sessions (delete (is_own user.id) db.app_sessions) db
