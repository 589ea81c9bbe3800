-- ===== src/Accounts/SignIn.antt =====
-- pwa/api/auth.py and pwa/auth/jwt.py: signing in, the access token and the long-lived one. The
-- signing of a token is the library's; what a token says is a record.
pub mod Outcome
mod Examples
use Prim.Native.String.{◌++◌}
use vpn_infrastructure_showc.Base.{
  ℕ, ◌+◌, ◌*◌, String, Bool, Option, none, some, str_eq, not, if◌then◌else◌,
}
use vpn_infrastructure_showc.PyText.{lower}
use vpn_infrastructure_showc.Model.{User}
use vpn_infrastructure_showc.Exec.{Exec, ok, err, http, ◌>>=◌}
use vpn_infrastructure_showc.Accounts.{
  Visit, Server, login_per_ip, login_fails, take_try, check, count_attempt, with_db, has_name,
}
use vpn_infrastructure_showc.Accounts.Sessions.{open_session, use_session, close_session}
use vpn_infrastructure_showc.Accounts.Letters.{query}

-- what a signed token says: who, in which role, and until when
pub record Claims : Type 0 where
  pub sub : String
  pub role : String
  pub exp : ℕ

abbrev pub access_token_expire_minutes : ℕ
access_token_expire_minutes = 60 * 24

-- `create_token`, with ADMIN_TOKEN_EXPIRE_MINUTES
unfoldable pub create_token : ℕ → String → String → ℕ → Claims
create_token admin_minutes sub role now = record {
  sub = sub;
  role = role;
  exp = now + (if str_eq role "admin" then admin_minutes else access_token_expire_minutes) * 60;
}

-- `require_admin`, on what the token says
unfoldable pub require_admin : {S : Type 0} → Claims → Exec S Claims
require_admin claims s =
    if str_eq claims.role "admin"
    then (ok claims, s)
    else (err (http 403 "Admin privileges required"), s)

pub record LoginRequest : Type 0 where
  pub username : String
  pub password : String
  pub refresh : Bool

-- `TokenResponse`: the token, whose role is the answer's, and the long-lived one
pub record TokenResponse : Type 0 where
  pub access_token : Claims
  pub refresh_token : Option String

-- the settings of the process, SHA-256, and argon2's check of a password against a hash
pub record SignInSettings : Type 0 where
  pub admin_username : String
  pub admin_password_hash : String
  pub admin_minutes : ℕ
  pub digest : String → String
  pub verify_password : String → String → Bool

-- `f"{ip}|{req.username.lower()}"`
abbrev pub fail_key : Visit → LoginRequest → String
fail_key v req = v.ip ++ "|" ++ lower req.username

module _ (set : SignInSettings) (v : Visit) where
  -- `refuse`: the failure counts
  abbrev pub refuse : LoginRequest → Exec Server TokenResponse
  refuse req s =
      (err (http 401 "Invalid credentials"), count_attempt login_fails (fail_key v req) v s)

  unfoldable pub login_admin : LoginRequest → Exec Server TokenResponse
  login_admin req s =
      if not (set.verify_password req.password set.admin_password_hash) then refuse req s else (
        ok (record {
          access_token = create_token set.admin_minutes req.username "admin" v.now;
          refresh_token = none;
        }),
        s,
      )

  -- the token carries the stored spelling
  unfoldable pub login_user : LoginRequest → User → Exec Server TokenResponse
  login_user req user s =
      let token = create_token set.admin_minutes user.username "client" v.now in
      if not (set.verify_password req.password user.password_hash)
      then refuse req s
      else if not user.is_active
      then (err (http 403 "Account disabled"), s)
      else if req.refresh
      then (
        ok (record { access_token = token; refresh_token = some v.drawn }),
        with_db (open_session set.digest user v.drawn v.now s.db) s,
      )
      else (ok (record { access_token = token; refresh_token = none }), s)

  unfoldable pub login_found : LoginRequest → Option User → Exec Server TokenResponse
  login_found req none s = refuse req s
  login_found req (some user) s = login_user req user s

  unfoldable pub login_admitted : LoginRequest → Exec Server TokenResponse
  login_admitted req s =
      let client = (query (has_name (lower req.username)) >>= login_found req) s in
      if str_eq req.username set.admin_username then login_admin req s else client

  -- `login`
  unfoldable pub login : LoginRequest → Exec Server TokenResponse
  login req = take_try login_per_ip v.ip v >>= λ _.
      check login_fails (fail_key v req) v >>= λ _. login_admitted req

  -- what `use_session` did is committed before the refusal
  unfoldable pub refreshed : Option User → Exec Server TokenResponse
  refreshed none s = (err (http 401 "Invalid or expired token"), s)
  refreshed (some user) s = (
    ok (record {
      access_token = create_token set.admin_minutes user.username "client" v.now;
      refresh_token = none;
    }),
    s,
  )

  unfoldable pub used : String → Exec Server (Option User)
  used token s = let (user, db) = use_session set.digest token v.now s.db in (user, with_db db s)

  -- `refresh`
  unfoldable pub refresh : String → Exec Server TokenResponse
  refresh token = take_try login_per_ip v.ip v >>= λ _. used token >>= refreshed

  -- `logout`
  unfoldable pub logout : String → Server → Server
  logout token s = with_db (close_session set.digest token s.db) s
