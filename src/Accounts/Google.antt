-- ===== src/Accounts/Google.antt =====
-- pwa/api/google_auth.py: signing in with Google. The signature and the audience of a token are
-- checked by a library; what it says, or nothing, is an argument.
mod Examples
use Prim.Native.String
use vpn_infrastructure_showc.Base.{
  suc, String, Bool, true, false, not, ◌||◌, Option, none, some, [], ◌∷◌, ◌++◌, leb, str_eq, holds,
  any, is_none, if◌then◌else◌,
}
use vpn_infrastructure_showc.PyText.{lower, strip}
use vpn_infrastructure_showc.Model.{User, Portal, save_user}
use vpn_infrastructure_showc.Exec.{Exec, ok, err, http, ◌>>=◌}
use vpn_infrastructure_showc.Accounts.{
  Visit, Server, login_per_ip, register_per_ip, take_try, with_db, has_name, has_email,
}
use vpn_infrastructure_showc.Accounts.Sessions.{open_session}
use vpn_infrastructure_showc.Accounts.Letters.{query}
use vpn_infrastructure_showc.Accounts.SignIn.{SignInSettings, TokenResponse, create_token}
use vpn_infrastructure_showc.Accounts.Register.{username_matches, referred_by}

-- the claims of a token whose signature is Google's
pub record GoogleClaims : Type 0 where
  pub iss : String
  pub sub : String
  pub email : String
  pub email_verified : Bool

-- the tests of `verify_id_token` on the claims
unfoldable pub accepted : GoogleClaims → Option GoogleClaims
accepted c =
    if not (str_eq c.iss "accounts.google.com" || str_eq c.iss "https://accounts.google.com")
      || str_eq c.sub ""
    then none
    else if str_eq c.email "" || not c.email_verified
    then none
    else some c

-- `verify_id_token`; the decoded token is none if the library refused it
unfoldable pub verify_id_token : String → Option GoogleClaims → Option GoogleClaims
verify_id_token credential none = none
verify_id_token credential (some c) =
    if str_eq credential "" || not (leb (String.len credential) 4096) then none else accepted c

pub record GoogleIn : Type 0 where
  pub credential : String
  pub remember : Bool
  pub username : String
  pub ref : Option String

abbrev pub has_sub : String → User → Bool
has_sub sub u = holds (λ s. str_eq s sub) u.google_sub

-- the account behind a sign-in: the one with the key, or the one with the confirmed address, which
-- gets the key
unfoldable pub by_address : String → Option User → Exec Server (Option User)
by_address sub none s = (ok none, s)
by_address sub (some same) s =
    if is_none same.email_verified_at
    then (err (http 409 "email_unconfirmed"), s)
    else if is_none same.google_sub
    then (ok (some (record same { google_sub = some sub })), s)
    else (ok (some same), s)

unfoldable pub known_account : String → String → Option User → Exec Server (Option User)
known_account sub email none s = (query (has_email email) >>= by_address sub) s
known_account sub email (some user) s = (ok (some user), s)

module _ (set : SignInSettings) (hash_password : String → String) (v : Visit) where
  -- `_signed_in`: the row, its session if it is to be remembered, and the commit
  unfoldable pub signed_in : User → Bool → Exec Server TokenResponse
  signed_in user remember s =
      let token = create_token set.admin_minutes user.username "client" v.now in
      let db = save_user user s.db in
      if remember
      then (
        ok (record { access_token = token; refresh_token = some v.drawn }),
        with_db (open_session set.digest user v.drawn v.now db) s,
      )
      else (ok (record { access_token = token; refresh_token = none }), with_db db s)

  unfoldable pub new_google_user : String → String → String → Option String → Portal → User
  new_google_user name email sub ref db = record {
    id = db.next_id;
    username = name;
    email = some email;
    password_hash = hash_password v.drawn;
    is_active = true;
    is_subscribed = false;
    peer_ip = none;
    plan = none;
    created_at = v.now;
    subscribed_until = none;
    reset_token = none;
    reset_expires = none;
    email_verified_at = some v.now;
    email_verify_token = none;
    email_verify_expires = none;
    lang = "ru";
    trial_until = none;
    referred_code = referred_by ref v.now db;
    telegram_id = none;
    google_sub = some sub;
    telegram_link_hash = none;
    telegram_link_expires = none;
  }

  unfoldable pub create_named : GoogleIn → String → String → String → Exec Server TokenResponse
  create_named body sub email name s =
      let user = new_google_user name email sub body.ref s.db in
      let created =
        signed_in user body.remember (
          with_db (record s.db { next_id = suc s.db.next_id; users = s.db.users ++ user ∷ [] })
            s) in
      if not (username_matches name)
      then (err (http 422 "bad_username"), s)
      else if any (has_name (lower name)) s.db.users
      then (err (http 409 "username_taken"), s)
      else created

  -- someone new chooses a name first
  unfoldable pub someone_new : GoogleIn → String → String → Exec Server TokenResponse
  someone_new body sub email s =
      let created =
        (take_try register_per_ip v.ip v >>= λ _. create_named body sub email (strip body.username))
          s in
      if str_eq body.username "" then (err (http 404 "need_username"), s) else created

  unfoldable pub answer_for : GoogleIn → String → String → Option User → Exec Server TokenResponse
  answer_for body sub email none s = someone_new body sub email s
  answer_for body sub email (some user) s =
      if user.is_active
      then signed_in user body.remember s
      else (err (http 403 "Account disabled"), s)

  unfoldable pub sign_in_with : GoogleIn → Option GoogleClaims → Exec Server TokenResponse
  sign_in_with body none s = (err (http 401 "bad_google_token"), s)
  sign_in_with body (some c) s =
      let email = lower (strip c.email) in
      (query (has_sub c.sub) >>= known_account c.sub email >>= answer_for body c.sub email) s

  -- `google_sign_in`
  unfoldable pub google_sign_in : Bool → GoogleIn → Option GoogleClaims → Exec Server TokenResponse
  google_sign_in enabled body decoded = take_try login_per_ip v.ip v >>= λ _ s.
      if enabled
      then sign_in_with body (verify_id_token body.credential decoded) s
      else (err (http 503 "google_off"), s)
