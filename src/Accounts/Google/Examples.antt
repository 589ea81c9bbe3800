-- ===== src/Accounts/Google/Examples.antt =====
-- Tests for signing in with Google; the digest and the hash are the identity.
use vpn_infrastructure_showc.Base.{
  String, ◌≡◌, refl, true, false, none, some, [], ◌∷◌, str_eq, map, Option,
}
use vpn_infrastructure_showc.PyText.{strip, lower}
use vpn_infrastructure_showc.Model.{User, save_user}
use vpn_infrastructure_showc.Exec.{err, http}
use vpn_infrastructure_showc.Sample.{customer, portal}
use vpn_infrastructure_showc.Accounts.{Visit, Server, limiter}
use vpn_infrastructure_showc.Accounts.SignIn.{SignInSettings}
use vpn_infrastructure_showc.Accounts.Google.{
  GoogleClaims, GoogleIn, accepted, verify_id_token, known_account, by_address, answer_for,
  signed_in, sign_in_with,
}

abbrev settings : SignInSettings
settings = record {
  admin_username = "admin";
  admin_password_hash = "";
  admin_minutes = 120;
  digest = λ s. s;
  verify_password = str_eq;
}

abbrev visit : Visit
visit = record { ip = "192.0.2.9"; now = 5; clock = 5; drawn = "tok" }

abbrev server : User → Server
server user = record { db = record (portal []) { users = user ∷ [] }; limits = limiter }

abbrev claims : GoogleClaims
claims = record {
  iss = "accounts.google.com";
  sub = "g-1";
  email = "Alice@Example.com";
  email_verified = true;
}

abbrev body : GoogleIn
body = record { credential = "jwt"; remember = false; username = ""; ref = none }

unverified : verify_id_token "jwt" (some (record claims { email_verified = false })) ≡ none
unfolding verify_id_token accepted
unverified = refl

-- the confirmed address takes the key, and the account signs in
takes_key :
    map {B = Option String}
      (λ u. u.google_sub)
      (sign_in_with settings
        (λ p. p)
        visit
        body
        (some claims)
        (server (customer 1 2000))).1.db.users
    ≡ some "g-1" ∷ []
unfolding sign_in_with known_account by_address answer_for signed_in save_user strip lower
takes_key = refl

unconfirmed :
    (sign_in_with settings
      (λ p. p)
      visit
      body
      (some claims)
      (server (record (customer 1 2000) { email_verified_at = none }))).0
    ≡ err (http 409 "email_unconfirmed")
unfolding sign_in_with known_account by_address answer_for signed_in save_user strip lower
unconfirmed = refl
