-- ===== src/Accounts/Joining/Examples.antt =====
-- Beside Alice, Carol begins in Telegram, and Dave comes with Google.
use vpn_infrastructure_showc.Base.{String, true, none, some, [], ◌∷◌, arith, str_eq}
use vpn_infrastructure_showc.Sample.{customer, portal}
use vpn_infrastructure_showc.Accounts.{Visit, Server, limiter}
use vpn_infrastructure_showc.Accounts.SignIn.{SignInSettings}
use vpn_infrastructure_showc.Accounts.Register.Consistent.{IsConsistent}
use vpn_infrastructure_showc.Accounts.Telegram.{tg_register}
use vpn_infrastructure_showc.Accounts.Google.{GoogleIn, GoogleClaims, google_sign_in}
use vpn_infrastructure_showc.Accounts.Joining.{
  stay, move, with_google, in_telegram, JoinsReach-IsConsistent,
}

abbrev id : String → String
id s = s

abbrev settings : SignInSettings
settings = record {
  admin_username = "admin";
  admin_password_hash = "";
  admin_minutes = 120;
  digest = id;
  verify_password = str_eq;
}

abbrev visit : Visit
visit = record { ip = "192.0.2.9"; now = 5; clock = 5; drawn = "tok" }

abbrev server : Server
server = record { db = record (portal []) { users = customer 1 2000 ∷ [] }; limits = limiter }

alice_alone : IsConsistent server.db
alice_alone = record {
  tied = record {
    ids = λ key. ground arith;
    chats = λ chat. ground arith;
    given = (omega arith, tt);
  };
  names = λ name. ground arith;
  emails = λ address. ground arith;
}

abbrev begun : Server
begun =
    (tg_register id 120 visit true (record { username = "carol"; ref = none }) (some 77) server).1

abbrev body : GoogleIn
body = record { credential = "jwt"; remember = true; username = "dave"; ref = none }

abbrev claims : GoogleClaims
claims = record {
  iss = "accounts.google.com";
  sub = "g-1";
  email = "Dave@example.com";
  email_verified = true;
}

JoinsReach-IsConsistent_example :
    IsConsistent (google_sign_in settings id visit true body (some claims) begun).1.db
JoinsReach-IsConsistent_example = JoinsReach-IsConsistent settings id alice_alone (
    move
      (move stay
        (in_telegram server visit true (record { username = "carol"; ref = none }) (some 77)))
      (with_google begun visit true body (some claims)))
