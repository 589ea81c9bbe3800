-- ===== src/Accounts/SignIn/Examples.antt =====
-- Tests and witnesses for signing in.
use vpn_infrastructure_showc.Base.{ℕ, ◌*◌, String, ◌≡◌, refl, false, none, [], ◌∷◌, str_eq}
use vpn_infrastructure_showc.PyText.{lower}
use vpn_infrastructure_showc.Exec.{ok, err, http}
use vpn_infrastructure_showc.Sample.{customer, portal}
use vpn_infrastructure_showc.RateLimit
use vpn_infrastructure_showc.RateLimit.{add, sweep_if_due}
use vpn_infrastructure_showc.Accounts.{
  Visit, Server, limiter, take_try, check, passed, count_attempt,
}
use vpn_infrastructure_showc.Accounts.SignIn.{
  create_token, LoginRequest, SignInSettings, login_user, login_found, login_admitted, login,
}
use vpn_infrastructure_showc.Accounts.SignIn.Outcome.{LoginOutcome, login-Outcome}

abbrev settings : SignInSettings
settings = record {
  admin_username = "admin";
  admin_password_hash = "secret";
  admin_minutes = 120;
  digest = λ s. s;
  verify_password = str_eq;
}

abbrev visit : ℕ → Visit
visit now = record { ip = "192.0.2.9"; now = now; clock = now * 1000000; drawn = "tok" }

abbrev server : Server
server = record { db = record (portal []) { users = customer 1 2000 ∷ [] }; limits = limiter }

abbrev request : String → String → LoginRequest
request name password = record { username = name; password = password; refresh = false }

wrong_password :
    (login settings (visit 5) (request "ALICE" "guess") server).0
    ≡ err (http 401 "Invalid credentials")
unfolding login take_try check passed limiter RateLimit.take RateLimit.retry_after RateLimit.prune
    RateLimit.prune_found RateLimit.wait_for RateLimit.take_if_free RateLimit.keep
    RateLimit.pop_expired RateLimit.new add sweep_if_due login_admitted login_found login_user
    count_attempt lower
wrong_password = refl

admitted :
    (login settings (visit 5) (request "ALICE" "") server).0
    ≡ ok (record {
      access_token = record { sub = "alice"; role = "client"; exp = 86405 };
      refresh_token = none;
    })
unfolding login take_try check passed limiter RateLimit.take RateLimit.retry_after RateLimit.prune
    RateLimit.prune_found RateLimit.wait_for RateLimit.take_if_free RateLimit.keep
    RateLimit.pop_expired RateLimit.new add sweep_if_due login_admitted login_found login_user
    count_attempt lower create_token
admitted = refl

login-Outcome_example :
    LoginOutcome settings
      (visit 5)
      (request "alice" "")
      server.db
      (login settings (visit 5) (request "alice" "") server)
login-Outcome_example = login-Outcome settings (visit 5) (request "alice" "") server
