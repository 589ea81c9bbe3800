-- ===== src/Accounts/Register/Examples.antt =====
-- Tests and witnesses for registration; the digest and the hash are the identity.
use vpn_infrastructure_showc.Base.{
  ℕ, ◌*◌, String, ◌≡◌, refl, true, none, [], ◌∷◌, arith, str_eq, eq_iff,
}
use vpn_infrastructure_showc.PyText.{lower}
use vpn_infrastructure_showc.Model.{User}
use vpn_infrastructure_showc.Exec.{Result, ok, err, http}
use vpn_infrastructure_showc.Credit.Codes.{resolve_code}
use vpn_infrastructure_showc.Sample.{customer, portal}
use vpn_infrastructure_showc.RateLimit
use vpn_infrastructure_showc.RateLimit.{add, sweep_if_due}
use vpn_infrastructure_showc.Accounts.{Visit, Server, limiter, take_try, passed}
use vpn_infrastructure_showc.Accounts.Letters.{issue_token}
use vpn_infrastructure_showc.Accounts.SignIn.{SignInSettings, login}
use vpn_infrastructure_showc.Accounts.Register.{
  RegisterRequest, all_name_chars, reserved, is_valid, new_user, create, register_email,
  register_name, register,
}
use vpn_infrastructure_showc.Accounts.Register.Consistent.{IsConsistent}
use vpn_infrastructure_showc.Accounts.Register.Login.{SignsIn, login-register}

abbrev id : String → String
id s = s

abbrev visit : ℕ → Visit
visit now = record { ip = "192.0.2.9"; now = now; clock = now * 1000000; drawn = "tok" }

abbrev server : Server
server = record { db = record (portal []) { users = customer 1 2000 ∷ [] }; limits = limiter }

abbrev request : String → String → RegisterRequest
request name email = record {
  username = name;
  email = email;
  password = "long enough";
  lang = "fr";
  ref = none;
}

abbrev settings : SignInSettings
settings = record {
  admin_username = "admin";
  admin_password_hash = "secret";
  admin_minutes = 120;
  digest = id;
  verify_password = str_eq;
}

abbrev registered : String → String → Result User × Server
registered name email = register id id "admin" (visit 5) (request name email) server

taken_name : (registered "Alice" "new@example.com").0 ≡ err (http 409 "Username already exists")
unfolding register take_try passed limiter RateLimit.take RateLimit.retry_after RateLimit.prune
    RateLimit.prune_found RateLimit.wait_for RateLimit.take_if_free RateLimit.keep
    RateLimit.pop_expired RateLimit.new add sweep_if_due is_valid all_name_chars reserved lower
    register_name
taken_name = refl

taken_email : (registered "Bob" "ALICE@example.com").0 ≡ err (http 409 "Email already registered")
unfolding register take_try passed limiter RateLimit.take RateLimit.retry_after RateLimit.prune
    RateLimit.prune_found RateLimit.wait_for RateLimit.take_if_free RateLimit.keep
    RateLimit.pop_expired RateLimit.new add sweep_if_due is_valid all_name_chars reserved lower
    register_name register_email
taken_email = refl

operator : (registered "Root" "new@example.com").0 ≡ err (http 422 "Unprocessable Entity")
unfolding register is_valid all_name_chars reserved lower
operator = refl

abbrev bob : User
bob = record (new_user id id "admin" (visit 5) (request "Bob" "Bob@example.com") 100) {
  referred_code = none;
}

made : registered "Bob" "Bob@example.com" ≡ (ok bob, (registered "Bob" "Bob@example.com").1)
unfolding register take_try passed limiter RateLimit.take RateLimit.retry_after RateLimit.prune
    RateLimit.prune_found RateLimit.wait_for RateLimit.take_if_free RateLimit.keep
    RateLimit.pop_expired RateLimit.new add sweep_if_due is_valid all_name_chars reserved lower
    register_name register_email create new_user issue_token resolve_code
made = refl

one_account : IsConsistent server.db
one_account = record {
  tied = record {
    ids = λ key. ground arith;
    chats = λ chat. ground arith;
    given = (omega arith, tt);
  };
  names = λ name. ground arith;
  emails = λ address. ground arith;
}

login-register_example :
    SignsIn "Bob"
      (login settings
        (visit 9)
        (record { username = "BOB"; password = "long enough"; refresh = true })
        (registered "Bob" "Bob@example.com").1).0
unfolding new_user issue_token lower
login-register_example =
    login-register settings id (visit 5) (request "Bob" "Bob@example.com") server
      (registered "Bob" "Bob@example.com").1 bob (visit 9) "BOB" true one_account
      (λ p. (eq_iff p p).1 refl) made refl refl
