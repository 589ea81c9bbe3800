-- ===== src/Accounts/Letters/Examples.antt =====
-- Tests and witnesses for the tokens in letters; the digest and the hash are the identity.
use vpn_infrastructure_showc.Base.{ℕ, ◌*◌, String, ◌≡◌, refl, [], ◌∷◌, arith}
use vpn_infrastructure_showc.PyText.{lower}
use vpn_infrastructure_showc.Model.{Portal, save_user}
use vpn_infrastructure_showc.Exec.{Result, ok, err, http}
use vpn_infrastructure_showc.Sample.{customer, portal}
use vpn_infrastructure_showc.RateLimit
use vpn_infrastructure_showc.RateLimit.{add, sweep_if_due}
use vpn_infrastructure_showc.Accounts.{Visit, Server, limiter, take_try, passed}
use vpn_infrastructure_showc.Accounts.Letters.{
  send_reset, forgot_password, reset_at, reset_found, reset_long, reset_password,
}
use vpn_infrastructure_showc.Accounts.Letters.Once.{
  IsRefused, reset_password-once, SignedOut, reset_password-signs_out,
}
use vpn_infrastructure_showc.Accounts.Letters.Quiet.{SameAnswer, forgot_password-same}

abbrev id : String → String
id s = s

abbrev visit : ℕ → Visit
visit now = record { ip = "192.0.2.9"; now = now; clock = now * 1000000; drawn = "tok" }

abbrev server : Portal → Server
server db = record { db = db; limits = limiter }

-- one account
abbrev one : Portal
one = record (portal []) { users = customer 1 2000 ∷ [] }

-- the customer asked for a reset at 100
abbrev asked : Result (Unit {0}) × Server
asked = forgot_password id "Alice@example.com" (visit 100) (server one)

abbrev changed : Result (Unit {0}) × Server
changed = reset_password id id "tok" "new password" (visit 200) asked.1

went_through : changed.0 ≡ ok tt
unfolding forgot_password reset_password take_try passed limiter RateLimit.take
    RateLimit.retry_after RateLimit.prune RateLimit.prune_found RateLimit.wait_for
    RateLimit.take_if_free RateLimit.keep RateLimit.pop_expired RateLimit.new add sweep_if_due lower
    send_reset save_user reset_long reset_found reset_at
went_through = refl

late :
    (reset_password id id "tok" "new password" (visit 3701) asked.1).0
    ≡ err (http 400 "Invalid or expired reset link")
unfolding forgot_password reset_password take_try passed limiter RateLimit.take
    RateLimit.retry_after RateLimit.prune RateLimit.prune_found RateLimit.wait_for
    RateLimit.take_if_free RateLimit.keep RateLimit.pop_expired RateLimit.new add sweep_if_due lower
    send_reset save_user reset_long reset_found reset_at
late = refl

outcome : changed ≡ (ok tt, changed.1)
unfolding forgot_password reset_password take_try passed limiter RateLimit.take
    RateLimit.retry_after RateLimit.prune RateLimit.prune_found RateLimit.wait_for
    RateLimit.take_if_free RateLimit.keep RateLimit.pop_expired RateLimit.new add sweep_if_due lower
    send_reset save_user reset_long reset_found reset_at
outcome = refl

reset_password-once_example :
    IsRefused changed.1.db (reset_password id id "tok" "another one" (visit 300) changed.1)
reset_password-once_example =
    reset_password-once id id "tok" "new password" "another one" (visit 200) (visit 300) asked.1
      changed.1 outcome

reset_password-signs_out_example :
    SignedOut id id "tok" "new password" (visit 200) asked.1.db changed.1.db
reset_password-signs_out_example =
    reset_password-signs_out id id "tok" "new password" (visit 200) asked.1 changed.1 outcome

forgot_password-same_example :
    SameAnswer
      (forgot_password id "Alice@example.com" (visit 100) (server one))
      (forgot_password id "Alice@example.com" (visit 100) (server (record one { users = [] })))
forgot_password-same_example =
    forgot_password-same id (visit 100) "Alice@example.com" (server one)
      (server (record one { users = [] })) (λ address. ground arith) (λ address. omega arith) refl
