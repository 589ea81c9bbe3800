-- ===== src/Accounts/Sessions/Examples.antt =====
-- Tests and witnesses for the long-lived sign-in; the digest is the identity.
use vpn_infrastructure_showc.Base.{
  ◌+◌, ℕ, String, ◌≡◌, refl, some, [], ◌∷◌, arith, length, sort_desc, insert_desc,
}
use vpn_infrastructure_showc.Model.{AppSession, days, Portal}
use vpn_infrastructure_showc.Exec.{ok}
use vpn_infrastructure_showc.Sample.{customer, portal}
use vpn_infrastructure_showc.Accounts.Sessions.{
  new_session, open_session, with_digest, use_session, close_session, stale_of, drop_stale,
  drop_expired, with_sessions,
}
use vpn_infrastructure_showc.Accounts.Sessions.Bounded.{
  IsBounded, here, next, opens, uses, closes, SignsReach-IsBounded,
}
use vpn_infrastructure_showc.Accounts.Sessions.Usable.{use_session-open_session}

abbrev id : String → String
id s = s

abbrev opened : ℕ → Portal → Portal
opened n db = open_session id (customer 1 2000) "tok" n db

eleven_kept_ten :
    length
      (opened 11 (
        opened 10 (
          opened 9 (
            opened 8 (
              opened 7 (
                opened 6 (
                  opened 5
                    (opened 4 (opened 3 (opened 2 (opened 1 (portal [])))))))))))).app_sessions
    ≡ 10
unfolding open_session new_session drop_stale drop_expired stale_of sort_desc insert_desc
eleven_kept_ten = refl

signed_out : length (close_session id "tok" (opened 1 (portal []))).app_sessions ≡ 0
unfolding open_session new_session drop_stale drop_expired stale_of sort_desc insert_desc
    close_session with_sessions
signed_out = refl

SignsReach-IsBounded_example :
    IsBounded (close_session id "tok" (use_session id "tok" 5 (opened 1 (portal []))).1)
SignsReach-IsBounded_example =
    SignsReach-IsBounded id {start = portal []} (λ uid. omega arith)
      (next
        (next (next here (opens (portal []) (customer 1 2000) "tok" 1))
          (uses (opened 1 (portal [])) "tok" 5))
        (closes (use_session id "tok" 5 (opened 1 (portal []))).1 "tok"))

use_session-open_session_example :
    let (answer, after) = use_session id "tok" 5 (opened 1 (portal [])) in
    (answer ≡ ok (some (customer 1 2000)))
    × (r : AppSession) × (with_digest id "tok" after ≡ r ∷ [])
    × (r.user_id ≡ 1)
    × (r.last_used_at ≡ 5)
    × (r.expires_at ≡ 5 + days 90)
use_session-open_session_example =
    use_session-open_session id (customer 1 2000) "tok" 1 (portal []) refl 5 refl refl refl
      (omega arith)
