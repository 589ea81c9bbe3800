-- ===== src/Accounts/Letters.antt =====
-- pwa/api/password_reset.py and pwa/api/email_verify.py: the tokens that a letter carries.
pub mod Query
pub mod Once
pub mod Quiet
mod Examples
use Prim.Native.String
use vpn_infrastructure_showc.Base.{
  ℕ, ◌+◌, ◌*◌, String, Bool, true, false, Option, none, some, ltb, str_eq, holds, is_some, is_none,
  get_or_else, not, select, if◌then◌else◌,
}
use vpn_infrastructure_showc.PyText.{lower, decimal}
use vpn_infrastructure_showc.Model.{User, Portal, save_user}
use vpn_infrastructure_showc.Exec.{Exec, ok, err, http, ◌>>=◌}
use vpn_infrastructure_showc.Payments.{one_or_none}
use vpn_infrastructure_showc.Accounts.{
  Visit, Server, forgot_per_ip, forgot_per_email, reset_per_ip, verify_per_ip, verify_resend,
  verify_resend_per_ip, take_try, with_db, send_now, has_email,
}
use vpn_infrastructure_showc.Accounts.Sessions.{close_sessions}

abbrev pub reset_token_ttl : ℕ
reset_token_ttl = 3600

abbrev pub verify_token_ttl : ℕ
verify_token_ttl = 48 * 3600

-- the rows that a query gives, one at most
abbrev pub query : (User → Bool) → Exec Server (Option User)
query p s = one_or_none (select p s.db.users) s

abbrev pub no_reset : User → User
no_reset u = record u { reset_token = none; reset_expires = none }

-- `mark_verified`
unfoldable pub mark_verified : ℕ → User → User
mark_verified now u = record u {
  email_verified_at = some (get_or_else u.email_verified_at now);
  email_verify_token = none;
  email_verify_expires = none;
}

abbrev pub verified_if_new : ℕ → User → User
verified_if_new now u = if is_none u.email_verified_at then mark_verified now u else u

abbrev pub bad_link : Exec Server (Unit {0})
bad_link s = (err (http 400 "Invalid or expired reset link"), s)

abbrev pub used_link : Exec Server (Unit {0})
used_link s = (err (http 400 "Invalid or used confirmation link"), s)

unfoldable pub verify_at : Visit → User → Option ℕ → Exec Server (Unit {0})
verify_at v u none s = used_link s
verify_at v u (some expires) s =
    if ltb expires v.now
    then (err (http 400 "Confirmation link has expired"), s)
    else (ok tt, with_db (save_user (mark_verified v.now u) s.db) s)

unfoldable pub verify_found : Visit → Option User → Exec Server (Unit {0})
verify_found v none s = used_link s
verify_found v (some u) s = verify_at v u u.email_verify_expires s

-- `digest` is SHA-256
module _ (digest : String → String) where
  -- the answer of `forgot_password`, the same in each case
  unfoldable pub send_reset : Visit → Option User → Exec Server (Unit {0})
  send_reset v none s = (ok tt, s)
  send_reset v (some u) s =
      let u' : User = record u {
        reset_token = some (digest v.drawn);
        reset_expires = some (v.now + reset_token_ttl);
      } in
      (ok tt, with_db (send_now u.email "reset" (save_user u' s.db)) s)

  -- `forgot_password`
  unfoldable pub forgot_password : String → Visit → Exec Server (Unit {0})
  forgot_password address v = take_try forgot_per_ip v.ip v >>= λ _.
      take_try forgot_per_email (lower address) v >>= λ _.
      query (has_email (lower address)) >>= send_reset v

  abbrev pub has_reset : String → User → Bool
  has_reset token u = holds (λ t. str_eq t (digest token)) u.reset_token

  -- `hash_password` is argon2, with the salt that it draws
  module _ (hash_password : String → String) where
    -- the new password, every session closed, the token gone and the address confirmed
    unfoldable pub reset_done : String → Visit → User → Portal → Portal
    reset_done password v u db =
        save_user
          (verified_if_new v.now (no_reset (record u { password_hash = hash_password password })))
          (close_sessions u db)

    unfoldable pub reset_at : String → Visit → User → Option ℕ → Exec Server (Unit {0})
    reset_at password v u none s = bad_link s
    reset_at password v u (some expires) s =
        if ltb expires v.now
        then bad_link (with_db (save_user (no_reset u) s.db) s)
        else (ok tt, with_db (reset_done password v u s.db) s)

    unfoldable pub reset_found : String → Visit → Option User → Exec Server (Unit {0})
    reset_found password v none s = bad_link s
    reset_found password v (some u) s = reset_at password v u u.reset_expires s

    unfoldable pub reset_long : String → String → Visit → Exec Server (Unit {0})
    reset_long token password v s =
        let reset = (query (has_reset token) >>= reset_found password v) s in
        if ltb (String.len password) 8
        then (err (http 400 "Password must be at least 8 characters"), s)
        else reset

    -- `reset_password`
    unfoldable pub reset_password : String → String → Visit → Exec Server (Unit {0})
    reset_password token password v =
        take_try reset_per_ip v.ip v >>= λ _. reset_long token password v

  -- `issue_token`
  unfoldable pub issue_token : Visit → User → User
  issue_token v u = record u {
    email_verify_token = some (digest v.drawn);
    email_verify_expires = some (v.now + verify_token_ttl);
  }

  abbrev pub has_verify : String → User → Bool
  has_verify token u = holds (λ t. str_eq t (digest token)) u.email_verify_token

  -- `verify_email`
  unfoldable pub verify_email : String → Visit → Exec Server (Unit {0})
  verify_email token v =
      take_try verify_per_ip v.ip v >>= λ _. query (has_verify token) >>= verify_found v

  -- a new token and its letter; whether the address was confirmed already
  unfoldable pub send_again : Visit → User → Exec Server Bool
  send_again v u s =
      (ok false, with_db (send_now u.email "verification" (save_user (issue_token v u) s.db)) s)

  unfoldable pub resend_to : Visit → Option User → Exec Server Bool
  resend_to v none s = (err (http 404 "User not found"), s)
  resend_to v (some u) s =
      let sent =
        (take_try verify_resend (decimal u.id) v >>= λ _.
        take_try verify_resend_per_ip v.ip v >>= λ _. send_again v u)
          s in
      if is_some u.email_verified_at
      then (ok true, s)
      else if not (holds (λ e. not (str_eq e "")) u.email)
      then (err (http 400 "no_email"), s)
      else sent

  -- `resend_verification`
  unfoldable pub resend_verification : String → Visit → Exec Server Bool
  resend_verification sub v = query (λ u. str_eq u.username sub) >>= resend_to v
