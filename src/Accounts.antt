-- ===== src/Accounts.antt =====
-- Accounts: signing in and staying signed in, the tokens in letters, and registration. What their
-- endpoints share: the limiters of pwa/services/ratelimit.py, a request, and the accounts' table.
pub mod Writes
pub mod Sessions
pub mod Letters
pub mod SignIn
pub mod Register
pub mod Telegram
pub mod Google
pub mod Joining
use Prim.Native.String
use vpn_infrastructure_showc.Base.{
  ℕ, ◌*◌, String, Bool, true, false, Option, none, some, [], ◌∷◌, ◌++◌, ◌==◌, str_eq, holds,
  if◌then◌else◌,
}
use vpn_infrastructure_showc.PyText.{lower}
use vpn_infrastructure_showc.Model.{User, letter, Portal}
use vpn_infrastructure_showc.Exec.{Exec, ok, err, http}
use vpn_infrastructure_showc.RateLimit.{Limiter, new}
use vpn_infrastructure_showc.RateLimit

-- the limiters by name
pub data Door : Type 0 where
  login_per_ip login_fails register_per_ip forgot_per_ip forgot_per_email reset_per_ip : Door
  verify_per_ip verify_resend verify_resend_per_ip trial_per_ip : Door

abbrev pub number : Door → ℕ
number login_per_ip = 0
number login_fails = 1
number register_per_ip = 2
number forgot_per_ip = 3
number forgot_per_email = 4
number reset_per_ip = 5
number verify_per_ip = 6
number verify_resend = 7
number verify_resend_per_ip = 8
number trial_per_ip = 9

-- the limiters as the process starts
unfoldable pub limiter : Door → Limiter
limiter login_per_ip = new 30 (15 * 60)
limiter login_fails = new 10 (15 * 60)
limiter register_per_ip = new 5 (60 * 60)
limiter forgot_per_ip = new 5 (60 * 60)
limiter forgot_per_email = new 3 (60 * 60)
limiter reset_per_ip = new 10 (60 * 60)
limiter verify_per_ip = new 20 (60 * 60)
limiter verify_resend = new 3 (60 * 60)
limiter verify_resend_per_ip = new 10 (60 * 60)
limiter trial_per_ip = new 3 (24 * 60 * 60)

-- where a request comes from, the moment in seconds, the monotonic clock in microseconds, and the
-- text that `token_urlsafe` draws
pub record Visit : Type 0 where
  pub ip : String
  pub now : ℕ
  pub clock : ℕ
  pub drawn : String

-- The state of the endpoints of an account. They commit what they wrote before they answer or
-- raise, so the tables are the committed ones.
pub record Server : Type 0 where
  pub db : Portal
  pub limits : Door → Limiter

abbrev pub with_limit : Door → Limiter → Server → Server
with_limit door l s = record s { limits = λ d. if number d == number door then l else s.limits d }

unfoldable pub passed : Door → Bool × Limiter → Exec Server (Unit {0})
passed door (true, l) s = (ok tt, with_limit door l s)
passed door (false, l) s =
    (err (http 429 "Too many attempts, try again later"), with_limit door l s)

-- `ratelimit.take`
unfoldable pub take_try : Door → String → Visit → Exec Server (Unit {0})
take_try door key v s = passed door (RateLimit.take key v.clock (s.limits door)) s

abbrev pub is_free : Option ℕ → Bool
is_free none = true
is_free (some wait) = false

-- `ratelimit.check`
unfoldable pub check : Door → String → Visit → Exec Server (Unit {0})
check door key v s =
    let (wait, l) = RateLimit.retry_after key v.clock (s.limits door) in
    passed door (is_free wait, l) s

-- `limiter.add`
unfoldable pub count_attempt : Door → String → Visit → Server → Server
count_attempt door key v s = with_limit door (RateLimit.add key v.clock (s.limits door)) s

abbrev pub with_db : Portal → Server → Server
with_db db s = record s { db = db }

-- a letter handed to the mail service at once; a failure to send is only logged
abbrev pub send_now : Option String → String → Portal → Portal
send_now to kind db = record db { outbox = db.outbox ++ letter to kind ∷ [] }

-- the rows with an address, or with a name, whatever their case
abbrev pub has_email : String → User → Bool
has_email address u = holds (λ e. str_eq (lower e) address) u.email

abbrev pub has_name : String → User → Bool
has_name name u = str_eq (lower u.username) name
