-- ===== src/Accounts/Joining.antt =====
-- The three ways to get an account, on the site, with Google and from Telegram, keep the accounts
-- apart.
mod Saving
mod WithGoogle
mod InTelegram
mod Examples
use vpn_infrastructure_showc.Base.{ℕ, String, Bool, Option}
use vpn_infrastructure_showc.Accounts.{Visit, Server}
use vpn_infrastructure_showc.Accounts.SignIn.{SignInSettings}
use vpn_infrastructure_showc.Accounts.Register.{RegisterRequest, register}
use vpn_infrastructure_showc.Accounts.Register.Consistent.{IsConsistent}
use vpn_infrastructure_showc.Accounts.Register.Distinct.{register-IsConsistent}
use vpn_infrastructure_showc.Accounts.Telegram.{TgRegister, tg_register}
use vpn_infrastructure_showc.Accounts.Google.{GoogleIn, GoogleClaims, google_sign_in}
use vpn_infrastructure_showc.Accounts.Joining.WithGoogle.{google_sign_in-IsConsistent}
use vpn_infrastructure_showc.Accounts.Joining.InTelegram.{tg_register-IsConsistent}

module _ (set : SignInSettings) (hash_password : String → String) where
  -- One attempt to get an account, or to sign in with Google, whatever it answers.
  pub data Joins : Server → Server → Type 0 where
    on_site :
        (s : Server) (v : Visit) (req : RegisterRequest)
        → Joins s (register set.digest hash_password set.admin_username v req s).1
    with_google :
        (s : Server) (v : Visit) (enabled : Bool) (body : GoogleIn) (decoded : Option GoogleClaims)
        → Joins s (google_sign_in set hash_password v enabled body decoded s).1
    in_telegram :
        (s : Server) (v : Visit) (enabled : Bool) (req : TgRegister) (chat : Option ℕ)
        → Joins s (tg_register hash_password set.admin_minutes v enabled req chat s).1

  pub data JoinsReach (start : Server) : Server → Type 0 where
    stay : JoinsReach start start
    move : {s t : Server} → JoinsReach start s → Joins s t → JoinsReach start t

  Joins-IsConsistent : {s t : Server} → Joins s t → IsConsistent s.db → IsConsistent t.db
  Joins-IsConsistent (on_site s v req) h =
      register-IsConsistent set.digest hash_password set.admin_username v req s h
  Joins-IsConsistent (with_google s v enabled body decoded) h =
      google_sign_in-IsConsistent set hash_password v body enabled decoded s h
  Joins-IsConsistent (in_telegram s v enabled req chat) h =
      tg_register-IsConsistent hash_password set.admin_minutes v req enabled chat s h

  -- However people register on the site, come with Google and begin in Telegram, in any order and
  -- whatever the answers, no two accounts come to share a key, a chat, a name or an address,
  -- whatever the case of the letters, and every key was given out, if that was so at the start.
  pub JoinsReach-IsConsistent :
      {start s : Server} → IsConsistent start.db → JoinsReach start s → IsConsistent s.db
  JoinsReach-IsConsistent h stay = h
  JoinsReach-IsConsistent h (move r t) = Joins-IsConsistent t (JoinsReach-IsConsistent h r)
