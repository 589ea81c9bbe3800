-- ===== src/Accounts/Joining/Saving.antt =====
-- Writing over an account, and opening a session, keeps the accounts apart.
use vpn_infrastructure_showc.Base.{
  ℕ, ◌<◌, String, ◌≡◌, ap, Bool, true, [], ◌∷◌, arith, ◌==◌, ==_self, str_eq, holds, select,
  All-map,
}
use vpn_infrastructure_showc.PyText.{lower}
use vpn_infrastructure_showc.Model.{User, Portal, save_user}
use vpn_infrastructure_showc.Accounts.{has_email, has_name}
use vpn_infrastructure_showc.Accounts.Sessions.{open_session}
use vpn_infrastructure_showc.Accounts.Register.Consistent.{IsConsistent}
use vpn_infrastructure_showc.Accounts.Telegram.Counting.{count-keep}
use vpn_infrastructure_showc.Accounts.Telegram.Chats.{keep-IsTied}

-- a row written over by one of the same key, name, address and chat
pub save-IsConsistent :
    (r : User → Bool) (user u : User) (db : Portal)
    → select r db.users ≡ user ∷ []
    → u.id ≡ user.id
    → u.username ≡ user.username
    → u.email ≡ user.email
    → u.telegram_id ≡ user.telegram_id
    → IsConsistent db
    → IsConsistent (save_user u db)
unfolding save_user
save-IsConsistent r user u db one same_id same_name same_email same_chat h = record {
  tied = keep-IsTied r user u db one same_id same_chat h.tied;
  names = λ name.
      count-keep (has_name name) (λ x. x.id == u.id) u r db.users user one
        (ap (λ n. str_eq (lower n) name) same_name) own (h.tied.ids u.id) (h.names name);
  emails = λ address.
      count-keep (has_email address) (λ x. x.id == u.id) u r db.users user one
        (ap (λ e. holds (λ a. str_eq (lower a) address) e) same_email) own (h.tied.ids u.id)
        (h.emails address);
}
  where
    own : (user.id == u.id) ≡ true
    own = rw same_id (==_self user.id)

pub open_session-IsConsistent :
    (digest : String → String) (user : User) (token : String) (now : ℕ) (db : Portal)
    → IsConsistent db
    → IsConsistent (open_session digest user token now db)
unfolding open_session
open_session-IsConsistent digest user token now db h = record {
  tied = record {
    ids = h.tied.ids;
    chats = h.tied.chats;
    given =
        All-map (λ (r : User). r.id < db.next_id) _ (λ r lt. omega (arith, lt)) db.users
          h.tied.given;
  };
  names = h.names;
  emails = h.emails;
}
