-- ===== src/Accounts/Register/Consistent.antt =====
-- Accounts that share no key, no chat, no name and no address, and a row more.
use vpn_infrastructure_showc.Base.{
  ℕ, suc, ◌≤◌, ◌<◌, String, ◌≡◌, true, List, [], ◌∷◌, ◌++◌, arith, ◌==◌, ==_iff, count, update, All,
}
use vpn_infrastructure_showc.Model.{User, Portal}
use vpn_infrastructure_showc.Accounts.{has_email, has_name}
use vpn_infrastructure_showc.Accounts.Telegram.{has_chat}
use vpn_infrastructure_showc.Accounts.Telegram.Counting.{count-fresh}
use vpn_infrastructure_showc.Accounts.Telegram.Chats.{IsTied, append-IsTied}
use vpn_infrastructure_showc.Accounts.Letters.Quiet.{HasDistinctEmails}

-- The accounts' table: every key was given out once, and no chat, name or address is that of two
-- rows.
pub record IsConsistent (db : Portal) : Type 0 where
  pub tied : IsTied db
  pub names : (name : String) → count (has_name name) db.users ≤ 1
  pub emails : HasDistinctEmails db

-- a write of the row that was just added
pub update-last :
    (key : ℕ) (u first : User) (users : List User)
    → All (λ (r : User). r.id < key) users
    → first.id ≡ key
    → u.id ≡ key
    → update (λ r. r.id == u.id) (λ _. u) (users ++ first ∷ []) ≡ users ++ u ∷ []
update-last key u first [] h e k = ground (arith, e, k, ==_iff first.id u.id)
update-last key u first (x ∷ users) h e k =
    ground (arith, h.0, e, k, ==_iff x.id u.id, update-last key u first users h.1 e k)

-- a row more, with the next key, a new name, a new address and a new chat
pub append-IsConsistent :
    (db db' : Portal) (u : User)
    → db'.users ≡ db.users ++ u ∷ []
    → db'.next_id ≡ suc db.next_id
    → u.id ≡ db.next_id
    → IsConsistent db
    → ((chat : ℕ) → has_chat chat u ≡ true → count (has_chat chat) db.users ≡ 0)
    → ((name : String) → has_name name u ≡ true → count (has_name name) db.users ≡ 0)
    → ((address : String) → has_email address u ≡ true → count (has_email address) db.users ≡ 0)
    → IsConsistent db'
append-IsConsistent db db' u users next key h new_chat new_name new_email = record {
  tied = append-IsTied db db' u users next key new_chat h.tied;
  names = λ name. rw users (count-fresh (has_name name) db.users u (h.names name) (new_name name));
  emails = λ address.
      rw users (count-fresh (has_email address) db.users u (h.emails address) (new_email address));
}
