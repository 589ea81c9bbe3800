-- ===== src/Accounts/Telegram/Newcomers.antt =====
-- An account that begins in Telegram takes a chat that no account had.
use mathlib.Core.Path.{subst}
use vpn_infrastructure_showc.Base.{
  ℕ, String, ◌≡◌, refl, sym, Bool, true, false, Bool-cases, Option, none, some, [], ◌==◌, ==_iff,
  count, select, any, inl, inr,
}
use vpn_infrastructure_showc.PyText.{lower, strip}
use vpn_infrastructure_showc.Model.{Portal}
use vpn_infrastructure_showc.Accounts.{Visit, Server, register_per_ip, take_try, has_name}
use vpn_infrastructure_showc.Accounts.Letters.Query.{query-keep, then-keep}
use vpn_infrastructure_showc.Accounts.Writes.{take-db}
use vpn_infrastructure_showc.Accounts.Register.{username_matches}
use vpn_infrastructure_showc.Accounts.Telegram.Counting.{none-counted}
use vpn_infrastructure_showc.Accounts.Telegram.{
  TgRegister, has_chat, if_on, new_tg_user, tg_create, register_as, tg_register,
}
use vpn_infrastructure_showc.Accounts.Telegram.Chats.{IsTied, append-IsTied}

-- no account has the chat of the one to come
pub new_chat :
    (chat : ℕ) (db : Portal)
    → select (has_chat chat) db.users ≡ []
    → (c : ℕ) → (chat == c) ≡ true
    → count (has_chat c) db.users ≡ 0
new_chat chat db free c same =
    subst (λ n. count (has_chat n) db.users ≡ 0) ((==_iff chat c).0 same)
      (none-counted (has_chat chat) db.users free)

module _ (hash_password : String → String) (admin_minutes : ℕ) (v : Visit) (req : TgRegister) where
  tg_create-IsTied :
      (chat : ℕ) (s : Server)
      → select (has_chat chat) s.db.users ≡ []
      → IsTied s.db
      → IsTied (tg_create hash_password admin_minutes v chat req none s).1.db
  unfolding tg_create new_tg_user
  tg_create-IsTied chat s free h = elim (Bool-cases (username_matches (strip req.username))) [
    | inr bad ↦ rw bad h
    | inl good ↦ elim (Bool-cases (any (has_name (lower (strip req.username))) s.db.users)) [
      | inl held ↦ rw (good, held) h
      | inr new ↦
          rw (good, new)
            (append-IsTied s.db _
              (new_tg_user hash_password admin_minutes v chat req (strip req.username) s.db) refl
              refl refl (new_chat chat s.db free) h)
    ]
  ]

  register_as-IsTied :
      (chat : Option ℕ) (s : Server)
      → IsTied s.db
      → IsTied (register_as hash_password admin_minutes v req chat s).1.db
  unfolding register_as tg_create
  register_as-IsTied none s h = h
  register_as-IsTied (some chat) s h =
      query-keep IsTied (has_chat chat) (tg_create hash_password admin_minutes v chat req) s h
        (λ free. tg_create-IsTied chat s free h) (λ u e. h)

  on-IsTied :
      (enabled : Bool) (chat : Option ℕ) (s : Server)
      → IsTied s.db
      → IsTied (if_on enabled (register_as hash_password admin_minutes v req chat) s).1.db
  on-IsTied true chat s h = register_as-IsTied chat s h
  on-IsTied false chat s h = h

  pub tg_register-IsTied :
      (enabled : Bool) (chat : Option ℕ) (s : Server)
      → IsTied s.db
      → IsTied (tg_register hash_password admin_minutes v enabled req chat s).1.db
  unfolding tg_register
  tg_register-IsTied enabled chat s h =
      then-keep IsTied s.db (take_try register_per_ip v.ip v s) _ (take-db register_per_ip v.ip v s)
        h λ a t same. on-IsTied enabled chat t (subst IsTied (sym same) h)
