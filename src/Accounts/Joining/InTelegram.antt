-- ===== src/Accounts/Joining/InTelegram.antt =====
-- Registering from Telegram keeps the accounts apart.
use mathlib.Core.Path.{subst}
use vpn_infrastructure_showc.Base.{
  select, [], ℕ, String, ◌≡◌, refl, sym, Bool, true, false, Bool-cases, Option, none, some, arith,
  any-count, eq_iff, any, inl, inr,
}
use vpn_infrastructure_showc.PyText.{lower, strip}
use vpn_infrastructure_showc.Model.{User, Portal}
use vpn_infrastructure_showc.Accounts.{Visit, Server, register_per_ip, take_try, has_name}
use vpn_infrastructure_showc.Accounts.Letters.Query.{query-keep, then-keep}
use vpn_infrastructure_showc.Accounts.Writes.{take-db}
use vpn_infrastructure_showc.Accounts.Register.{username_matches}
use vpn_infrastructure_showc.Accounts.Telegram.Newcomers.{new_chat}
use vpn_infrastructure_showc.Accounts.Register.Consistent.{IsConsistent, append-IsConsistent}
use vpn_infrastructure_showc.Accounts.Telegram.{
  TgRegister, has_chat, if_on, new_tg_user, tg_create, register_as, tg_register,
}

module _ (hash_password : String → String) (admin_minutes : ℕ) (v : Visit) (req : TgRegister) where
  abbrev newcomer : ℕ → Portal → User
  newcomer chat db = new_tg_user hash_password admin_minutes v chat req (strip req.username) db

  tg_create-IsConsistent :
      (chat : ℕ) (s : Server)
      → select (has_chat chat) s.db.users ≡ []
      → IsConsistent s.db
      → IsConsistent (tg_create hash_password admin_minutes v chat req none s).1.db
  unfolding tg_create new_tg_user
  tg_create-IsConsistent chat s no_chat h =
      elim (Bool-cases (username_matches (strip req.username))) [
        | inr bad ↦ rw bad h
        | inl good ↦ elim (Bool-cases (any (has_name (lower (strip req.username))) s.db.users)) [
          | inl held ↦ rw (good, held) h
          | inr free ↦
              rw (good, free)
                (append-IsConsistent s.db _ (newcomer chat s.db) refl refl refl h
                  (new_chat chat s.db no_chat)
                  (λ n same. any-count (has_name n) s.db.users (
                    subst (λ m. any (has_name m) s.db.users ≡ false)
                      ((eq_iff (lower (strip req.username)) n).0 same) free))
                  (λ address same. ground arith))
        ]
      ]

  register_as-IsConsistent :
      (chat : Option ℕ) (s : Server)
      → IsConsistent s.db
      → IsConsistent (register_as hash_password admin_minutes v req chat s).1.db
  unfolding register_as tg_create
  register_as-IsConsistent none s h = h
  register_as-IsConsistent (some chat) s h =
      query-keep IsConsistent (has_chat chat) (tg_create hash_password admin_minutes v chat req) s h
        (λ no_chat. tg_create-IsConsistent chat s no_chat h) (λ u e. h)

  on-IsConsistent :
      (enabled : Bool) (chat : Option ℕ) (s : Server)
      → IsConsistent s.db
      → IsConsistent (if_on enabled (register_as hash_password admin_minutes v req chat) s).1.db
  on-IsConsistent true chat s h = register_as-IsConsistent chat s h
  on-IsConsistent false chat s h = h

  pub tg_register-IsConsistent :
      (enabled : Bool) (chat : Option ℕ) (s : Server)
      → IsConsistent s.db
      → IsConsistent (tg_register hash_password admin_minutes v enabled req chat s).1.db
  unfolding tg_register
  tg_register-IsConsistent enabled chat s h =
      then-keep IsConsistent s.db (take_try register_per_ip v.ip v s) _
        (take-db register_per_ip v.ip v s) h
        λ a t same. on-IsConsistent enabled chat t (subst IsConsistent (sym same) h)
