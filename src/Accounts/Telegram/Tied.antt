-- ===== src/Accounts/Telegram/Tied.antt =====
-- A chat is tied to one account at most.
use vpn_infrastructure_showc.Base.{
  ℕ, String, ◌≡◌, refl, Bool, true, false, Bool-cases, inl, inr, Option, none, some, List, [], ◌∷◌,
  ltb, str_eq, select,
}
use vpn_infrastructure_showc.Model.{User}
use vpn_infrastructure_showc.Exec.{Result, ok, err, then_do, ◌>>=◌}
use vpn_infrastructure_showc.Payments.{one_or_none}
use vpn_infrastructure_showc.Accounts.{Visit, Server}
use vpn_infrastructure_showc.Accounts.Letters.Query.{query-keep}
use vpn_infrastructure_showc.Accounts.Telegram.{
  has_chat, me_or_404, me, user_by_chat, unlink, tg_unlink, finish_link, link_until, link_found,
  finish_webapp, tg_link_webapp, offer_link, tg_link, has_link, link, TgRegister, tg_register,
}
use vpn_infrastructure_showc.Accounts.Telegram.Newcomers.{tg_register-IsTied}
use vpn_infrastructure_showc.Accounts.Telegram.Chats.{IsTied, save-IsTied, keep-IsTied, tie-IsTied}

then-IsTied :
    {A B : Type 0} (k : A → Server → Result B × Server) (r : Result A × Server)
    → IsTied r.1.db
    → ((a : A) (t : Server) → r ≡ (ok a, t) → IsTied t.db → IsTied (k a t).1.db)
    → IsTied (then_do k r).1.db
then-IsTied k (ok a, t) h f = f a t refl h
then-IsTied k (err e, t) h f = h

module _ {A : Type 0} (sub : String) (k : User → Server → Result A × Server) (s : Server) where
  found-IsTied :
      (rows : List User)
      → select (λ (u : User). str_eq u.username sub) s.db.users ≡ rows
      → IsTied s.db
      → ((u : User)
          → select (λ (x : User). str_eq x.username sub) s.db.users ≡ u ∷ []
          → IsTied (k u s).1.db)
      → IsTied (then_do k (then_do me_or_404 (one_or_none rows s))).1.db
  unfolding me_or_404
  found-IsTied [] e h f = h
  found-IsTied (u ∷ []) e h f = f u e
  found-IsTied (x ∷ y ∷ rows) e h f = h

  -- after the account of a token was found
  me-IsTied :
      IsTied s.db
      → ((u : User)
          → select (λ (x : User). str_eq x.username sub) s.db.users ≡ u ∷ []
          → IsTied (k u s).1.db)
      → IsTied ((me sub >>= k) s).1.db
  me-IsTied h f = found-IsTied (select (λ (u : User). str_eq u.username sub) s.db.users) refl h f

tg_unlink-IsTied : (sub : String) (s : Server) → IsTied s.db → IsTied (tg_unlink sub s).1.db
unfolding tg_unlink unlink
tg_unlink-IsTied sub s h =
    me-IsTied sub unlink s h
      λ u one. save-IsTied (record u { telegram_id = none; telegram_link_hash = none }) s.db refl h

tg_link_webapp-IsTied :
    (chat : Option ℕ) (sub : String) (s : Server)
    → IsTied s.db
    → IsTied (tg_link_webapp chat sub s).1.db
unfolding tg_link_webapp finish_webapp
tg_link_webapp-IsTied none sub s h = h
tg_link_webapp-IsTied (some chat) sub s h =
    me-IsTied sub (λ user. user_by_chat chat >>= finish_webapp chat user) s h
      λ u one.
        query-keep IsTied (has_chat chat) (finish_webapp chat u) s h
          (λ e. tie-IsTied chat _ none s.db refl h e)
          (λ other e. tie-IsTied chat _ (some other) s.db refl h e)

link_until-IsTied :
    (chat now : ℕ) (u : User) (expires : Option ℕ) (s : Server)
    → IsTied s.db
    → IsTied (link_until chat now u expires s).1.db
unfolding link_until finish_link
link_until-IsTied chat now u none s h = h
link_until-IsTied chat now u (some expires) s h = elim (Bool-cases (ltb expires now)) [
  | inl late ↦ rw late h
  | inr soon ↦ rw soon (
      query-keep IsTied (has_chat chat) (finish_link chat u) s h
        (λ e. tie-IsTied chat _ none s.db refl h e)
        (λ other e. tie-IsTied chat _ (some other) s.db refl h e))
]

module _ (digest : String → String) where
  tg_link-IsTied :
      (enabled : Bool) (sub : String) (v : Visit) (s : Server)
      → IsTied s.db
      → IsTied (tg_link digest enabled sub v s).1.db
  unfolding tg_link offer_link
  tg_link-IsTied false sub v s h = h
  tg_link-IsTied true sub v s h =
      me-IsTied sub (offer_link digest v) s h
        λ u one. keep-IsTied (λ x. str_eq x.username sub) u _ s.db one refl refl h

  link-IsTied :
      (chat : ℕ) (token : String) (now : ℕ) (s : Server)
      → IsTied s.db
      → IsTied (link digest chat token now s).1.db
  unfolding link link_found
  link-IsTied chat token now s h =
      query-keep IsTied (has_link digest token) (link_found chat now) s h (λ e. h)
        λ u e. link_until-IsTied chat now u u.telegram_link_expires s h

  -- One request about the tie of a chat, or an account that begins in Telegram, whatever it answers.
  pub data Ties : Server → Server → Type 0 where
    offers :
        (s : Server) (enabled : Bool) (sub : String) (v : Visit)
        → Ties s (tg_link digest enabled sub v s).1
    links :
        (s : Server) (chat : ℕ) (token : String) (now : ℕ) → Ties s (link digest chat token now s).1
    links_webapp :
        (s : Server) (chat : Option ℕ) (sub : String) → Ties s (tg_link_webapp chat sub s).1
    unlinks : (s : Server) (sub : String) → Ties s (tg_unlink sub s).1
    registers :
        (s : Server) (hash_password : String → String) (admin_minutes : ℕ) (v : Visit)
        (enabled : Bool) (req : TgRegister) (chat : Option ℕ)
        → Ties s (tg_register hash_password admin_minutes v enabled req chat s).1

  pub data TiesReach (start : Server) : Server → Type 0 where
    stay : TiesReach start start
    move : {s t : Server} → TiesReach start s → Ties s t → TiesReach start t

  Ties-IsTied : {s t : Server} → Ties s t → IsTied s.db → IsTied t.db
  Ties-IsTied (offers s enabled sub v) h = tg_link-IsTied enabled sub v s h
  Ties-IsTied (links s chat token now) h = link-IsTied chat token now s h
  Ties-IsTied (links_webapp s chat sub) h = tg_link_webapp-IsTied chat sub s h
  Ties-IsTied (unlinks s sub) h = tg_unlink-IsTied sub s h
  Ties-IsTied (registers s hash_password admin_minutes v enabled req chat) h =
      tg_register-IsTied hash_password admin_minutes v req enabled chat s h

  -- However links are asked for, opened from a chat, made in the Mini App and removed, and accounts
  -- begun in Telegram, by any accounts and in any order, each chat is tied to one account at most,
  -- and keys stay distinct and given out in order, if all that was so at the start.
  pub TiesReach-IsTied : {start s : Server} → IsTied start.db → TiesReach start s → IsTied s.db
  TiesReach-IsTied h stay = h
  TiesReach-IsTied h (move r t) = Ties-IsTied t (TiesReach-IsTied h r)
