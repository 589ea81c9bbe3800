-- ===== src/Accounts/Sessions/Usable.antt =====
-- A token that was handed out signs its account in, and every use keeps it alive.
use vpn_infrastructure_showc.Base.{
  ℕ, ◌+◌, ◌<◌, String, ◌≡◌, refl, Bool, true, some, List, [], ◌∷◌, arith, gt→leb, ==_self, ◌==◌,
  str_eq, eq_iff, select, select-append_last, delete, update,
}
use vpn_infrastructure_showc.Model.{days, User, AppSession, Portal}
use vpn_infrastructure_showc.Exec.{ok}
use vpn_infrastructure_showc.Accounts.Sessions.{
  app_session_days, drop_expired, stale_of, is_in, drop_stale, new_session, with_sessions, is_token,
  user_of, renew, open_session, with_digest, touch_session, use_found, use_session,
}

select-delete_none :
    {A : Type 0} (p q : A → Bool) (xs : List A) → select p xs ≡ [] → select p (delete q xs) ≡ []
select-delete_none p q [] e = refl
select-delete_none p q (x ∷ xs) e = ground (arith, select-delete_none p q xs)

-- an update that leaves the test alone passes through the query
select-update :
    {A : Type 0} (p q : A → Bool) (f : A → A) (xs : List A)
    → ((x : A) → p (f x) ≡ p x)
    → select p (update q f xs) ≡ update q f (select p xs)
select-update p q f [] h = refl
select-update p q f (x ∷ xs) h = ground (arith, h x, select-update p q f xs h)

touch_active :
    (row : AppSession) (now : ℕ) (user : User) (db : Portal)
    → user.is_active ≡ true
    → touch_session row now (some user) db
      ≡ (some user, with_sessions (update (λ r. r.id == row.id) (renew now) db.app_sessions) db)
unfolding touch_session
touch_active row now user db active = rw active refl

module _ (digest : String → String) (user : User) (token : String) (now : ℕ) (db : Portal)
    (fresh : with_digest digest token db ≡ []) where
  abbrev row : AppSession
  row = new_session db.next_id user.id (digest token) now

  with_digest-open_session :
      with_digest digest token (open_session digest user token now db) ≡ row ∷ []
  unfolding open_session drop_stale drop_expired new_session
  with_digest-open_session =
      let mine : AppSession → Bool = λ r. str_eq r.token_hash (digest token) in
      let live = drop_expired user.id now db.app_sessions in
      select-append_last mine (drop_stale user.id live) row
        (select-delete_none mine (is_in (stale_of user.id live)) live
          (select-delete_none mine _ db.app_sessions fresh))
        ((eq_iff (digest token) (digest token)).1 refl)

  known_after :
      user_of user.id db ≡ some user
      → user_of user.id (open_session digest user token now db) ≡ some user
  unfolding open_session
  known_after known = known

  renewed :
      (later : ℕ)
      → with_digest digest token (
          with_sessions
            (update
              (λ r. r.id == row.id)
              (renew later)
              (open_session digest user token now db).app_sessions)
            (open_session digest user token now db))
        ≡ renew later row ∷ []
  unfolding with_sessions
  renewed later =
      let mine : AppSession → Bool = λ r. str_eq r.token_hash (digest token) in
      rw
        (
          select-update mine (λ r. r.id == row.id) (renew later)
              (open_session digest user token now db).app_sessions (λ r. refl),
          with_digest-open_session,
          ==_self row.id,
        )
        refl

  -- A token that was handed out for an active account, and that no stored session had, signs that
  -- account in at any moment within ninety days. One session has the token then: it is the
  -- account's, was last used at that moment, and ends ninety days after it.
  pub use_session-open_session :
      (later : ℕ)
      → is_token token ≡ true
      → user.is_active ≡ true
      → user_of user.id db ≡ some user
      → later < now + days 90
      → let (answer, after) =
          use_session digest token later (open_session digest user token now db) in
        (answer ≡ ok (some user))
        × (r : AppSession) × (with_digest digest token after ≡ r ∷ [])
        × (r.user_id ≡ user.id)
        × (r.last_used_at ≡ later)
        × (r.expires_at ≡ later + days 90)
  unfolding use_session use_found new_session
  use_session-open_session later is_one active known soon =
      rw
        (
          is_one,
          with_digest-open_session,
          gt→leb (now + days app_session_days) later soon,
          known_after known,
          touch_active row later user (open_session digest user token now db) active,
        )
        (refl, renew later row, renewed later, refl, refl, refl)
