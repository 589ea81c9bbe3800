-- ===== src/Accounts/Letters/Once.antt =====
-- A token from a letter works once, and a new password signs every app out.
use Prim.Native.String
use vpn_infrastructure_showc.Base.{
  ℕ, String, ◌≡◌, refl, ◌∙◌, ap, ◌⊎◌, inl, inr, true, false, Option, none, some, List, [], ◌∷◌,
  arith, leb, ltb, ◌==◌, ==_self, holds, find, find-delete_self, select, Bool-cases, is_none,
}
use mathlib.Core.Path.{subst}
use vpn_infrastructure_showc.Model.{User, Portal, save_user}
use vpn_infrastructure_showc.Exec.{Error, Result, ok, err, then_do}
use vpn_infrastructure_showc.Payments.{one_or_none}
use vpn_infrastructure_showc.Accounts.{Visit, Server, reset_per_ip, take_try}
use vpn_infrastructure_showc.Accounts.Sessions.{close_sessions, with_sessions, is_own, user_of}
use vpn_infrastructure_showc.Accounts.Letters.{
  no_reset, mark_verified, verified_if_new, has_reset, reset_done, reset_at, reset_found,
  reset_long, reset_password,
}
use vpn_infrastructure_showc.Accounts.Writes.{select-update_gone, find-update_row, take-db}

-- an answer that is an error, and the tables as they were
abbrev pub IsRefused : Portal → Result (Unit {0}) × Server → Type 0
IsRefused db r = ((e : Error) × (r.0 ≡ err e)) × (r.1.db ≡ db)

module _ (digest : String → String) (hash_password : String → String) where
  -- A reset that went through: the one account with the token has the new password, which is long
  -- enough, its token is gone, and none of its sessions is left.
  pub record IsReset (token password : String) (v : Visit) (db after : Portal) (u : User)
      : Type 0 where
    pub holder : select (has_reset digest token) db.users ≡ u ∷ []
    pub long : ltb (String.len password) 8 ≡ false
    pub in_time : holds (λ expires. leb v.now expires) u.reset_expires ≡ true
    pub written : after ≡ reset_done digest hash_password password v u db

  abbrev pub ResetOutcome : String → String → Visit → Portal → Result (Unit {0}) × Server → Type 0
  ResetOutcome token password v db (ok a, s') = (u : User) × IsReset token password v db s'.db u
  ResetOutcome token password v db (err e, s') =
      (s'.db ≡ db)
      ⊎ ((u : User) × (select (has_reset digest token) db.users ≡ u ∷ [])
          × (s'.db ≡ save_user (no_reset u) db))

  module _ (token password : String) (v : Visit) (s : Server)
      (long : ltb (String.len password) 8 ≡ false) where
    expiry-Outcome :
        (u : User) (expires : Option ℕ)
        → u.reset_expires ≡ expires
        → select (has_reset digest token) s.db.users ≡ u ∷ []
        → ResetOutcome token password v s.db (reset_at digest hash_password password v u expires s)
    unfolding reset_at
    expiry-Outcome u none e one = inl refl
    expiry-Outcome u (some expires) e one = elim (Bool-cases (ltb expires v.now)) [
      | inl late ↦ rw late (inr (u, one, refl))
      | inr soon ↦ rw soon (
        u,
        record { holder = one; long = long; in_time = rw e (ground (arith, soon)); written = refl },
      )
    ]

    rows-Outcome :
        (rows : List User)
        → select (has_reset digest token) s.db.users ≡ rows
        → ResetOutcome token password v s.db
            (then_do (reset_found digest hash_password password v) (one_or_none rows s))
    unfolding reset_found
    rows-Outcome [] e = inl refl
    rows-Outcome (u ∷ []) e = expiry-Outcome u u.reset_expires refl e
    rows-Outcome (x ∷ y ∷ rows) e = inl refl

  reset_long-Outcome :
      (token password : String) (v : Visit) (s : Server)
      → ResetOutcome token password v s.db (reset_long digest hash_password token password v s)
  unfolding reset_long
  reset_long-Outcome token password v s = elim (Bool-cases (ltb (String.len password) 8)) [
    | inl short ↦ rw short (inl refl)
    | inr long ↦ rw long (rows-Outcome token password v s long _ refl)
  ]

  module _ (token password : String) (v : Visit) (s : Server) where
    admitted-Outcome :
        (r : Result (Unit {0}) × Server)
        → r.1.db ≡ s.db
        → ResetOutcome token password v s.db
            (then_do (λ _. reset_long digest hash_password token password v) r)
    admitted-Outcome (ok a, t) same = rw⁻¹ same (reset_long-Outcome token password v t)
    admitted-Outcome (err e, t) same = inl same

    pub reset_password-Outcome :
        ResetOutcome token password v s.db (reset_password digest hash_password token password v s)
    unfolding reset_password
    reset_password-Outcome =
        admitted-Outcome (take_try reset_per_ip v.ip v s) (take-db reset_per_ip v.ip v s)

  -- the row that a reset writes
  abbrev new_row : String → Visit → User → User
  new_row password v u =
      verified_if_new v.now (no_reset (record u { password_hash = hash_password password }))

  new_row-facts :
      (password : String) (v : Visit) (u : User)
      → (u.id ≡ (new_row password v u).id)
        × ((new_row password v u).reset_token ≡ none)
        × ((new_row password v u).password_hash ≡ hash_password password)
        × ((new_row password v u).reset_expires ≡ none)
  unfolding mark_verified
  new_row-facts password v u = elim (Bool-cases (is_none u.email_verified_at)) [
    | inl new ↦ rw new (refl, refl, refl, refl)
    | inr old ↦ rw old (refl, refl, refl, refl)
  ]

  module _ (token password : String) (v : Visit) (s : Server) where
    -- After a reset that went through, its token is no account's.
    spent :
        (after : Portal) (u : User)
        → IsReset token password v s.db after u
        → select (has_reset digest token) after.users ≡ []
    unfolding reset_done save_user close_sessions with_sessions
    spent after u h =
        let row = new_row password v u in
        let facts = new_row-facts password v u in
        rw h.written (
          select-update_gone (has_reset digest token) (λ r. r.id == row.id) row s.db.users u
            (rw facts.1 refl) (rw⁻¹ facts.0 (==_self u.id)) h.holder)

  refused :
      (token password : String) (v : Visit) (db : Portal) (r : Result (Unit {0}) × Server)
      → select (has_reset digest token) db.users ≡ []
      → ResetOutcome token password v db r
      → IsRefused db r
  refused token password v db (ok a, t) gone (u, h) = ground (arith, gone, h.holder)
  refused token password v db (err e, t) gone (inl same) = ((e, refl), same)
  refused token password v db (err e, t) gone (inr (u, one, h)) = ground (arith, gone, one)

  gone-after :
      (token password : String) (v : Visit) (s s' : Server)
      → ResetOutcome token password v s.db (ok tt, s')
      → select (has_reset digest token) s'.db.users ≡ []
  gone-after token password v s s' (u, h) = spent token password v s s'.db u h

  -- Once a reset went through, the same token is refused whatever the new password, the sender and
  -- the moment, and the tables stay as they are.
  pub reset_password-once :
      (token password other : String) (v later : Visit) (s s' : Server)
      → reset_password digest hash_password token password v s ≡ (ok tt, s')
      → IsRefused s'.db (reset_password digest hash_password token other later s')
  reset_password-once token password other v later s s' done =
      refused token other later s'.db _
        (gone-after token password v s s' (
          subst (ResetOutcome token password v s.db) done
            (reset_password-Outcome token password v s)))
        (reset_password-Outcome token other later s')

  -- What a reset leaves: the account whose token it was, with the new password, and no session.
  abbrev pub SignedOut : String → String → Visit → Portal → Portal → Type 0
  SignedOut token password v db after =
      (u : User) × (row : User) × (select (has_reset digest token) db.users ≡ u ∷ [])
      × (holds (λ expires. leb v.now expires) u.reset_expires ≡ true)
      × (user_of u.id after ≡ some row)
      × (row.password_hash ≡ hash_password password)
      × (find (is_own u.id) after.app_sessions ≡ none)

  signed_out :
      (token password : String) (v : Visit) (db : Portal) (s' : Server)
      → ResetOutcome token password v db (ok tt, s')
      → SignedOut token password v db s'.db
  unfolding reset_done save_user close_sessions with_sessions
  signed_out token password v db s' (u, h) =
      let row = new_row password v u in
      let facts = new_row-facts password v u in
      (
        u,
        row,
        h.holder,
        h.in_time,
        rw h.written (
            ap (λ uid. user_of uid (reset_done digest hash_password password v u db)) facts.0
            ∙ find-update_row (has_reset digest token) (λ r. r.id == row.id) row db.users u
                (==_self row.id) (rw⁻¹ facts.0 (==_self u.id)) h.holder),
        facts.2,
        rw h.written (find-delete_self (is_own u.id) db.app_sessions),
      )

  -- A reset that went through was of the one account that had the token, within its hour; that
  -- account has the new password afterwards and none of its sessions is left.
  pub reset_password-signs_out :
      (token password : String) (v : Visit) (s s' : Server)
      → reset_password digest hash_password token password v s ≡ (ok tt, s')
      → SignedOut token password v s.db s'.db
  reset_password-signs_out token password v s s' done =
      signed_out token password v s.db s' (
        subst (ResetOutcome token password v s.db) done (reset_password-Outcome token password v s))
