-- ===== src/Accounts/Joining/WithGoogle.antt =====
-- Signing in with Google keeps the accounts apart.
use mathlib.Core.Path.{subst}
use vpn_infrastructure_showc.Base.{
  arith, suc, String, ◌≡◌, refl, sym, ◌∙◌, Bool, false, Bool-cases, Option, none, some, List, [],
  ◌∷◌, ◌++◌, any-count, str_eq, eq_iff, any, select, inl, inr, is_none,
}
use vpn_infrastructure_showc.PyText.{lower, lower_twice, strip}
use vpn_infrastructure_showc.Model.{User, Portal, save_user}
use vpn_infrastructure_showc.Exec.{Result, ok, err, http, then_do}
use vpn_infrastructure_showc.Payments.{one_or_none}
use vpn_infrastructure_showc.Accounts.{
  Visit, Server, register_per_ip, login_per_ip, take_try, has_email, has_name,
}
use vpn_infrastructure_showc.Accounts.Letters.Query.{if-holds, then-keep}
use vpn_infrastructure_showc.Accounts.Writes.{take-db}
use vpn_infrastructure_showc.Accounts.SignIn.{SignInSettings}
use vpn_infrastructure_showc.Accounts.Register.{username_matches}
use vpn_infrastructure_showc.Accounts.Register.Consistent.{
  IsConsistent, update-last, append-IsConsistent,
}
use vpn_infrastructure_showc.Accounts.Google.{
  GoogleIn, GoogleClaims, has_sub, by_address, known_account, signed_in, new_google_user,
  create_named, someone_new, answer_for, sign_in_with, verify_id_token, google_sign_in,
}
use vpn_infrastructure_showc.Accounts.Telegram.Counting.{none-counted}
use vpn_infrastructure_showc.Accounts.Joining.Saving.{save-IsConsistent, open_session-IsConsistent}

module _ (set : SignInSettings) (hash_password : String → String) (v : Visit) (body : GoogleIn)
    (sub : String) where
  signed_in-IsConsistent :
      (user : User) (s : Server)
      → IsConsistent (save_user user s.db)
      → IsConsistent (signed_in set hash_password v user body.remember s).1.db
  unfolding signed_in
  signed_in-IsConsistent user s h = elim (Bool-cases body.remember) [
    | inl long ↦ rw long (open_session-IsConsistent set.digest user v.drawn v.now _ h)
    | inr short ↦ rw short h
  ]

  answer-IsConsistent :
      (email : String) (user : User) (s : Server)
      → IsConsistent s.db
      → IsConsistent (save_user user s.db)
      → IsConsistent (answer_for set hash_password v body sub email (some user) s).1.db
  unfolding answer_for
  answer-IsConsistent email user s h saved =
      if-holds (λ r. IsConsistent r.1.db) user.is_active
        (signed_in set hash_password v user body.remember s) (err (http 403 "Account disabled"), s)
        (signed_in-IsConsistent user s saved) h

  abbrev made : String → String → Portal → User
  made email name db = new_google_user set hash_password v name email sub body.ref db

  abbrev with_made : String → String → Portal → Portal
  with_made email name db = record db {
    next_id = suc db.next_id;
    users = db.users ++ made email name db ∷ [];
  }

  create_named-IsConsistent :
      (email name : String) (s : Server)
      → lower email ≡ email
      → IsConsistent s.db
      → select (has_email email) s.db.users ≡ []
      → IsConsistent (create_named set hash_password v body sub email name s).1.db
  unfolding create_named new_google_user save_user
  create_named-IsConsistent email name s small h no_email =
      elim (Bool-cases (username_matches name)) [
        | inr bad ↦ rw bad h
        | inl good ↦ elim (Bool-cases (any (has_name (lower name)) s.db.users)) [
          | inl held ↦ rw (good, held) h
          | inr free ↦
              rw (good, free)
                (signed_in-IsConsistent (made email name s.db) _ (
                  append-IsConsistent s.db
                    (save_user (made email name s.db) (with_made email name s.db))
                    (made email name s.db)
                    (update-last s.db.next_id (made email name s.db) (made email name s.db)
                      s.db.users h.tied.given refl refl)
                    refl refl h (λ chat same. ground arith)
                    (λ n same. any-count (has_name n) s.db.users (
                      subst (λ m. any (has_name m) s.db.users ≡ false)
                        ((eq_iff (lower name) n).0 same) free))
                    (λ address same. none-counted (has_email address) s.db.users (
                      subst (λ a. select (has_email a) s.db.users ≡ [])
                        (sym small ∙ (eq_iff (lower email) address).0 same) no_email))))
        ]
      ]

  someone_new-IsConsistent :
      (email : String) (s : Server)
      → lower email ≡ email
      → IsConsistent s.db
      → select (has_email email) s.db.users ≡ []
      → IsConsistent (someone_new set hash_password v body sub email s).1.db
  unfolding someone_new
  someone_new-IsConsistent email s small h no_email =
      if-holds (λ r. IsConsistent r.1.db) (str_eq body.username "")
        (err (http 404 "need_username"), s)
        (then_do (λ _. create_named set hash_password v body sub email (strip body.username))
          (take_try register_per_ip v.ip v s))
        h
        (then-keep IsConsistent s.db (take_try register_per_ip v.ip v s)
          (λ _. create_named set hash_password v body sub email (strip body.username))
          (take-db register_per_ip v.ip v s) h
          λ a t same.
            create_named-IsConsistent email (strip body.username) t small
              (subst IsConsistent (sym same) h)
              (subst (λ db. select (has_email email) db.users ≡ []) (sym same) no_email))

  module _ (email : String) (small : lower email ≡ email) (s : Server) (h : IsConsistent s.db) where
    abbrev Answered : Result (Option User) × Server → Type 0
    Answered r = IsConsistent (then_do (answer_for set hash_password v body sub email) r).1.db

    one_address :
        (same : User)
        → select (has_email email) s.db.users ≡ same ∷ []
        → Answered (by_address sub (some same) s)
    unfolding by_address
    one_address same one = if-holds Answered (is_none same.email_verified_at) _ _ h (
        if-holds Answered (is_none same.google_sub)
          (ok (some (record same { google_sub = some sub })), s) (ok (some same), s)
          (answer-IsConsistent email (record same { google_sub = some sub }) s h
            (save-IsConsistent (has_email email) same _ s.db one refl refl refl refl h))
          (answer-IsConsistent email same s h
            (save-IsConsistent (has_email email) same same s.db one refl refl refl refl h)))

    address_rows :
        (rows : List User)
        → select (has_email email) s.db.users ≡ rows
        → Answered (then_do (by_address sub) (one_or_none rows s))
    unfolding answer_for by_address
    address_rows [] e = someone_new-IsConsistent email s small h e
    address_rows (same ∷ []) e = one_address same e
    address_rows (x ∷ y ∷ rows) e = h

    sub_rows :
        (rows : List User)
        → select (has_sub sub) s.db.users ≡ rows
        → Answered (then_do (known_account sub email) (one_or_none rows s))
    unfolding known_account
    sub_rows [] e = address_rows (select (has_email email) s.db.users) refl
    sub_rows (u ∷ []) e =
        answer-IsConsistent email u s h
          (save-IsConsistent (has_sub sub) u u s.db e refl refl refl refl h)
    sub_rows (x ∷ y ∷ rows) e = h

module _ (set : SignInSettings) (hash_password : String → String) (v : Visit)
    (body : GoogleIn) where
  claims-IsConsistent :
      (c : Option GoogleClaims) (s : Server)
      → IsConsistent s.db
      → IsConsistent (sign_in_with set hash_password v body c s).1.db
  unfolding sign_in_with
  claims-IsConsistent none s h = h
  claims-IsConsistent (some c) s h =
      sub_rows set hash_password v body c.sub (lower (strip c.email)) (lower_twice (strip c.email))
        s h (select (has_sub c.sub) s.db.users) refl

  pub google_sign_in-IsConsistent :
      (enabled : Bool) (decoded : Option GoogleClaims) (s : Server)
      → IsConsistent s.db
      → IsConsistent (google_sign_in set hash_password v enabled body decoded s).1.db
  unfolding google_sign_in
  google_sign_in-IsConsistent enabled decoded s h =
      then-keep IsConsistent s.db (take_try login_per_ip v.ip v s) _ (take-db login_per_ip v.ip v s)
        h
        λ a t same.
          if-holds (λ r. IsConsistent r.1.db) enabled
            (sign_in_with set hash_password v body (verify_id_token body.credential decoded) t)
            (err (http 503 "google_off"), t)
            (claims-IsConsistent (verify_id_token body.credential decoded) t
              (subst IsConsistent (sym same) h))
            (subst IsConsistent (sym same) h)
