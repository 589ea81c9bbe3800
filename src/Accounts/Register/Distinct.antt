-- ===== src/Accounts/Register/Distinct.antt =====
-- No two accounts share a name or an address, whatever the case of the letters.
use mathlib.Core.Path.{subst}
use vpn_infrastructure_showc.Base.{
  arith, ℕ, suc, ◌<◌, String, ◌≡◌, refl, sym, ◌∙◌, ap, true, Bool-cases, Option, none, some, List,
  [], ◌∷◌, ◌++◌, str_eq, eq_iff, holds, select, All, inl, inr,
}
use vpn_infrastructure_showc.PyText.{lower, lower_twice}
use vpn_infrastructure_showc.Model.{User, PromoCode, Portal, save_user}
use vpn_infrastructure_showc.Exec.{Result, ok, err, then_do, ◌>>=◌}
use vpn_infrastructure_showc.Payments.{one_or_none}
use vpn_infrastructure_showc.Credit.Codes.{Refusal}
use vpn_infrastructure_showc.Accounts.{
  Visit, Server, register_per_ip, take_try, has_email, has_name,
}
use vpn_infrastructure_showc.Accounts.Letters.{issue_token, query}
use vpn_infrastructure_showc.Accounts.Writes.{take-db}
use vpn_infrastructure_showc.Accounts.Register.{
  RegisterRequest, is_valid, new_user, with_code, create, register_email, register_name, register,
}
use vpn_infrastructure_showc.Accounts.Telegram.Counting.{none-counted}
use vpn_infrastructure_showc.Accounts.Register.Consistent.{
  IsConsistent, update-last, append-IsConsistent,
}

name_is :
    (req : RegisterRequest) (username name : String)
    → username ≡ req.username
    → str_eq (lower username) name ≡ true
    → lower req.username ≡ name
name_is req username name e same = rw⁻¹ e ((eq_iff (lower username) name).0 same)

email_is :
    (req : RegisterRequest) (email : Option String) (address : String)
    → email ≡ some (lower req.email)
    → holds (λ e. str_eq (lower e) address) email ≡ true
    → lower req.email ≡ address
email_is req email address e same =
    sym (lower_twice req.email)
    ∙ (eq_iff (lower (lower req.email)) address).0
        (subst (λ o. holds (λ a. str_eq (lower a) address) o ≡ true) e same)

module _ (digest : String → String) (hash_password : String → String) (admin_username : String)
    (v : Visit) where
  abbrev made : RegisterRequest → Portal → User × Portal
  made = create digest hash_password admin_username v

  -- what is known of the row of a new account
  pub record IsFor (req : RegisterRequest) (key : ℕ) (u : User) : Type 0 where
    pub key_of : u.id ≡ key
    pub name_of : u.username ≡ req.username
    pub email_of : u.email ≡ some (lower req.email)
    pub hash_of : u.password_hash ≡ hash_password req.password
    pub active_of : u.is_active ≡ true
    pub chat_of : u.telegram_id ≡ none

  with_code-IsFor :
      (req : RegisterRequest) (key : ℕ) (code : Option PromoCode × Option Refusal)
      → IsFor req key (
          with_code digest hash_password admin_username v code
            (new_user digest hash_password admin_username v req key))
  unfolding new_user issue_token
  with_code-IsFor req key (none, reason) = record {
    key_of = refl;
    name_of = refl;
    email_of = refl;
    hash_of = refl;
    active_of = refl;
    chat_of = refl;
  }
  with_code-IsFor req key (some promo, reason) = record {
    key_of = refl;
    name_of = refl;
    email_of = refl;
    hash_of = refl;
    active_of = refl;
    chat_of = refl;
  }

  pub create-IsFor : (req : RegisterRequest) (db : Portal) → IsFor req db.next_id (made req db).0
  unfolding create
  create-IsFor req db = with_code-IsFor req db.next_id _

  new_user-id :
      (req : RegisterRequest) (key : ℕ)
      → (new_user digest hash_password admin_username v req key).id ≡ key
  unfolding new_user issue_token
  new_user-id req key = refl

  pub create-users :
      (req : RegisterRequest) (db : Portal)
      → All (λ (u : User). u.id < db.next_id) db.users
      → (made req db).1.users ≡ db.users ++ (made req db).0 ∷ []
  unfolding create save_user
  create-users req db given =
      update-last db.next_id (made req db).0
        (new_user digest hash_password admin_username v req db.next_id) db.users given
        (new_user-id req db.next_id) (create-IsFor req db).key_of

  create-next : (req : RegisterRequest) (db : Portal) → (made req db).1.next_id ≡ suc db.next_id
  unfolding create save_user
  create-next req db = refl

  create-IsConsistent :
      (req : RegisterRequest) (db : Portal)
      → IsConsistent db
      → select (has_name (lower req.username)) db.users ≡ []
      → select (has_email (lower req.email)) db.users ≡ []
      → IsConsistent (made req db).1
  create-IsConsistent req db h no_name no_email =
      let u = (made req db).0 in
      let row = create-IsFor req db in
      append-IsConsistent db (made req db).1 u (create-users req db h.tied.given)
        (create-next req db) row.key_of h (λ chat same. ground (arith, row.chat_of))
        (λ name same. none-counted (has_name name) db.users (
          subst (λ n. select (has_name n) db.users ≡ [])
            (name_is req u.username name row.name_of same) no_name))
        (λ address same. none-counted (has_email address) db.users (
          subst (λ a. select (has_email a) db.users ≡ [])
            (email_is req u.email address row.email_of same) no_email))

  -- What registering gives: a row more for the request, of a name and an address that no account
  -- had, or the tables as they were.
  abbrev pub RegisterOutcome : RegisterRequest → Portal → Result User × Server → Type 0
  RegisterOutcome req db (err e, s') = s'.db ≡ db
  RegisterOutcome req db (ok u, s') =
      (is_valid admin_username req ≡ true)
      × (select (has_name (lower req.username)) db.users ≡ [])
      × (select (has_email (lower req.email)) db.users ≡ [])
      × ((u, s'.db) ≡ made req db)

  module _ (req : RegisterRequest) (valid : is_valid admin_username req ≡ true) where
    email-Outcome :
        (rows : List User) (s : Server)
        → select (has_name (lower req.username)) s.db.users ≡ []
        → select (has_email (lower req.email)) s.db.users ≡ rows
        → RegisterOutcome req s.db (
            then_do (register_email digest hash_password admin_username v req) (one_or_none rows s))
    unfolding register_email
    email-Outcome [] s no_name no_email = (valid, no_name, no_email, refl)
    email-Outcome (x ∷ []) s no_name no_email = refl
    email-Outcome (x ∷ y ∷ rows) s no_name no_email = refl

    name-Outcome :
        (rows : List User) (s : Server)
        → select (has_name (lower req.username)) s.db.users ≡ rows
        → RegisterOutcome req s.db
            (then_do (register_name digest hash_password admin_username v req) (one_or_none rows s))
    unfolding register_name
    name-Outcome [] s no_name = email-Outcome _ s no_name refl
    name-Outcome (x ∷ []) s no_name = refl
    name-Outcome (x ∷ y ∷ rows) s no_name = refl

    admitted-Outcome :
        (r : Result (Unit {0}) × Server) (db : Portal)
        → r.1.db ≡ db
        → RegisterOutcome req db (
            then_do
              (λ _ s.
                (query (has_name (lower req.username))
                    >>= register_name digest hash_password admin_username v req)
                  s)
              r)
    admitted-Outcome (ok a, t) db same = rw⁻¹ same (name-Outcome _ t refl)
    admitted-Outcome (err e, t) db same = same

  pub register-Outcome :
      (req : RegisterRequest) (s : Server)
      → RegisterOutcome req s.db (register digest hash_password admin_username v req s)
  unfolding register
  register-Outcome req s = elim (Bool-cases (is_valid admin_username req)) [
    | inl valid ↦ rw valid (
        admitted-Outcome req valid (take_try register_per_ip v.ip v s) s.db
          (take-db register_per_ip v.ip v s))
    | inr invalid ↦ rw invalid refl
  ]

  kept :
      (req : RegisterRequest) (db : Portal) (r : Result User × Server)
      → IsConsistent db
      → RegisterOutcome req db r
      → IsConsistent r.1.db
  kept req db (err e, t) h same = subst IsConsistent (sym same) h
  kept req db (ok u, t) h (valid, no_name, no_email, done) =
      subst IsConsistent (sym (ap (λ p. p.1) done)) (create-IsConsistent req db h no_name no_email)

  -- Registering keeps the accounts apart: if no two accounts shared a key, a chat, a name or an
  -- address, whatever the case of its letters, and every key was given out, that is so afterwards,
  -- whatever the request and the answer.
  pub register-IsConsistent :
      (req : RegisterRequest) (s : Server)
      → IsConsistent s.db
      → IsConsistent (register digest hash_password admin_username v req s).1.db
  register-IsConsistent req s h = kept req s.db _ h (register-Outcome req s)
