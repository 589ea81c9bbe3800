-- ===== src/Accounts/SignIn/Outcome.antt =====
-- Nobody signs in without the password, and who signs in gets a token of their own.
use vpn_infrastructure_showc.Base.{
  String, ◌≡◌, refl, ◌∙◌, ◌⊎◌, inl, inr, true, false, Bool-cases, none, some, List, [], ◌∷◌, str_eq,
  select, if◌then◌else◌,
}
use vpn_infrastructure_showc.PyText.{lower}
use vpn_infrastructure_showc.Model.{User, Portal}
use vpn_infrastructure_showc.Exec.{Exec, Result, ok, err, http, then_do, ◌>>=◌}
use vpn_infrastructure_showc.Payments.{one_or_none}
use vpn_infrastructure_showc.Accounts.{
  Door, Visit, Server, login_per_ip, login_fails, take_try, check, count_attempt, with_db, has_name,
}
use vpn_infrastructure_showc.Accounts.Sessions.{open_session}
use vpn_infrastructure_showc.Accounts.Writes.{take-db, passed-db}
use vpn_infrastructure_showc.Accounts.SignIn.{
  create_token, LoginRequest, TokenResponse, SignInSettings, fail_key, refuse, login_admin,
  login_user, login_found, login_admitted, login,
}

pub check-db :
    (door : Door) (key : String) (v : Visit) (s : Server) → (check door key v s).1.db ≡ s.db
unfolding check
check-db door key v s = passed-db door _ s

module _ (set : SignInSettings) (v : Visit) where
  -- A sign-in of the operator: the name and the password of the settings, and no table written.
  pub record IsAdmin (req : LoginRequest) (db after : Portal) (answer : TokenResponse)
      : Type 0 where
    pub named : str_eq req.username set.admin_username ≡ true
    pub password : set.verify_password req.password set.admin_password_hash ≡ true
    pub token : answer.access_token ≡ create_token set.admin_minutes req.username "admin" v.now
    pub no_refresh : answer.refresh_token ≡ none
    pub same : after ≡ db

  -- A sign-in of a customer: the one active account of the name, its password, a token with the
  -- stored spelling, and a session exactly if one was asked for.
  pub record IsClient (req : LoginRequest) (db after : Portal) (answer : TokenResponse) (u : User)
      : Type 0 where
    pub other : str_eq req.username set.admin_username ≡ false
    pub holder : select (has_name (lower req.username)) db.users ≡ u ∷ []
    pub password : set.verify_password req.password u.password_hash ≡ true
    pub active : u.is_active ≡ true
    pub token : answer.access_token ≡ create_token set.admin_minutes u.username "client" v.now
    pub refresh : answer.refresh_token ≡ (if req.refresh then some v.drawn else none)
    pub tables : after ≡ (if req.refresh then open_session set.digest u v.drawn v.now db else db)

  abbrev pub LoginOutcome : LoginRequest → Portal → Result TokenResponse × Server → Type 0
  LoginOutcome req db (err e, s') = s'.db ≡ db
  LoginOutcome req db (ok answer, s') =
      IsAdmin req db s'.db answer ⊎ ((u : User) × IsClient req db s'.db answer u)

  module _ (req : LoginRequest) where
    admin-Outcome :
        (s : Server)
        → str_eq req.username set.admin_username ≡ true
        → LoginOutcome req s.db (login_admin set v req s)
    unfolding login_admin count_attempt
    admin-Outcome s named =
        elim (Bool-cases (set.verify_password req.password set.admin_password_hash)) [
          | inl good ↦ rw good (
              inl (record {
                named = named;
                password = good;
                token = refl;
                no_refresh = refl;
                same = refl;
              }))
          | inr bad ↦ rw bad refl
        ]

    -- the answer to a customer with the right password
    abbrev pub client : User → Exec Server TokenResponse
    client u s =
        let token = create_token set.admin_minutes u.username "client" v.now in
        if req.refresh
        then (
          ok (record { access_token = token; refresh_token = some v.drawn }),
          with_db (open_session set.digest u v.drawn v.now s.db) s,
        )
        else (ok (record { access_token = token; refresh_token = none }), s)

    pub login_user-client :
        (s : Server) (u : User)
        → set.verify_password req.password u.password_hash ≡ true
        → u.is_active ≡ true
        → login_user set v req u s ≡ client u s
    unfolding login_user
    login_user-client s u good active = rw (good, active) refl

    login_user-bad :
        (s : Server) (u : User)
        → set.verify_password req.password u.password_hash ≡ false
        → login_user set v req u s ≡ refuse set v req s
    unfolding login_user
    login_user-bad s u bad = rw bad refl

    login_user-closed :
        (s : Server) (u : User)
        → set.verify_password req.password u.password_hash ≡ true
        → u.is_active ≡ false
        → login_user set v req u s ≡ (err (http 403 "Account disabled"), s)
    unfolding login_user
    login_user-closed s u good closed = rw (good, closed) refl

    client-Outcome :
        (s : Server) (u : User)
        → str_eq req.username set.admin_username ≡ false
        → select (has_name (lower req.username)) s.db.users ≡ u ∷ []
        → set.verify_password req.password u.password_hash ≡ true
        → u.is_active ≡ true
        → LoginOutcome req s.db (client u s)
    client-Outcome s u other one good active = elim (Bool-cases req.refresh) [
      | inl asked ↦ rw asked (
          inr (
            u,
            record {
              other = other;
              holder = one;
              password = good;
              active = active;
              token = refl;
              refresh = refl;
              tables = refl;
            },
          ))
      | inr day ↦ rw day (
          inr (
            u,
            record {
              other = other;
              holder = one;
              password = good;
              active = active;
              token = refl;
              refresh = refl;
              tables = refl;
            },
          ))
    ]

    user-Outcome :
        (s : Server) (u : User)
        → str_eq req.username set.admin_username ≡ false
        → select (has_name (lower req.username)) s.db.users ≡ u ∷ []
        → LoginOutcome req s.db (login_user set v req u s)
    unfolding count_attempt
    user-Outcome s u other one =
        elim (Bool-cases (set.verify_password req.password u.password_hash)) [
          | inr bad ↦ rw (login_user-bad s u bad) refl
          | inl good ↦ elim (Bool-cases u.is_active) [
            | inr closed ↦ rw (login_user-closed s u good closed) refl
            | inl active ↦
                rw (login_user-client s u good active) (client-Outcome s u other one good active)
          ]
        ]

    rows-Outcome :
        (rows : List User) (s : Server)
        → str_eq req.username set.admin_username ≡ false
        → select (has_name (lower req.username)) s.db.users ≡ rows
        → LoginOutcome req s.db (then_do (login_found set v req) (one_or_none rows s))
    unfolding login_found count_attempt
    rows-Outcome [] s other one = refl
    rows-Outcome (u ∷ []) s other one = user-Outcome s u other one
    rows-Outcome (x ∷ y ∷ rows) s other one = refl

    login_admitted-Outcome : (s : Server) → LoginOutcome req s.db (login_admitted set v req s)
    unfolding login_admitted
    login_admitted-Outcome s = elim (Bool-cases (str_eq req.username set.admin_username)) [
      | inl named ↦ rw named (admin-Outcome s named)
      | inr other ↦ rw other (rows-Outcome _ s other refl)
    ]

    checked-Outcome :
        (r : Result (Unit {0}) × Server) (db : Portal)
        → r.1.db ≡ db
        → LoginOutcome req db (then_do (λ _. login_admitted set v req) r)
    checked-Outcome (ok a, t) db same = rw⁻¹ same (login_admitted-Outcome t)
    checked-Outcome (err e, t) db same = same

    taken-Outcome :
        (r : Result (Unit {0}) × Server) (db : Portal)
        → r.1.db ≡ db
        → LoginOutcome req db (
            then_do (λ _. check login_fails (fail_key v req) v >>= λ _. login_admitted set v req) r)
    taken-Outcome (ok a, t) db same =
        checked-Outcome (check login_fails (fail_key v req) v t) db
          (check-db login_fails (fail_key v req) v t ∙ same)
    taken-Outcome (err e, t) db same = same

    -- A sign-in gives a token only to the operator with the operator's password, or to the one
    -- active account of that name, whatever its case, with that account's password; the token is
    -- for the name as it is stored, as a client, and a session is opened exactly if it was asked
    -- for. A sign-in that is refused leaves the tables as they were.
    pub login-Outcome : (s : Server) → LoginOutcome req s.db (login set v req s)
    unfolding login
    login-Outcome s =
        taken-Outcome (take_try login_per_ip v.ip v s) s.db (take-db login_per_ip v.ip v s)
