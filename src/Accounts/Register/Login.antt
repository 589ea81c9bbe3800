-- ===== src/Accounts/Register/Login.antt =====
-- An account that was registered can sign in, in any spelling of its name.
use mathlib.Core.Path.{subst}
use vpn_infrastructure_showc.Base.{
  String, ◌≡◌, refl, sym, ◌∙◌, ap, Bool, true, false, Bool-cases, inl, inr, [], ◌∷◌, str_eq, eq_iff,
  select, select-append_last,
}
use vpn_infrastructure_showc.PyText.{lower}
use vpn_infrastructure_showc.Model.{User}
use vpn_infrastructure_showc.Exec.{Result, ok, err, http, then_do}
use vpn_infrastructure_showc.RateLimit.{Limiter}
use vpn_infrastructure_showc.Accounts.{
  Door, Visit, Server, login_per_ip, login_fails, take_try, check, passed, has_name,
}
use vpn_infrastructure_showc.Accounts.SignIn.{
  create_token, LoginRequest, TokenResponse, SignInSettings, login_found, login_admitted, login,
}
use vpn_infrastructure_showc.Accounts.SignIn.Outcome.{client, login_user-client}
use vpn_infrastructure_showc.Accounts.Register.{RegisterRequest, create, register}
use vpn_infrastructure_showc.Accounts.Register.Consistent.{IsConsistent}
use vpn_infrastructure_showc.Accounts.Register.Distinct.{
  create-IsFor, create-users, RegisterOutcome, register-Outcome,
}

-- The answer to a sign-in that only the limiters can refuse: a customer's token for the name.
abbrev pub SignsIn : String → Result TokenResponse → Type 0
SignsIn sub (err e) = e ≡ http 429 "Too many attempts, try again later"
SignsIn sub (ok answer) = (answer.access_token.sub ≡ sub) × (answer.access_token.role ≡ "client")

passed-SignsIn :
    (sub : String) (door : Door) (r : Bool × Limiter) (s : Server)
    (k : Unit {0} → Server → Result TokenResponse × Server)
    → ((t : Server) → t.db ≡ s.db → SignsIn sub (k tt t).0)
    → SignsIn sub (then_do k (passed door r s)).0
unfolding passed
passed-SignsIn sub door (true, l) s k h = h _ refl
passed-SignsIn sub door (false, l) s k h = refl

module _ (set : SignInSettings) (v : Visit) (req : LoginRequest) (u : User)
    (other : str_eq req.username set.admin_username ≡ false)
    (good : set.verify_password req.password u.password_hash ≡ true)
    (active : u.is_active ≡ true) where
  client-SignsIn : (s : Server) → SignsIn u.username (client set v req u s).0
  unfolding create_token
  client-SignsIn s = elim (Bool-cases req.refresh) [
    | inl asked ↦ rw asked (refl, refl)
    | inr day ↦ rw day (refl, refl)
  ]

  login_admitted-SignsIn :
      (s : Server)
      → select (has_name (lower req.username)) s.db.users ≡ u ∷ []
      → SignsIn u.username (login_admitted set v req s).0
  unfolding login_admitted login_found
  login_admitted-SignsIn s one =
      rw (other, one, login_user-client set v req s u good active) (client-SignsIn s)

  login-SignsIn :
      (s : Server)
      → select (has_name (lower req.username)) s.db.users ≡ u ∷ []
      → SignsIn u.username (login set v req s).0
  unfolding login take_try check
  login-SignsIn s one = passed-SignsIn u.username login_per_ip _ s _ λ t from_s.
      passed-SignsIn u.username login_fails _ t _
        λ w from_t. login_admitted-SignsIn w (rw (from_t, from_s) one)

module _ (set : SignInSettings) (hash_password : String → String) (v : Visit) where
  abbrev registering : RegisterRequest → Server → Result User × Server
  registering = register set.digest hash_password set.admin_username v

  -- after a registration the name, in any spelling, is that of the new account alone
  found-after :
      (req : RegisterRequest) (s s' : Server) (u : User) (name : String)
      → IsConsistent s.db
      → RegisterOutcome set.digest hash_password set.admin_username v req s.db (ok u, s')
      → lower name ≡ lower req.username
      → (select (has_name (lower name)) s'.db.users ≡ u ∷ [])
        × (u.password_hash ≡ hash_password req.password)
        × (u.is_active ≡ true)
  found-after req s s' u name h (valid, no_name, no_email, done) same =
      let new = create set.digest hash_password set.admin_username v req s.db in
      let row = create-IsFor set.digest hash_password set.admin_username v req s.db in
      let is_new : u ≡ new.0 = ap (λ p. p.0) done in
      (
        rw
            (
              ap (λ p. p.1.users) done,
              create-users set.digest hash_password set.admin_username v req s.db h.tied.given,
              is_new,
            )
            (select-append_last (has_name (lower name)) s.db.users new.0
              (subst (λ n. select (has_name n) s.db.users ≡ []) (sym same) no_name)
              ((eq_iff (lower new.0.username) (lower name)).1 (ap lower row.name_of ∙ sym same))),
        ap (λ (w : User). w.password_hash) is_new ∙ row.hash_of,
        ap (λ (w : User). w.is_active) is_new ∙ row.active_of,
      )

  -- An account that was registered signs in with its password, in any spelling of its name that is
  -- not the operator's, from any address at any moment: the answer is a customer's token for the
  -- name as it was registered, unless the limiters refuse the attempt. The accounts were apart
  -- before, and a password verifies against its own hash.
  pub login-register :
      (req : RegisterRequest) (s s' : Server) (u : User) (later : Visit) (name : String)
      (refresh : Bool)
      → IsConsistent s.db
      → ((p : String) → set.verify_password p (hash_password p) ≡ true)
      → registering req s ≡ (ok u, s')
      → lower name ≡ lower req.username
      → str_eq name set.admin_username ≡ false
      → SignsIn u.username
          (login set later
            (record { username = name; password = req.password; refresh = refresh })
            s').0
  login-register req s s' u later name refresh h verifies done same other =
      let found =
        found-after req s s' u name h
          (subst (RegisterOutcome set.digest hash_password set.admin_username v req s.db) done
            (register-Outcome set.digest hash_password set.admin_username v req s))
          same in
      login-SignsIn set later
        (record { username = name; password = req.password; refresh = refresh }) u other
        (rw found.1 (verifies req.password)) found.2 s' found.0
