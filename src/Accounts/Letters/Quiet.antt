-- ===== src/Accounts/Letters/Quiet.antt =====
-- Asking for a reset says nothing about who has an account.
use mathlib.Core.Path.{subst}
use vpn_infrastructure_showc.Base.{
  ◌≤◌, String, ◌≡◌, refl, ◌∙◌, ap, Bool, true, false, List, [], ◌∷◌, arith, length, count,
  length-select, select,
}
use vpn_infrastructure_showc.PyText.{lower}
use vpn_infrastructure_showc.Model.{User, Portal}
use vpn_infrastructure_showc.Exec.{Result, ok, err, then_do}
use vpn_infrastructure_showc.Payments.{one_or_none}
use vpn_infrastructure_showc.Accounts.{
  Door, Visit, Server, forgot_per_ip, forgot_per_email, take_try, passed, with_limit, has_email,
}
use vpn_infrastructure_showc.RateLimit
use vpn_infrastructure_showc.RateLimit.{Limiter}
use vpn_infrastructure_showc.Accounts.Writes.{take-db}
use vpn_infrastructure_showc.Accounts.Letters.{send_reset, forgot_password}

-- Two runs that answer the same and leave the same limiters.
abbrev pub SameAnswer : Result (Unit {0}) × Server → Result (Unit {0}) × Server → Type 0
SameAnswer a b = (a.0 ≡ b.0) × (a.1.limits ≡ b.1.limits)

-- each address is that of one account at most
abbrev pub HasDistinctEmails : Portal → Type 0
HasDistinctEmails db = (address : String) → count (has_email address) db.users ≤ 1

passed-same :
    (door : Door) (r : Bool × Limiter) (s t : Server)
    → s.limits ≡ t.limits
    → SameAnswer (passed door r s) (passed door r t)
unfolding passed
passed-same door (true, l) s t same =
    (refl, ap (λ limits. (with_limit door l (record s { limits = limits })).limits) same)
passed-same door (false, l) s t same =
    (refl, ap (λ limits. (with_limit door l (record s { limits = limits })).limits) same)

take-same :
    (door : Door) (key : String) (v : Visit) (s t : Server)
    → s.limits ≡ t.limits
    → SameAnswer (take_try door key v s) (take_try door key v t)
unfolding take_try
take-same door key v s t same =
    subst
      (λ r.
        SameAnswer (passed door (RateLimit.take key v.clock (s.limits door)) s) (passed door r t))
      (ap (λ (limits : Door → Limiter). RateLimit.take key v.clock (limits door)) same)
      (passed-same door (RateLimit.take key v.clock (s.limits door)) s t same)

-- what the two runs do next keeps their answers the same
then-same :
    (f g : Unit {0} → Server → Result (Unit {0}) × Server) (a b : Result (Unit {0}) × Server)
    → SameAnswer a b
    → ((s t : Server)
        → s.limits ≡ t.limits
        → s.db ≡ a.1.db
        → t.db ≡ b.1.db
        → SameAnswer (f tt s) (g tt t))
    → SameAnswer (then_do f a) (then_do g b)
then-same f g (ok x, s) (ok y, t) h k = k s t h.1 refl refl
then-same f g (err d, s) (err e, t) h k = h
then-same f g (ok x, s) (err e, t) h k = ground (arith, h.0)
then-same f g (err e, s) (ok x, t) h k = ground (arith, h.0)

module _ (digest : String → String) (v : Visit) where
  sent-same :
      (found held : List User) (s t : Server)
      → length found ≤ 1
      → length held ≤ 1
      → s.limits ≡ t.limits
      → SameAnswer
          (then_do (send_reset digest v) (one_or_none found s))
          (then_do (send_reset digest v) (one_or_none held t))
  unfolding send_reset
  sent-same [] [] s t h k same = (refl, same)
  sent-same [] (y ∷ []) s t h k same = (refl, same)
  sent-same (x ∷ []) [] s t h k same = (refl, same)
  sent-same (x ∷ []) (y ∷ []) s t h k same = (refl, same)
  sent-same (x ∷ x2 ∷ xs) held s t h k same = ground (arith, h)
  sent-same found (y ∷ y2 ∷ ys) s t h k same = ground (arith, k)

  one_row :
      (address : String) (db after : Portal)
      → HasDistinctEmails db
      → after ≡ db
      → length (select (has_email (lower address)) after.users) ≤ 1
  one_row address db after h same =
      rw (same, length-select (has_email (lower address)) db.users) (h (lower address))

  -- Whoever has an account, a request for a reset gets the same answer and uses up the same of the
  -- limits: two portals in which no two accounts share an address, and whose limiters agree, do
  -- not differ in it.
  pub forgot_password-same :
      (address : String) (s t : Server)
      → HasDistinctEmails s.db
      → HasDistinctEmails t.db
      → s.limits ≡ t.limits
      → SameAnswer (forgot_password digest address v s) (forgot_password digest address v t)
  unfolding forgot_password
  forgot_password-same address s t h k same =
      then-same _ _ _ _ (take-same forgot_per_ip v.ip v s t same) λ s1 t1 same1 from_s from_t.
        then-same _ _ _ _ (take-same forgot_per_email (lower address) v s1 t1 same1)
          λ s2 t2 same2 from_s1 from_t1.
            sent-same _ _ s2 t2
              (one_row address s.db s2.db h (
                from_s1
                ∙ take-db forgot_per_email (lower address) v s1
                ∙ from_s
                ∙ take-db forgot_per_ip v.ip v s))
              (one_row address t.db t2.db k (
                from_t1
                ∙ take-db forgot_per_email (lower address) v t1
                ∙ from_t
                ∙ take-db forgot_per_ip v.ip v t))
              same2
