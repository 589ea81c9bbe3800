-- ===== src/Accounts/Writes.antt =====
-- What a write of a row, and a try at a limiter, leave in the tables.
use vpn_infrastructure_showc.Base.{
  String, ◌≡◌, refl, Bool, true, false, some, List, [], ◌∷◌, arith, find, select, update,
}
use vpn_infrastructure_showc.Accounts.{Door, Visit, Server, take_try, passed}
use vpn_infrastructure_showc.RateLimit
use vpn_infrastructure_showc.RateLimit.{Limiter}

module _ {A : Type 0} (p q : A → Bool) (y : A) where
  -- rows that pass a test are none after a write of a row that does not
  select-update_none :
      (xs : List A) → p y ≡ false → select p xs ≡ [] → select p (update q (λ _. y) xs) ≡ []
  select-update_none [] h e = refl
  select-update_none (x ∷ xs) h e = ground (arith, h, select-update_none xs h)

  pub select-update_gone :
      (xs : List A) (u : A)
      → p y ≡ false
      → q u ≡ true
      → select p xs ≡ u ∷ []
      → select p (update q (λ _. y) xs) ≡ []
  select-update_gone [] u h k e = ground arith
  select-update_gone (x ∷ xs) u h k e =
      ground (arith, h, k, select-update_none xs h, select-update_gone xs u h k)

  pub find-update_row :
      (xs : List A) (u : A)
      → q y ≡ true
      → q u ≡ true
      → select p xs ≡ u ∷ []
      → find q (update q (λ _. y) xs) ≡ some y
  find-update_row [] u h k e = ground arith
  find-update_row (x ∷ xs) u h k e = ground (arith, h, k, find-update_row xs u h k)

pub passed-db : (door : Door) (r : Bool × Limiter) (s : Server) → (passed door r s).1.db ≡ s.db
unfolding passed
passed-db door (true, l) s = refl
passed-db door (false, l) s = refl

-- a limiter leaves the tables alone
pub take-db :
    (door : Door) (key : String) (v : Visit) (s : Server) → (take_try door key v s).1.db ≡ s.db
unfolding take_try
take-db door key v s = passed-db door (RateLimit.take key v.clock (s.limits door)) s
