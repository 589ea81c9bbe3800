-- ===== src/Exec.antt =====
-- Handlers that read and write a state, call other hosts and may raise. The state comes back
-- beside an error too: what was written before a raise stays in the session, uncommitted.
use vpn_infrastructure_showc.Base.{ℕ, String}

pub data Error : Type 0 where
  -- `HTTPException(status_code, detail)`
  http : ℕ → String → Error
  -- any other exception
  failure : Error

pub data Result {ℓ} (A : Type ℓ) : Type ℓ where
  ok : A → Result A
  err : Error → Result A

abbrev pub Exec {ℓ} : Type ℓ → Type ℓ → Type ℓ
Exec S A = S → Result A × S

module _ {ℓ} {S A : Type ℓ} where
  abbrev pub pure : A → Exec S A
  pure a s = (ok a, s)

module _ {ℓ} {S A B : Type ℓ} where
  abbrev pub then_do : (A → Exec S B) → Result A × S → Result B × S
  then_do f (ok a, s) = f a s
  then_do f (err e, s) = (err e, s)

  infixl 10 ◌>>=◌
  abbrev pub ◌>>=◌ : Exec S A → (A → Exec S B) → Exec S B
  ◌>>=◌ m f s = then_do f (m s)

infixl 10 ◌>>◌
abbrev pub ◌>>◌ : {S B : Type 0} → Exec S (Unit {0}) → Exec S B → Exec S B
m >> k = m >>= λ _. k
