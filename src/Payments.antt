-- ===== src/Payments.antt =====
-- pwa/api/payment.py: orders and the callbacks of the two gateways. The calls to the gateways are
-- an interface.
pub mod Orders
pub mod Callbacks
mod Examples
use vpn_infrastructure_showc.Base.{ℕ, String, Option, none, some, List, [], ◌∷◌, ℤ}
use vpn_infrastructure_showc.Exec.{Exec, ok, err, failure}

-- what Platega answers to a new transaction
pub record Created : Type 0 where
  pub transaction : Option String
  pub url : Option String

-- what Platega says of a transaction
pub record Status : Type 0 where
  pub status : Option String
  pub amount : Option ℤ

-- The gateways. An answer is none where the call raised; Platega's status of a transaction that it
-- does not know is none too.
pub record Gateways (W : Type 0) : Type 0 where
  -- `platega.create_transaction` of an amount, a currency and an order
  pub create_transaction : ℤ → String → ℕ → W → Option Created × W
  -- `platega.fetch_status`
  pub fetch_status : String → W → Option (Option Status) × W
  -- `heleket.create_invoice`: its key and page
  pub create_invoice : ℤ → String → ℕ → W → Option Created × W

-- `scalar_one_or_none()` on the rows of a query: several rows raise
abbrev pub one_or_none : {S A : Type 0} → List A → Exec S (Option A)
one_or_none [] s = (ok none, s)
one_or_none (x ∷ []) s = (ok (some x), s)
one_or_none (x ∷ y ∷ xs) s = (err failure, s)
