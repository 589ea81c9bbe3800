-- ===== src/Accounts/Letters/Query.antt =====
-- What a step after a query of the accounts keeps of the tables.
use vpn_infrastructure_showc.Base.{
  ◌≡◌, refl, Bool, true, false, if◌then◌else◌, Option, none, some, List, [], ◌∷◌, select,
}
use vpn_infrastructure_showc.Model.{User, Portal}
use vpn_infrastructure_showc.Exec.{Result, ok, err, then_do, ◌>>=◌}
use vpn_infrastructure_showc.Payments.{one_or_none}
use vpn_infrastructure_showc.Accounts.{Server}
use vpn_infrastructure_showc.Accounts.Letters.{query}

module _ (P : Portal → Type 0) {A : Type 0} (p : User → Bool)
    (k : Option User → Server → Result A × Server) (s : Server) where
  rows-keep :
      (rows : List User)
      → select p s.db.users ≡ rows
      → P s.db
      → (select p s.db.users ≡ [] → P (k none s).1.db)
      → ((u : User) → select p s.db.users ≡ u ∷ [] → P (k (some u) s).1.db)
      → P (then_do k (one_or_none rows s)).1.db
  rows-keep [] e h f g = f e
  rows-keep (u ∷ []) e h f g = g u e
  rows-keep (x ∷ y ∷ rows) e h f g = h

  -- no row, one row, or a raise that changes nothing
  pub query-keep :
      P s.db
      → (select p s.db.users ≡ [] → P (k none s).1.db)
      → ((u : User) → select p s.db.users ≡ u ∷ [] → P (k (some u) s).1.db)
      → P ((query p >>= k) s).1.db
  query-keep h f g = rows-keep (select p s.db.users) refl h f g

-- whichever branch is taken
pub if-holds :
    {A : Type 0} (Q : A → Type 0) (b : Bool) (x y : A) → Q x → Q y → Q (if b then x else y)
if-holds Q true x y h k = h
if-holds Q false x y h k = k

-- a step that leaves the tables alone comes first
pub then-keep :
    (P : Portal → Type 0) {A B : Type 0} (db : Portal) (r : Result A × Server)
    (k : A → Server → Result B × Server)
    → r.1.db ≡ db
    → P db
    → ((a : A) (t : Server) → t.db ≡ db → P (k a t).1.db)
    → P (then_do k r).1.db
then-keep P db (ok a, t) k same h f = f a t same
then-keep P db (err e, t) k same h f = rw same h
