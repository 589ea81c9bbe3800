-- ===== src/Monitor/Report/Keys.antt =====
-- What `{row.key: row for row in rows}` holds.
use mathlib.Core.Path.{subst}
use vpn_infrastructure_showc.Base.{
  String, ◌≡◌, refl, sym, ◌∙◌, ◌||◌, none, List, [], ◌∷◌, arith, str_eq, eq_iff, any, is_some, All,
  Bool-cases, inl, inr,
}
use vpn_infrastructure_showc.Dict.{Dict, lookup, insert, lookup-insert}
use vpn_infrastructure_showc.Monitor.Report.{by_key}

-- no key has two entries
abbrev pub NodupKeys : {V : Type 0} → Dict V → Type 0
NodupKeys [] = Unit {0}
NodupKeys ((k, v) ∷ d) = (lookup k d ≡ none) × NodupKeys d

module _ {V : Type 0} where
  insert-NodupKeys : (k : String) (v : V) (d : Dict V) → NodupKeys d → NodupKeys (insert k v d)
  insert-NodupKeys k v [] u = (refl, tt)
  insert-NodupKeys k v ((j, w) ∷ d) u = elim (Bool-cases (str_eq j k)) [
    | inl same ↦ rw same u
    | inr other ↦ rw other (
      lookup-insert k j v d ∙ ground (arith, u.0, eq_iff j k, eq_iff k j),
      insert-NodupKeys k v d u.1,
    )
  ]

  insert-All :
      (E : String × V → Type 0) (k : String) (v : V) (d : Dict V)
      → E (k, v)
      → All E d
      → All E (insert k v d)
  insert-All E k v [] h hs = (h, tt)
  insert-All E k v ((j, w) ∷ d) h hs = elim (Bool-cases (str_eq j k)) [
    | inl same ↦ rw same (subst (λ i. E (i, v)) (sym ((eq_iff j k).0 same)) h, hs.1)
    | inr other ↦ rw other (hs.0, insert-All E k v d h hs.1)
  ]

module _ {V : Type 0} (key : V → String) where
  pub by_key-NodupKeys : (xs : List V) (d : Dict V) → NodupKeys d → NodupKeys (by_key key xs d)
  unfolding by_key
  by_key-NodupKeys [] d u = u
  by_key-NodupKeys (x ∷ xs) d u = by_key-NodupKeys xs _ (insert-NodupKeys (key x) x d u)

  -- every entry is one of the rows under its key
  pub by_key-All :
      (E : String × V → Type 0) (xs : List V) (d : Dict V)
      → All (λ x. E (key x, x)) xs
      → All E d
      → All E (by_key key xs d)
  unfolding by_key
  by_key-All E [] d h hs = hs
  by_key-All E (x ∷ xs) d h hs = by_key-All E xs _ h.1 (insert-All E (key x) x d h.0 hs)

  -- a key has an entry just when a row has that key
  pub lookup-by_key :
      (k : String) (xs : List V) (d : Dict V)
      → is_some (lookup k (by_key key xs d))
        ≡ (any (λ x. str_eq (key x) k) xs || is_some (lookup k d))
  unfolding by_key
  lookup-by_key k [] d = refl
  lookup-by_key k (x ∷ xs) d =
      ground (arith, lookup-by_key k xs (insert (key x) x d), lookup-insert (key x) k x d)
