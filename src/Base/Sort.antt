-- ===== src/Base/Sort.antt =====
-- `ORDER BY key DESC`: a stable sort, largest key first. No code of its own.
use Prim.Native.Nat.{ℕ, ◌≤◌}
use mathlib.Core.Path.{◌≡◌, refl, ◌∙◌}
use mathlib.Core.List.{List, [], ◌∷◌}
use mathlib.Core.Bool.{Bool}
use mathlib.Core.Logic.{inl, inr}
use native.Mathlib.Omega.{arith}
use vpn_infrastructure_showc.Base.Tests.{ltb, Bool-cases, if◌then◌else◌}
use vpn_infrastructure_showc.Base.Lists.{count, All}

module _ {A : Type 0} (key : A → ℕ) where
  unfoldable pub insert_desc : A → List A → List A
  insert_desc x [] = x ∷ []
  insert_desc x (y ∷ ys) =
      let rest = insert_desc x ys in if ltb (key x) (key y) then y ∷ rest else x ∷ y ∷ ys

  -- rows with one key stay in the table's order
  unfoldable pub sort_desc : List A → List A
  sort_desc [] = []
  sort_desc (x ∷ xs) = insert_desc x (sort_desc xs)

  -- No row has a larger key than one before it.
  abbrev pub IsDescending : List A → Type 0
  IsDescending [] = Unit {0}
  IsDescending (x ∷ xs) = All (λ y. key y ≤ key x) xs × IsDescending xs

  All-le : (a b : ℕ) (xs : List A) → a ≤ b → All (λ y. key y ≤ a) xs → All (λ y. key y ≤ b) xs
  All-le a b [] le h = tt
  All-le a b (x ∷ xs) le h = (omega (arith, le, h.0), All-le a b xs le h.1)

  insert_desc-All :
      (a : ℕ) (x : A) (xs : List A)
      → key x ≤ a
      → All (λ y. key y ≤ a) xs
      → All (λ y. key y ≤ a) (insert_desc x xs)
  unfolding insert_desc
  insert_desc-All a x [] le h = (le, tt)
  insert_desc-All a x (y ∷ ys) le h = elim (Bool-cases (ltb (key x) (key y))) [
    | inl less ↦ rw less (h.0, insert_desc-All a x ys le h.1)
    | inr more ↦ rw more (le, h)
  ]

  insert_desc-IsDescending :
      (x : A) (xs : List A) → IsDescending xs → IsDescending (insert_desc x xs)
  unfolding insert_desc
  insert_desc-IsDescending x [] h = (tt, tt)
  insert_desc-IsDescending x (y ∷ ys) h = elim (Bool-cases (ltb (key x) (key y))) [
    | inl less ↦
        rw less (
          insert_desc-All (key y) x ys (ground (arith, less)) h.0,
          insert_desc-IsDescending x ys h.1,
        )
    | inr more ↦
        rw more ((ground (arith, more), All-le (key y) (key x) ys (ground (arith, more)) h.0), h)
  ]

  pub sort_desc-IsDescending : (xs : List A) → IsDescending (sort_desc xs)
  unfolding sort_desc
  sort_desc-IsDescending [] = tt
  sort_desc-IsDescending (x ∷ xs) =
      insert_desc-IsDescending x (sort_desc xs) (sort_desc-IsDescending xs)

  count-insert_desc :
      (p : A → Bool) (x : A) (xs : List A) → count p (insert_desc x xs) ≡ count p (x ∷ xs)
  unfolding insert_desc
  count-insert_desc p x [] = refl
  count-insert_desc p x (y ∷ ys) = ground (arith, count-insert_desc p x ys)

  -- sorting keeps every row
  pub count-sort_desc : (p : A → Bool) (xs : List A) → count p (sort_desc xs) ≡ count p xs
  unfolding sort_desc
  count-sort_desc p [] = refl
  count-sort_desc p (x ∷ xs) =
      count-insert_desc p x (sort_desc xs) ∙ ground (arith, count-sort_desc p xs)
