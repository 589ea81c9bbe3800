-- ===== src/Accounts/Telegram/Counting.antt =====
-- How many rows pass a test after one row was written over others. No code of its own.
use vpn_infrastructure_showc.Base.{
  ◌++◌, ap, count-append, length, length-select, sym, ◌∙◌, Bool-cases, inl, inr, ◌+◌, ◌≤◌, ◌≡◌,
  refl, Bool, true, false, not, ◌&&◌, List, [], ◌∷◌, arith, count, select, update,
}

module _ {A : Type 0} (p q : A → Bool) (y : A) where
  pub count-update_same :
      (xs : List A)
      → ((x : A) → q x ≡ true → p x ≡ p y)
      → count p (update q (λ _. y) xs) ≡ count p xs
  count-update_same [] h = refl
  count-update_same (x ∷ xs) h = ground (arith, h x, count-update_same xs h)

  pub count-update_fewer : (xs : List A) → p y ≡ false → count p (update q (λ _. y) xs) ≤ count p xs
  count-update_fewer [] h = omega arith
  count-update_fewer (x ∷ xs) h = ground (arith, h, count-update_fewer xs h)

  -- the rows outside the write that pass, and those written
  pub count-update_le :
      (xs : List A) → count p (update q (λ _. y) xs) ≤ count q xs + count (λ x. p x && not (q x)) xs
  count-update_le [] = omega arith
  count-update_le (x ∷ xs) = ground (arith, count-update_le xs)

module _ {A : Type 0} (p q : A → Bool) where
  pub none-outside : (xs : List A) → select p xs ≡ [] → count (λ x. p x && not (q x)) xs ≡ 0
  none-outside [] e = refl
  none-outside (x ∷ xs) e = ground (arith, none-outside xs)

  pub one-inside :
      (xs : List A) (o : A)
      → select p xs ≡ o ∷ []
      → q o ≡ true
      → count (λ x. p x && not (q x)) xs ≡ 0
  one-inside [] o e h = refl
  one-inside (x ∷ xs) o e h = ground (arith, h, none-outside xs, one-inside xs o)

  outside_le : (xs : List A) → count (λ x. p x && not (q x)) xs ≤ count p xs
  outside_le [] = omega arith
  outside_le (x ∷ xs) = ground (arith, outside_le xs)

  counted :
      (r : A → Bool) (xs : List A) (o : A) → select r xs ≡ o ∷ [] → p o ≡ true → 1 ≤ count p xs
  counted r [] o e h = ground arith
  counted r (x ∷ xs) o e h = ground (arith, h, counted r xs o)

  -- a row that passes both tests leaves no room for another outside
  pub none-beside :
      (r : A → Bool) (xs : List A) (o : A)
      → select r xs ≡ o ∷ []
      → p o ≡ true
      → q o ≡ true
      → count p xs ≤ 1
      → count (λ x. p x && not (q x)) xs ≡ 0
  none-beside r [] o e h k le = refl
  none-beside r (x ∷ xs) o e h k le =
      ground (arith, h, k, outside_le xs, counted r xs o, none-beside r xs o)

module _ {A : Type 0} (p q : A → Bool) (y : A) where
  -- a row written over by one that answers a test alike
  pub count-keep :
      (r : A → Bool) (xs : List A) (o : A)
      → select r xs ≡ o ∷ []
      → p y ≡ p o
      → q o ≡ true
      → count q xs ≤ 1
      → count p xs ≤ 1
      → count p (update q (λ _. y) xs) ≤ 1
  count-keep r xs o one alike own few le = elim (Bool-cases (p y)) [
    | inr other ↦ omega (arith, le, count-update_fewer p q y xs other)
    | inl held ↦
        omega (
          arith,
          few,
          count-update_le p q y xs,
          none-beside p q r xs o one (sym alike ∙ held) own le,
        )
  ]

-- one row more keeps a test that no row passed to one row
pub count-fresh :
    {A : Type 0} (p : A → Bool) (xs : List A) (y : A)
    → count p xs ≤ 1
    → (p y ≡ true → count p xs ≡ 0)
    → count p (xs ++ y ∷ []) ≤ 1
count-fresh p xs y h k = elim (Bool-cases (p y)) [
  | inl same ↦ rw (count-append p xs (y ∷ [])) (ground (arith, same, k same))
  | inr other ↦ rw (count-append p xs (y ∷ [])) (ground (arith, other, h))
]

pub none-counted : {A : Type 0} (p : A → Bool) (xs : List A) → select p xs ≡ [] → count p xs ≡ 0
none-counted p xs none_there = sym (length-select p xs) ∙ ap length none_there
