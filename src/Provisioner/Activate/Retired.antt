-- ===== src/Provisioner/Activate/Retired.antt =====
-- Which devices an activation may take off: the trial devices of the account, and no others.
use vpn_infrastructure_showc.Base.{
  not, ◌≡◌, refl, sym, ◌∙◌, ap, ◌⊎◌, inl, inr, Bool, true, false, ◌&&◌, List, [], ◌∷◌, arith, ◌==◌,
  ==_iff, str_eq, select, update, All, Bool-cases,
}
use vpn_infrastructure_showc.Model.{User, Config, Portal, save_config}
use vpn_infrastructure_showc.Provisioner.Activate.{held_by, paid_devices}

-- a row of a table
pub data IsIn {A : Type 0} (a : A) : List A → Type 0 where
  here : {xs : List A} → IsIn a (a ∷ xs)
  there : {x : A} {xs : List A} → IsIn a xs → IsIn a (x ∷ xs)

-- An active trial device of the account, as a row of the tables.
pub record IsTrialOf (user : User) (db : Portal) (c : Config) : Type 0 where
  pub stored : IsIn c db.configs
  pub of_user : (c.user_id == user.id) ≡ true
  pub active : c.is_active ≡ true
  pub trial : str_eq c.kind "trial" ≡ true

-- A row stays as it is, or it is that of a trial device and is no longer active.
abbrev pub IsKeptOrRetired : User → Portal → Config → Config → Type 0
IsKeptOrRetired user db before after =
    (after ≡ before)
    ⊎ ((c : Config) × IsTrialOf user db c
        × (before.id ≡ c.id)
        × (after ≡ record c { is_active = false }))

-- row by row, in the order of the table
abbrev pub Each : (Config → Config → Type 0) → List Config → List Config → Type 0
Each R [] [] = Unit
Each R [] (y ∷ ys) = ⊥
Each R (x ∷ xs) [] = ⊥
Each R (x ∷ xs) (y ∷ ys) = R x y × Each R xs ys

module _ (user : User) (db : Portal) where
  pub Each-refl : (xs : List Config) → Each (IsKeptOrRetired user db) xs xs
  Each-refl [] = tt
  Each-refl (x ∷ xs) = (inl refl, Each-refl xs)

  kept-id : (x y : Config) → IsKeptOrRetired user db x y → x.id ≡ y.id
  kept-id x y (inl same) = ap (λ r. r.id) (sym same)
  kept-id x y (inr (c, trial, own, is)) = own ∙ ap (λ r. r.id) (sym is)

  Each-update :
      (c : Config) (xs ys : List Config)
      → IsTrialOf user db c
      → Each (IsKeptOrRetired user db) xs ys
      → Each
          (IsKeptOrRetired user db)
          xs
          (update (λ r. r.id == c.id) (λ _. record c { is_active = false }) ys)
  Each-update c [] [] trial h = tt
  Each-update c [] (y ∷ ys) trial h = absurd h
  Each-update c (x ∷ xs) [] trial h = absurd h
  Each-update c (x ∷ xs) (y ∷ ys) trial (r, h) = elim (Bool-cases (y.id == c.id)) [
    | inl same ↦ rw same (
      inr (c, trial, kept-id x y r ∙ (==_iff y.id c.id).0 same, refl),
      Each-update c xs ys trial h,
    )
    | inr other ↦ rw other (r, Each-update c xs ys trial h)
  ]

  pub Each-save_config :
      (c : Config) (xs : List Config) (b : Portal)
      → IsTrialOf user db c
      → Each (IsKeptOrRetired user db) xs b.configs
      → Each (IsKeptOrRetired user db) xs (save_config (record c { is_active = false }) b).configs
  unfolding save_config
  Each-save_config c xs b trial h = Each-update c xs b.configs trial h

select-both :
    {A : Type 0} (P : A → Type 0) (p : A → Bool) (xs : List A)
    → ((x : A) → IsIn x xs → P x)
    → All (λ x. P x × (p x ≡ true)) (select p xs)
select-both P p [] h = tt
select-both P p (x ∷ xs) h = elim (Bool-cases (p x)) [
  | inl passed ↦ rw passed ((h x here, passed), select-both P p xs λ y m. h y (there m))
  | inr fails ↦ rw fails (select-both P p xs λ y m. h y (there m))
]

select-more :
    {A : Type 0} (P Q : A → Type 0) (p : A → Bool) (xs : List A)
    → All P xs
    → ((x : A) → P x → p x ≡ true → Q x)
    → All Q (select p xs)
select-more P Q p [] h k = tt
select-more P Q p (x ∷ xs) h k = elim (Bool-cases (p x)) [
  | inl passed ↦ rw passed (k x h.0 passed, select-more P Q p xs h.1 k)
  | inr fails ↦ rw fails (select-more P Q p xs h.1 k)
]

-- what the query of the trial devices gives
pub trials-IsTrialOf :
    (user : User) (db : Portal)
    → All (IsTrialOf user db) (select (λ c. str_eq c.kind "trial") (held_by user db))
unfolding held_by
trials-IsTrialOf user db =
    select-more _ (IsTrialOf user db) (λ c. str_eq c.kind "trial") (held_by user db)
      (select-both (λ c. IsIn c db.configs) (λ c. (c.user_id == user.id) && c.is_active) db.configs
        λ c m. m)
      λ c h trial. record {
        stored = h.0;
        of_user = ground (arith, h.1);
        active = ground (arith, h.1);
        trial = trial;
      }

select-select :
    {A : Type 0} (p q : A → Bool) (xs : List A)
    → select q (select p xs) ≡ select (λ x. p x && q x) xs
select-select p q [] = refl
select-select p q (x ∷ xs) = elim (Bool-cases (p x)) [
  | inl passed ↦ rw passed (ground (arith, select-select p q xs))
  | inr fails ↦ rw fails (select-select p q xs)
]

-- The active devices of an account that are not of its trial.
abbrev pub paid_rows : User → Portal → List Config
paid_rows user db =
    select (λ c. ((c.user_id == user.id) && c.is_active) && not (str_eq c.kind "trial")) db.configs

pub paid_devices-rows : (user : User) (db : Portal) → paid_devices user db ≡ paid_rows user db
unfolding held_by
paid_devices-rows user db = select-select _ _ db.configs
