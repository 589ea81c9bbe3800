-- ===== src/Plans/Limits.antt =====
-- What every plan in the table has, whichever name it is found by.
use vpn_infrastructure_showc.Base.{
  ◌<◌, ◌≤◌, String, ◌≡◌, Option, none, some, List, [], ◌∷◌, arith, Option-cases, inl, inr, All,
}
use vpn_infrastructure_showc.Plans.{
  Plan, plans, legacy_plan_aliases, get_by_name, by_alias, current_or_alias, plan_info, limit_of,
  config_limit,
}

-- what is found under a name is one of the entries
get_by_name-All {ℓ κ} :
    {V : Type ℓ} (P : V → Type κ) (k : String) (d : List (String × V)) (v : V)
    → All (λ e. P e.1) d
    → get_by_name k d ≡ some v
    → P v
unfolding get_by_name
get_by_name-All P k [] v h e = ground arith
get_by_name-All P k (x ∷ d) v h e = grind (arith, get_by_name-All P k d v h.1)

-- A plan sells a positive time and price, and two or five devices.
abbrev pub IsSound : Plan → Type 0
IsSound p = (0 < p.days) × (0 < p.amount) × (2 ≤ p.configs) × (p.configs ≤ 5)

plans-IsSound : All (λ e. IsSound e.1) plans
plans-IsSound = omega arith

-- A plan found under any name, old or new, has a positive period and price and two to five devices.
pub plan_info-IsSound : (key : String) (p : Plan) → plan_info key ≡ some p → IsSound p
unfolding plan_info current_or_alias by_alias
plan_info-IsSound key p h = elim (Option-cases (get_by_name key plans)) [
  | inl missing ↦ elim (Option-cases (get_by_name key legacy_plan_aliases)) [
    | inl unknown ↦ ground arith
    | inr (name, alias) ↦ get_by_name-All IsSound name plans p plans-IsSound (ground arith)
  ]
  | inr (q, found) ↦ get_by_name-All IsSound key plans p plans-IsSound (ground arith)
]

-- Every account may keep at least one device and at most five, whatever its plan is called.
config_limit_bounds : (key : Option String) → (1 ≤ config_limit key) × (config_limit key ≤ 5)
unfolding config_limit limit_of
config_limit_bounds none = omega arith
config_limit_bounds (some key) = elim (Option-cases (plan_info key)) [
  | inl unknown ↦ ground arith
  | inr (p, found) ↦ ground (arith, plan_info-IsSound key p found)
]
