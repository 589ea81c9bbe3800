-- ===== src/Plans.antt =====
-- pwa/config.py: the plans on sale, the names from before periods existed, and device limits.
pub mod Limits
mod Examples
use vpn_infrastructure_showc.Base.{
  ℕ, String, Option, none, some, List, [], ◌∷◌, str_eq, if◌then◌else◌,
}

pub record Plan : Type 0 where
  pub tier : String
  pub configs : ℕ
  pub days : ℕ
  pub amount : ℕ
  pub currency : String

-- `PLANS`; the amounts are decimal texts there, read by `int` wherever they are used
abbrev pub plans : List (String × Plan)
plans =
    ("basic-1m", record { tier = "basic"; configs = 2; days = 30; amount = 350; currency = "RUB" })
    ∷ (
      "basic-3m",
      record { tier = "basic"; configs = 2; days = 90; amount = 900; currency = "RUB" },
    )
    ∷ (
      "basic-6m",
      record { tier = "basic"; configs = 2; days = 180; amount = 1700; currency = "RUB" },
    )
    ∷ ("ext-1m", record { tier = "ext"; configs = 5; days = 30; amount = 650; currency = "RUB" })
    ∷ ("ext-3m", record { tier = "ext"; configs = 5; days = 90; amount = 1700; currency = "RUB" })
    ∷ ("ext-6m", record { tier = "ext"; configs = 5; days = 180; amount = 3200; currency = "RUB" })
    ∷ []

abbrev pub legacy_plan_aliases : List (String × String)
legacy_plan_aliases = ("Basic", "basic-1m") ∷ ("Family", "ext-1m") ∷ []

abbrev pub default_config_limit : ℕ
default_config_limit = 1

-- `d.get(key)` on a dictionary with text keys
unfoldable pub get_by_name {ℓ} : {V : Type ℓ} → String → List (String × V) → Option V
get_by_name k [] = none
get_by_name k ((j, v) ∷ d) = let rest = get_by_name k d in if str_eq j k then some v else rest

-- a legacy name is one that `PLANS` does not have
by_alias : Option String → Option Plan
unfolding get_by_name
by_alias none = none
by_alias (some key) = get_by_name key plans

current_or_alias : String → Option Plan → Option Plan
unfolding by_alias get_by_name
current_or_alias key (some plan) = some plan
current_or_alias key none = by_alias (get_by_name key legacy_plan_aliases)

-- `plan_info` of a name; the empty name is no plan
unfoldable pub plan_info : String → Option Plan
unfolding current_or_alias get_by_name
plan_info key = if str_eq key "" then none else current_or_alias key (get_by_name key plans)

-- `key in PLANS`
unfoldable pub is_on_sale : String → Option Plan
unfolding get_by_name
is_on_sale key = get_by_name key plans

limit_of : Option Plan → ℕ
limit_of none = default_config_limit
limit_of (some plan) = plan.configs

-- `config_limit`, of an account's plan, which may be missing
unfoldable pub config_limit : Option String → ℕ
unfolding plan_info limit_of
config_limit none = default_config_limit
config_limit (some key) = limit_of (plan_info key)
