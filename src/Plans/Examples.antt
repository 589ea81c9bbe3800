-- ===== src/Plans/Examples.antt =====
-- Plans looked up by current and by legacy names.
use vpn_infrastructure_showc.Base.{◌≡◌, refl, none, some}
use vpn_infrastructure_showc.Plans.{plan_info, config_limit}

family_is_extended : config_limit (some "Family") ≡ 5
unfolding config_limit
family_is_extended = refl

unknown_plan : (config_limit (some "gold") ≡ 1) × (plan_info "" ≡ none)
unfolding config_limit
unknown_plan = (refl, refl)

basic_found :
    plan_info "Basic"
    ≡ some (record { tier = "basic"; configs = 2; days = 30; amount = 350; currency = "RUB" })
unfolding plan_info
basic_found = refl
