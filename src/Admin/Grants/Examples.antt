-- ===== src/Admin/Grants/Examples.antt =====
-- Tests and witnesses for grants.
use vpn_infrastructure_showc.Base.{◌≡◌, refl, [], ◌∷◌}
use vpn_infrastructure_showc.PyText.{strip}
use vpn_infrastructure_showc.Exec.{err, http}
use vpn_infrastructure_showc.Plans.{is_on_sale}
use vpn_infrastructure_showc.Sample.{node, session, device}
use vpn_infrastructure_showc.Admin.Grants.{grant, grant_found}
use vpn_infrastructure_showc.Admin.Grants.Result.{GrantOutcome, grant-outcome}

unknown_plan : (grant node "alice" "gold" 1000 (session [])).0 ≡ err (http 422 "Unknown plan")
unfolding grant is_on_sale
unknown_plan = refl

no_such_user : (grant node "eve" "basic-1m" 1000 (session [])).0 ≡ err (http 404 "User not found")
unfolding grant is_on_sale strip grant_found
no_such_user = refl

grant-outcome_example :
    GrantOutcome node " alice" "basic-1m" 1000
      (session (device "paid" "10.88.88.42" ∷ []))
      (grant node " alice" "basic-1m" 1000 (session (device "paid" "10.88.88.42" ∷ [])))
grant-outcome_example =
    grant-outcome node " alice" "basic-1m" 1000 (session (device "paid" "10.88.88.42" ∷ [])) tt
