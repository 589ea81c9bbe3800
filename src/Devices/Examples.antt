-- ===== src/Devices/Examples.antt =====
-- A customer with one device adds a second one, and deletes the first.
use vpn_infrastructure_showc.Base.{ℕ, none, [], ◌∷◌}
use vpn_infrastructure_showc.Nodes.{Session}
use vpn_infrastructure_showc.Devices.{NewDevice, add_device}
use vpn_infrastructure_showc.Devices.Adding.{AddOutcome, add_device-outcome}
use vpn_infrastructure_showc.Sample.{node, device, session}

abbrev one_device : Session ℕ
one_device = session (device "paid" "10.88.88.42" ∷ [])

abbrev tablet : NewDevice
tablet = record { name = "tablet"; location = none }

add_device-outcome_example :
    AddOutcome node "alice" tablet 1000 one_device (add_device node "alice" tablet 1000 one_device)
add_device-outcome_example = add_device-outcome node "alice" tablet 1000 one_device
