-- ===== src/Devices/Reading/Examples.antt =====
-- A customer asks for a link to its device and opens it.
use vpn_infrastructure_showc.Base.{Bool, not, ℕ, ◌≡◌, refl, String, some, [], ◌∷◌, arith}
use vpn_infrastructure_showc.Bot.{contains}
use vpn_infrastructure_showc.Exec.{ok, err, http}
use vpn_infrastructure_showc.Nodes.{Session}
use vpn_infrastructure_showc.Devices.Reading.{config_raw}
use vpn_infrastructure_showc.Devices.Reading.Signed.{
  request_address, DownloadLink, Token, config_download, config_download_link, dl_sig,
}
use vpn_infrastructure_showc.Devices.Reading.Link.{config_download-config_download_link}
use vpn_infrastructure_showc.PyText.{decimal}
use vpn_infrastructure_showc.Subscriptions.{has_access, has_active_subscription}
use vpn_infrastructure_showc.Sample.{node, device, customer, session}

abbrev one_device : Session ℕ
one_device = session (device "paid" "10.88.88.42" ∷ [])

-- a stand-in for the signature
abbrev sign : String → String
sign t = t

-- the router takes a parameter of an address from one segment
abbrev one_segment : String → Bool
one_segment t = not (contains t "/")

-- half a second into its second, a link is made; it is opened 118 seconds later, and 121
config_download-config_download_link_example :
    (link : DownloadLink) × (config_download_link node sign "alice" 8 1000 1000500000 one_device
      ≡ (ok link, one_device))
    × (request_address node sign one_segment link.path 1100 1118500000 one_device
        ≡ config_raw node "alice" 8 1000 one_device)
    × (request_address node sign one_segment link.path 1100 1121500000 one_device
        ≡ (err (http 404 "Not found"), one_device))
unfolding has_access has_active_subscription
config_download-config_download_link_example =
    config_download-config_download_link node sign one_segment "alice" 8 1000 1000500000 1100
      one_device (customer 1 2000) (device "paid" "10.88.88.42") refl refl refl refl 1118500000
      1121500000 refl refl refl (omega arith) (omega arith)

-- a device named "a/b" gets a link that reaches nothing
unroutable :
    request_address node sign one_segment
      (record {
        token = record { config_id = 8; exp = 1120; sig = "dl:8:1120" };
        filename = "a/b.conf";
      })
      1000
      1000500000
      one_device
    ≡ (err (http 404 "Not Found"), one_device)
unfolding request_address
unroutable = refl

abbrev genuine : Token
genuine = record { config_id = 8; exp = 1120; sig = "dl:8:1120" }

expired :
    config_download node sign (some genuine) "device.conf" 1121 1121000000 one_device
    ≡ (err (http 404 "Not found"), one_device)
unfolding config_download dl_sig decimal
expired = refl

forged :
    config_download node sign
      (some (record genuine { exp = 9120 }))
      "device.conf"
      1121
      1121000000
      one_device
    ≡ (err (http 404 "Not found"), one_device)
unfolding config_download dl_sig decimal
forged = refl
