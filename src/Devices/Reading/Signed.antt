-- ===== src/Devices/Reading/Signed.antt =====
-- pwa/api/config.py: a link to a device's file, signed and good for two minutes,
-- counted from the second it was made in. `time.time()` is a clock in microseconds here.
use Prim.Native.String.{◌++◌, slice}
use vpn_infrastructure_showc.Base.{
  Bool, ◌*◌, ◌/◌, ℕ, ◌+◌, String, ◌&&◌, ◌||◌, not, Option, none, some, List, ltb, ◌==◌, str_eq,
  find, select, if◌then◌else◌,
}
use vpn_infrastructure_showc.PyText.{decimal}
use vpn_infrastructure_showc.Model.{User, Config, Portal}
use vpn_infrastructure_showc.Exec.{Exec, ok, err, http, ◌>>=◌}
use vpn_infrastructure_showc.Nodes.{Environment}
use vpn_infrastructure_showc.Provisioner.Issue.{State}
use vpn_infrastructure_showc.Subscriptions.{has_access}
use vpn_infrastructure_showc.Payments.{one_or_none}
use vpn_infrastructure_showc.Payments.Orders.{current_user}
use vpn_infrastructure_showc.Devices.Reading.{Download, conf_name, config_or_404, own_open, file_of}

abbrev pub dl_ttl : ℕ
dl_ttl = 120

abbrev pub micros : ℕ
micros = 1000000

-- A link's token, "id.exp.sig", by its three parts. A text that does not split into three, or
-- whose second part is no number, is `none` where a token is read.
pub record Token : Type 0 where
  pub config_id : ℕ
  pub exp : ℕ
  pub sig : String

-- the address "/api/public/dl/{token}/{filename}", by what it is put together from
pub record LinkPath : Type 0 where
  pub token : Token
  pub filename : String

-- what `config_download_link` answers with
pub record DownloadLink : Type 0 where
  pub path : LinkPath
  pub file_name : String

-- `hmac_hex` is the hexadecimal HMAC-SHA256 of a text under the portal's secret
module _ (env : Environment) (hmac_hex : String → String) where
  -- `_dl_sig`
  unfoldable pub dl_sig : ℕ → ℕ → String
  dl_sig key exp = slice (hmac_hex ("dl:" ++ (decimal key ++ (":" ++ decimal exp)))) 0 32

  unfoldable pub link_to : ℕ → Config → Exec (State env) DownloadLink
  link_to clock c s =
      let exp = clock / micros + dl_ttl in
      (
        ok (record {
          path = record {
            token = record { config_id = c.id; exp = exp; sig = dl_sig c.id exp };
            filename = conf_name c.name;
          };
          file_name = conf_name c.name;
        }),
        s,
      )

  -- `config_download_link`
  unfoldable pub config_download_link : String → ℕ → ℕ → ℕ → Exec (State env) DownloadLink
  config_download_link sub key now clock s =
      ((current_user env sub >>= own_open env key now) >>= link_to clock) s

  -- the owner of the device has access still
  unfoldable pub serve_owner : ℕ → Config → Option User → Exec (State env) Download
  serve_owner now c none s = (err (http 404 "Not found"), s)
  serve_owner now c (some owner) s =
      if has_access owner now then file_of env c s else (err (http 404 "Not found"), s)

  unfoldable pub serve : ℕ → Config → Exec (State env) Download
  serve now c s = serve_owner now c (find (λ (u : User). u.id == c.user_id) s.db.users) s

  -- the active device with that key, whoever holds it
  abbrev pub open_device : ℕ → Portal → List Config
  open_device key db = select (λ c. (c.id == key) && c.is_active) db.configs

  -- `config_download`; the name in the address is not read
  unfoldable pub config_download : Option Token → String → ℕ → ℕ → Exec (State env) Download
  config_download none filename now clock s = (err (http 404 "Not found"), s)
  config_download (some t) filename now clock s =
      let served =
        ((one_or_none (open_device t.config_id s.db) >>= config_or_404 env "Not found")
            >>= serve now)
          s in
      if ltb (t.exp * micros) clock || not (str_eq t.sig (dl_sig t.config_id t.exp))
      then (err (http 404 "Not found"), s)
      else served

  -- A request for an address. The router hands it to `config_download` if it reads the name, which
  -- stands in the address as it is, as one segment; `is_segment` tells which names it reads so.
  unfoldable pub request_address : (String → Bool) → LinkPath → ℕ → ℕ → Exec (State env) Download
  request_address is_segment p now clock s =
      if is_segment p.filename
      then config_download (some p.token) p.filename now clock s
      else (err (http 404 "Not Found"), s)
