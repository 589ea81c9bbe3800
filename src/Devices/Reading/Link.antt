-- ===== src/Devices/Reading/Link.antt =====
-- A signed link gives the file that the account itself downloads.
use text.Mathlib.TextPositions.{eq_refl}
use vpn_infrastructure_showc.Base.{
  ◌*◌, ◌/◌, ◌<◌, Bool, ℕ, String, ◌≡◌, refl, sym, ap, ◌∙◌, true, false, some, [], ◌∷◌, ◌+◌, ◌≤◌,
  ◌&&◌, ◌==◌, str_eq, find, select, find-holds, first-select, first, ltb, arith,
}
use vpn_infrastructure_showc.Model.{User, Config}
use vpn_infrastructure_showc.Exec.{err, http, ok, ◌>>=◌}
use vpn_infrastructure_showc.Nodes.{Environment}
use vpn_infrastructure_showc.Provisioner.Issue.{State}
use vpn_infrastructure_showc.Subscriptions.{has_access}
use vpn_infrastructure_showc.Payments.Orders.{current_user}
use vpn_infrastructure_showc.Devices.{own_device}
use vpn_infrastructure_showc.Devices.Reading.{
  own_open, config_or_404, file_of, conf_name, config_raw,
}
use vpn_infrastructure_showc.Devices.Reading.Signed.{
  micros, request_address, dl_ttl, DownloadLink, link_to, serve, serve_owner, open_device, dl_sig,
  config_download_link, config_download,
}

not_past : (a b : ℕ) → a ≤ b → ltb b a ≡ false
not_past a b h = ground (arith, h)

past : (a b : ℕ) → a < b → ltb a b ≡ true
past a b h = ground (arith, h)

module _ (env : Environment) (hmac_hex : String → String) (is_segment : String → Bool)
    (sub : String) (key now clock later : ℕ) (s : State env) (user : User) (c : Config)
    (one : select (λ (u : User). str_eq u.username sub) s.db.users ≡ user ∷ [])
    (own : own_device key user s.db ≡ c ∷ []) (only : open_device env hmac_hex key s.db ≡ c ∷ [])
    (owner : find (λ (u : User). u.id == c.user_id) s.db.users ≡ some user) where
  abbrev issued_link : DownloadLink
  issued_link =
      let exp = clock / micros + dl_ttl in
      record {
        path = record {
          token = record { config_id = c.id; exp = exp; sig = dl_sig env hmac_hex c.id exp };
          filename = conf_name c.name;
        };
        file_name = conf_name c.name;
      }

  device-key : key ≡ c.id
  device-key = ground (
    arith,
    find-holds (λ (x : Config). (x.id == key) && x.is_active) s.db.configs c
        (sym (first-select (λ (x : Config). (x.id == key) && x.is_active) s.db.configs)
          ∙ ap first only),
  )

  only_device : open_device env hmac_hex c.id s.db ≡ c ∷ []
  only_device = ap (λ k. open_device env hmac_hex k s.db) (sym device-key) ∙ only

  -- the account's request reaches its device
  reaches :
      has_access user now ≡ true → (current_user env sub >>= own_open env key now) s ≡ (ok c, s)
  unfolding current_user own_open config_or_404
  reaches live = rw (one, live, own) refl

  linked :
      has_access user now ≡ true
      → config_download_link env hmac_hex sub key now clock s ≡ (ok issued_link, s)
  unfolding config_download_link link_to
  linked live = rw (reaches live) refl

  raw : has_access user now ≡ true → config_raw env sub key now s ≡ file_of env c s
  unfolding config_raw
  raw live = rw (reaches live) refl

  -- the time is up a whole number of seconds after the one in which the link was made
  in_time : (at : ℕ) → at ≤ clock + 119 * 1000000 → at ≤ (clock / micros + dl_ttl) * micros
  in_time at soon = omega arith

  too_late : (at : ℕ) → clock + 120 * 1000000 < at → (clock / micros + dl_ttl) * micros < at
  too_late at late = omega arith

  served :
      (at : ℕ)
      → has_access user later ≡ true
      → at ≤ clock + 119 * 1000000
      → config_download env hmac_hex (some issued_link.path.token) (conf_name c.name) later at s
        ≡ file_of env c s
  unfolding config_download config_or_404 serve serve_owner
  served at live fresh =
      rw
        (
          not_past at ((clock / micros + dl_ttl) * micros) (in_time at fresh),
          eq_refl (dl_sig env hmac_hex c.id (clock / micros + dl_ttl)),
          only_device,
          owner,
          live,
        )
        refl

  expired :
      (at : ℕ)
      → clock + 120 * 1000000 < at
      → config_download env hmac_hex (some issued_link.path.token) (conf_name c.name) later at s
        ≡ (err (http 404 "Not found"), s)
  unfolding config_download
  expired at late = rw (past ((clock / micros + dl_ttl) * micros) at (too_late at late)) refl

  -- An account with one active device under a key, which is the only one under that key, asks for
  -- a link to it while it has access. The link is given. If the router reads the device's file name
  -- as one segment, whoever requests the link's address within 119 seconds, while the account has
  -- access still, is served exactly what the account's own download of that device answered, and
  -- whoever requests it more than 120 seconds later is answered 404.
  pub config_download-config_download_link :
      (soon late : ℕ)
      → has_access user now ≡ true
      → has_access user later ≡ true
      → is_segment (conf_name c.name) ≡ true
      → soon ≤ clock + 119 * 1000000
      → clock + 120 * 1000000 < late
      → (link : DownloadLink) × (config_download_link env hmac_hex sub key now clock s
          ≡ (ok link, s))
        × (request_address env hmac_hex is_segment link.path later soon s
            ≡ config_raw env sub key now s)
        × (request_address env hmac_hex is_segment link.path later late s
            ≡ (err (http 404 "Not found"), s))
  unfolding request_address
  config_download-config_download_link soon late live live_later readable fresh past_end = (
    issued_link,
    linked live,
    rw readable (served soon live_later fresh ∙ sym (raw live)),
    rw readable (expired late past_end),
  )
