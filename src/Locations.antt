-- ===== src/Locations.antt =====
-- pwa/services/locations.py: one entry node for each location, as the environment configures them.
pub mod Choice
use vpn_infrastructure_showc.Base.{
  ℕ, String, Bool, ◌||◌, not, Option, none, some, List, [], ◌∷◌, map, str_eq, find, first, any,
  select, get_or_else, if◌then◌else◌,
}
use vpn_infrastructure_showc.PyText.{strip, split_commas}

abbrev pub default : String
default = "de"

pub record Location : Type 0 where
  pub key : String
  pub host : String
  pub public_key : String
  pub endpoint : String
  pub params : List (String × String)
  pub mtu : ℕ

-- The environment variables that the module reads. `nl_params` is what `_parse_params` makes of
-- NL_AWG_PARAMS, and `nl_mtu` what `int` makes of NL_MTU (none if it is no number); a variable
-- that is not set is the default that `os.getenv` is given.
pub record Settings : Type 0 where
  pub bridge_ip : String
  pub bridge_public_key : String
  pub bridge_endpoint : String
  pub nl_entry_ip : String
  pub nl_public_key : String
  pub nl_endpoint : String
  pub nl_params : Option (List (String × String))
  pub nl_mtu : Option ℕ
  pub locations_paused : String

-- `DE_PARAMS`
abbrev pub de_params : List (String × String)
de_params =
    ("Jc", "3")
    ∷ ("Jmin", "50")
    ∷ ("Jmax", "1000")
    ∷ ("S1", "72")
    ∷ ("S2", "146")
    ∷ ("H1", "1163059398")
    ∷ ("H2", "1787455160")
    ∷ ("H3", "970047041")
    ∷ ("H4", "133143559")
    ∷ []

-- `_germany`
unfoldable pub germany : Settings → Location
germany s = record {
  key = "de";
  host = s.bridge_ip;
  public_key = s.bridge_public_key;
  endpoint = s.bridge_endpoint;
  params = de_params;
  mtu = 1300;
}

unfoldable pub with_params : Settings → Option (List (String × String)) → Option Location
with_params s none = none
with_params s (some params) =
    let host = strip s.nl_entry_ip in
    let pub_key = strip s.nl_public_key in
    let endpoint = strip s.nl_endpoint in
    if str_eq host "" || str_eq pub_key "" || str_eq endpoint ""
    then none
    else some (record {
      key = "nl";
      host = host;
      public_key = pub_key;
      endpoint = endpoint;
      params = params;
      mtu = get_or_else s.nl_mtu 1280;
    })

-- `_netherlands`: only when every setting is there
unfoldable pub netherlands : Settings → Option Location
netherlands s = with_params s s.nl_params

abbrev pub before : Option Location → Location → List Location
before none de = de ∷ []
before (some nl) de = nl ∷ de ∷ []

-- `all_locations`: the recommended one first
unfoldable pub all_locations : Settings → List Location
all_locations s = before (netherlands s) (germany s)

-- `get`; an empty key is the default
unfoldable pub get : Settings → String → Option Location
get s key =
    let wanted = if str_eq key "" then default else key in
    find (λ loc. str_eq loc.key wanted) (all_locations s)

-- `keys`
abbrev pub keys : Settings → List String
keys s = map (λ (loc : Location). loc.key) (all_locations s)

-- `paused`
unfoldable pub paused : Settings → List String
paused s = select (λ k. not (str_eq k "")) (map strip (split_commas s.locations_paused))

abbrev pub is_paused : Settings → String → Bool
is_paused s key = any (λ k. str_eq k key) (paused s)

-- `recommended`; there is always a first location
unfoldable pub recommended : Settings → String
recommended s =
    get_or_else (find (λ k. not (is_paused s k)) (keys s)) (get_or_else (first (keys s)) default)

-- `default_for_new`
unfoldable pub default_for_new : Settings → String
default_for_new s = if is_paused s default then recommended s else default
