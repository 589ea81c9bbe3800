-- ===== src/Locations/Choice.antt =====
-- The location of a new device is a configured one, and a paused one only if all are paused.
use vpn_infrastructure_showc.Base.{
  ◌≡◌, true, some, arith, Option-cases, inl, inr, all, is_some, is_none, ◌&&◌, ◌||◌, if◌then◌else◌,
}
use vpn_infrastructure_showc.Locations.{
  Location, Settings, default, germany, with_params, netherlands, all_locations, get, keys,
  is_paused, recommended, default_for_new,
}

netherlands-key : (s : Settings) (loc : Location) → netherlands s ≡ some loc → loc.key ≡ "nl"
unfolding netherlands with_params
netherlands-key s loc e = elim (Option-cases s.nl_params) [
  | inl missing ↦ ground arith
  | inr (params, found) ↦ ground arith
]

-- the other location is chosen exactly when the default is paused and the other configured
default_for_new-eq :
    (s : Settings)
    → default_for_new s ≡ (if is_paused s default && is_some (netherlands s) then "nl" else default)
unfolding default_for_new recommended all_locations germany
default_for_new-eq s = elim (Option-cases (netherlands s)) [
  | inl alone ↦ ground arith
  | inr (nl, found) ↦ ground (arith, netherlands-key s nl found)
]

get-nl : (s : Settings) (nl : Location) → netherlands s ≡ some nl → get s "nl" ≡ some nl
unfolding get all_locations
get-nl s nl found = rw (found, netherlands-key s nl found)

get-default : (s : Settings) → is_some (get s default) ≡ true
unfolding get all_locations germany
get-default s = elim (Option-cases (netherlands s)) [
  | inl alone ↦ ground arith
  | inr (nl, found) ↦ ground arith
]

paused_keys :
    (s : Settings)
    → all (is_paused s) (keys s)
      ≡ (is_paused s default && (is_none (netherlands s) || is_paused s "nl"))
unfolding all_locations germany
paused_keys s = elim (Option-cases (netherlands s)) [
  | inl alone ↦ ground arith
  | inr (nl, found) ↦ ground (arith, netherlands-key s nl found)
]

-- A device that names no location is given a configured one, and a paused one only when every
-- configured location is paused.
default_for_new-open :
    (s : Settings)
    → (is_some (get s (default_for_new s)) ≡ true)
      × (is_paused s (default_for_new s) ≡ all (is_paused s) (keys s))
default_for_new-open s =
    rw (default_for_new-eq s, paused_keys s)
      (elim (Option-cases (netherlands s)) [
        | inl alone ↦ ground (arith, get-default s)
        | inr (nl, found) ↦ ground (arith, get-default s, get-nl s nl found)
      ])
