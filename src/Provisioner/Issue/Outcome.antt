-- ===== src/Provisioner/Issue/Outcome.antt =====
-- What `issue_config` leaves behind on each of its ends.
use vpn_infrastructure_showc.Base.{
  ◌++◌, [], any, arith, ℕ, zero, suc, String, ◌≡◌, refl, Bool, true, false, Option, none, some,
  List, ◌∷◌, str_eq, Bool-cases, inl, inr, if◌then◌else◌,
}
use vpn_infrastructure_showc.Model.{User, Config, Portal}
use vpn_infrastructure_showc.Exec.{Exec, Result, ok, err, then_do, ◌>>=◌}
use vpn_infrastructure_showc.Locations
use vpn_infrastructure_showc.Locations.{Location}
use vpn_infrastructure_showc.Nodes.{awg_show, Keys, Environment}
use vpn_infrastructure_showc.Provisioner.Pool.{Pool, find_free_ip}
use vpn_infrastructure_showc.Provisioner.Issue.{
  State, add_peer_at, is_ip_in_use, after_try, try_address, find_and_add, save_row, new_row,
  add_config, pool_of, client_name, issue_with_keys, fresh_keys, issue_at, issue_config,
}
use vpn_infrastructure_showc.Provisioner.Issue.Same.{
  SameDb, SameDb-refl, SameDb-trans, add_peer_at-SameDb,
}
use vpn_infrastructure_showc.Provisioner.Issue.Address.{
  reported, IsFree, IsAccepted, Answered, find_free_ip-IsFree, entry_used_ips-reported,
  add_peer_at-Answered,
}
use vpn_infrastructure_showc.Provisioner.Pool.{client_pool, trial_pool}

module _ (env : Environment) where
  -- the loop leaves the database alone, and an address that it gives is free, and was taken on
  abbrev Found :
      State env → Location → Pool → Keys → List String → Result (Option String) × State env → Type 0
  Found s loc pool keys used (ok none, s') = SameDb s s'
  Found s loc pool keys used (ok (some ip), s') =
      SameDb s s' × IsFree env s.db pool loc.key used ip × IsAccepted env loc.host keys ip s'.world
  Found s loc pool keys used (err e, s') = SameDb s s'

  module _ (loc : Location) (pool : Pool) (keys : Keys) (used : List String) where
    Found-later :
        (s t : State env) (r : Result (Option String) × State env)
        → SameDb s t
        → Found t loc pool keys used r
        → Found s loc pool keys used r
    Found-later s t (ok none, s') h f = SameDb-trans h f
    Found-later s t (ok (some ip), s') h (same, free, on) =
        (SameDb-trans h same, rw (← h.view) free, on)
    Found-later s t (err e, s') h f = SameDb-trans h f

    module _ (s : State env) (ip : String) (again : Exec (State env) (Option String))
        (free : IsFree env s.db pool loc.key used ip)
        (ih : (t : State env) → SameDb s t → Found s loc pool keys used (again t)) where
      after_try-Found :
          (r : Result (Bool × String) × State env)
          → SameDb s r.1
          → Answered env loc.host keys ip r
          → Found s loc pool keys used (then_do (λ answer. after_try env answer ip again) r)
      unfolding after_try
      after_try-Found (ok (true, reason), t) h on = (h, free, on)
      after_try-Found (ok (false, reason), t) h on = elim (Bool-cases (is_ip_in_use reason)) [
        | inl in_use ↦ rw in_use (ih t h)
        | inr refused ↦ rw refused h
      ]
      after_try-Found (err e, t) h on = h

    try_address-Found :
        (name : String) (tried : List String) (again : String → Exec (State env) (Option String))
        (s : State env)
        → ((ip : String)
            → any (λ u. str_eq u ip) tried ≡ false
            → any (λ u. str_eq u ip) used ≡ false)
        → ((ip : String) (t : State env) → SameDb s t → Found s loc pool keys used (again ip t))
        → (o : Option String) → find_free_ip s.db tried pool loc.key ≡ o
        → Found s loc pool keys used (try_address env loc keys name again o s)
    unfolding try_address
    try_address-Found name tried again s covers ih none full = SameDb-refl s
    try_address-Found name tried again s covers ih (some ip) found =
        after_try-Found s ip (again ip)
          (find_free_ip-IsFree env s.db tried used pool loc.key ip (covers ip) found) (ih ip)
          (add_peer_at env loc.host keys ip name s) (add_peer_at-SameDb env loc.host keys ip name s)
          (add_peer_at-Answered env loc.host keys ip name s)

    find_and_add-Found :
        (n : ℕ) (name : String) (tried : List String) (s : State env)
        → ((ip : String)
            → any (λ u. str_eq u ip) tried ≡ false
            → any (λ u. str_eq u ip) used ≡ false)
        → Found s loc pool keys used (find_and_add env n loc pool keys name tried s)
    unfolding find_and_add
    find_and_add-Found zero name tried s covers = SameDb-refl s
    find_and_add-Found (suc n) name tried s covers =
        try_address-Found name tried (λ ip. find_and_add env n loc pool keys name (ip ∷ tried)) s
          covers
          (λ ip t h.
            Found-later s t _ h (
              find_and_add-Found n name (ip ∷ tried) t λ other e. covers other (ground (arith, e))))
          (find_free_ip s.db tried pool loc.key) refl

  -- The row of a device that was issued in the state `s`: keys were made, the node was asked which
  -- addresses it knows, and it took on a free address of the pool with those keys.
  pub record IsIssued (s : State env) (user : User) (name kind location : String) (c : Config)
      : Type 0 where
    pub loc : Location
    pub configured :
        Locations.get env.settings (if str_eq kind "trial" then Locations.default else location)
        ≡ some loc
    pub keys : Keys
    pub keyed : (env.make_keys s.world).0 ≡ some keys
    pub of_keys : c.public_key ≡ keys.public_key
    pub address_free :
        IsFree env s.db
          (if str_eq kind "trial" then trial_pool else client_pool)
          loc.key
          (reported env (env.ssh loc.host awg_show (env.make_keys s.world).1).0)
          c.peer_ip
    pub after : env.World
    pub accepted : IsAccepted env loc.host keys c.peer_ip after
    pub of_location : c.location ≡ loc.key
    pub of_user : c.user_id ≡ user.id
    pub of_kind : c.kind ≡ kind
    pub of_name : c.name ≡ name
    pub is_active : c.is_active ≡ true
    pub fresh_id : c.id ≡ s.db.next_id

  -- the tables with one device more
  abbrev pub with_row : Config → Portal → Portal
  with_row c db = record db { next_id = suc db.next_id; configs = db.configs ++ c ∷ [] }

  -- A device that is issued is one row more in the session; on any other end, an error included,
  -- the session's view of the database is as it was. Nothing is committed on any end.
  abbrev pub IssueOutcome :
      State env → User → String → String → String → Result (Option Config) × State env → Type 0
  IssueOutcome s user name kind location (ok none, s') = SameDb s s'
  IssueOutcome s user name kind location (err e, s') = SameDb s s'
  IssueOutcome s user name kind location (ok (some c), s') =
      IsIssued s user name kind location c
      × (s'.db ≡ with_row c s.db)
      × (s'.committed ≡ s.committed)

  module _ (user : User) (name kind location : String) (now : ℕ) (loc : Location)
      (configured : Locations.get env.settings
          (if str_eq kind "trial" then Locations.default else location)
        ≡ some loc) where
    module _ (s : State env) (keys : Keys) (keyed : (env.make_keys s.world).0 ≡ some keys) where
      abbrev used : List String
      used = reported env (env.ssh loc.host awg_show (env.make_keys s.world).1).0

      save_row-outcome :
          (r : Result (Option String) × State env)
          → Found s loc (pool_of kind) keys used r
          → IssueOutcome s user name kind location
              (then_do (save_row env user name kind loc keys now) r)
      unfolding save_row new_row add_config
      save_row-outcome (ok none, t) f = f
      save_row-outcome (err e, t) f = f
      save_row-outcome (ok (some ip), t) (same, free, on) = rw same.view (
        record {
          loc = loc;
          configured = configured;
          keys = keys;
          keyed = keyed;
          of_keys = refl;
          address_free = free;
          after = t.world;
          accepted = on;
          of_location = refl;
          of_user = refl;
          of_kind = refl;
          of_name = refl;
          is_active = refl;
          fresh_id = refl;
        },
        refl,
        same.saved,
      )

    with_keys-outcome :
        (s : State env) (keys : Option Keys)
        → (env.make_keys s.world).0 ≡ keys
        → IssueOutcome s user name kind location (
            issue_with_keys env user name kind loc now keys
              (record s { world = (env.make_keys s.world).1 }))
    unfolding issue_with_keys
    with_keys-outcome s none keyed = record { view = refl; saved = refl }
    with_keys-outcome s (some keys) keyed =
        let t : State env = record s { world = (env.make_keys s.world).1 } in
        let reads = reported env (env.ssh loc.host awg_show t.world).0 in
        let shown : State env = record t { world = (env.ssh loc.host awg_show t.world).1 } in
        rw (entry_used_ips-reported env loc.host t) (
          save_row-outcome s keys keyed _ (
            Found-later loc (pool_of kind) keys reads s shown _
              (record { view = refl; saved = refl })
              (find_and_add-Found loc (pool_of kind) keys reads 10 (client_name user kind) reads
                shown λ ip e. e)))

    fresh_keys-outcome :
        (s : State env)
        → IssueOutcome s user name kind location
            ((fresh_keys env >>= issue_with_keys env user name kind loc now) s)
    unfolding fresh_keys
    fresh_keys-outcome s = with_keys-outcome s _ refl

  issue_at-outcome :
      (user : User) (name kind location : String) (now : ℕ) (s : State env) (o : Option Location)
      → Locations.get env.settings (if str_eq kind "trial" then Locations.default else location) ≡ o
      → IssueOutcome s user name kind location (issue_at env user name kind now o s)
  unfolding issue_at
  issue_at-outcome user name kind location now s none e = SameDb-refl s
  issue_at-outcome user name kind location now s (some loc) e =
      fresh_keys-outcome user name kind location now loc e s

  -- Issuing a device, whatever the node and the network do: if it succeeds, the session holds one
  -- row more, an active device of this user, kind and name, in a configured location (the default
  -- one for a trial). Its address is of the pool of its kind; no active device of the location held
  -- it, and the node did not report it; and the node answered "ok:" when it was asked to add a peer
  -- with the device's key and that address. Otherwise, an error included, the database is as it
  -- was. In no case is anything committed.
  pub issue_config-outcome :
      (user : User) (name kind location : String) (now : ℕ) (s : State env)
      → IssueOutcome s user name kind location (issue_config env user name kind location now s)
  unfolding issue_config
  issue_config-outcome user name kind location now s =
      issue_at-outcome user name kind location now s _ refl
