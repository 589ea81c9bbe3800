-- ===== src/Provisioner/Issue/Address.antt =====
-- What an address of a new peer is: in the pool, free, and taken on by the node.
use Prim.Native.String
use text.Mathlib.Text.{starts_with}
use vpn_infrastructure_showc.PyText.{decimal}
use vpn_infrastructure_showc.Provisioner.Pool.{address, is_used}
use vpn_infrastructure_showc.Provisioner.Pool.Free.{find_free_ip-first}
use vpn_infrastructure_showc.Base.{
  [], ◌≤◌, arith, any, ◌&&◌, not, ℕ, String, ◌≡◌, refl, Bool, true, false, Option, none, some, List,
  str_eq, Bool-cases, inl, inr,
}
use vpn_infrastructure_showc.Model.{Portal}
use vpn_infrastructure_showc.Exec.{Result, ok, then_do}
use vpn_infrastructure_showc.Nodes.{awg_show, add_peer, Keys, Environment}
use vpn_infrastructure_showc.Provisioner.Pool.{Pool, find_free_ip}
use vpn_infrastructure_showc.Provisioner.Issue.{
  run_ssh, or_nothing, entry_used_ips, wrapper_answer, answered, State, add_peer_at,
}

module _ (env : Environment) where
  -- the addresses in a node's answer; none at all if the call raised
  abbrev pub reported : Option (String × String) → List String
  reported none = []
  reported (some printed) = env.read_addresses printed.0

  -- An address of the pool that no active device of the location holds and that is not among
  -- `used`.
  pub record IsFree (db : Portal) (pool : Pool) (key : String) (used : List String) (ip : String)
      : Type 0 where
    pub number : ℕ
    pub named : ip ≡ String.◌++◌ pool.prefix (String.◌++◌ "." (decimal number))
    pub from : pool.start ≤ number
    pub until : number ≤ pool.end
    pub unheld :
        any
          (λ c.
            c.is_active
            && str_eq c.location key
            && str_eq c.peer_ip ip
            && not (str_eq c.peer_ip ""))
          db.configs
        ≡ false
    pub unreported : any (λ u. str_eq u ip) used ≡ false

  -- The node was asked to add this peer, and its answer begins with "ok:".
  pub record IsAccepted (host : String) (keys : Keys) (ip : String) (after : env.World)
      : Type 0 where
    pub label : String
    pub before : env.World
    pub printed : String × String
    pub answer :
        env.ssh host
          (add_peer keys.public_key keys.preshared_key (String.◌++◌ ip "/32") label)
          before
        ≡ (some printed, after)
    pub ok : starts_with printed.0 "ok:" ≡ true

  -- what the first free address of a pool is
  pub find_free_ip-IsFree :
      (db : Portal) (tried used : List String) (pool : Pool) (key ip : String)
      → (any (λ u. str_eq u ip) tried ≡ false → any (λ u. str_eq u ip) used ≡ false)
      → find_free_ip db tried pool key ≡ some ip
      → IsFree db pool key used ip
  unfolding address is_used
  find_free_ip-IsFree db tried used pool key ip covers found =
      let (i, named, h) = find_free_ip-first db tried pool key ip found in
      let free : is_used db key tried ip ≡ false = rw named h.free in
      record {
        number = i;
        named = named;
        from = h.from;
        until = omega (arith, h.until, h.from);
        unheld = ground (arith, free);
        unreported = covers (ground (arith, free));
      }

  answered-is :
      (s : State env) (r : Option (String × String) × env.World)
      → or_nothing env (answered env r s) ≡ (ok (reported r.0), record s { world = r.1 })
  answered-is s (none, w) = refl
  answered-is s (some printed, w) = refl

  pub entry_used_ips-reported :
      (host : String) (s : State env)
      → entry_used_ips env host s ≡ (
        ok (reported (env.ssh host awg_show s.world).0),
        record s { world = (env.ssh host awg_show s.world).1 },
      )
  unfolding entry_used_ips run_ssh
  entry_used_ips-reported host s = answered-is s (env.ssh host awg_show s.world)

  -- a positive answer of the wrapper
  abbrev pub Answered : String → Keys → String → Result (Bool × String) × State env → Type 0
  Answered host keys ip (ok (true, reason), t) = IsAccepted host keys ip t.world
  Answered host keys ip r = Unit

  printed-Answered :
      (host : String) (keys : Keys) (ip label : String) (s : State env)
      (r : Option (String × String) × env.World)
      → env.ssh host
          (add_peer keys.public_key keys.preshared_key (String.◌++◌ ip "/32") label)
          s.world
        ≡ r
      → Answered host keys ip
          (then_do (λ printed s'. (ok (wrapper_answer printed), s')) (answered env r s))
  unfolding wrapper_answer
  printed-Answered host keys ip label s (none, w) e = tt
  printed-Answered host keys ip label s (some (out, errors), w) e =
      elim (Bool-cases (starts_with out "ok:")) [
        | inl fine ↦ rw fine (record {
          label = label;
          before = s.world;
          printed = (out, errors);
          answer = e;
          ok = fine;
        })
        | inr bad ↦ rw bad tt
      ]

  pub add_peer_at-Answered :
      (host : String) (keys : Keys) (ip label : String) (s : State env)
      → Answered host keys ip (add_peer_at env host keys ip label s)
  unfolding add_peer_at run_ssh
  add_peer_at-Answered host keys ip label s = printed-Answered host keys ip label s _ refl
