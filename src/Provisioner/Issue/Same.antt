-- ===== src/Provisioner/Issue/Same.antt =====
-- Where the database stays as it is: a call over the network, and nothing else.
use vpn_infrastructure_showc.Base.{String, ◌≡◌, refl, ◌∙◌, Option, none, some}
use vpn_infrastructure_showc.Exec.{Result, ok, err, then_do}
use vpn_infrastructure_showc.Nodes.{Command, Keys, Environment, Session}
use vpn_infrastructure_showc.Provisioner.Issue.{
  State, answered, run_ssh, add_peer_at, or_nothing, entry_used_ips, wrapper_answer,
}

-- Neither the session's view of the database nor what is committed has changed.
pub record SameDb {W : Type 0} (s s' : Session W) : Type 0 where
  pub view : s'.db ≡ s.db
  pub saved : s'.committed ≡ s.committed

pub SameDb-refl : {W : Type 0} (s : Session W) → SameDb s s
SameDb-refl s = record { view = refl; saved = refl }

pub SameDb-trans : {W : Type 0} {a b c : Session W} → SameDb a b → SameDb b c → SameDb a c
SameDb-trans p q = record { view = q.view ∙ p.view; saved = q.saved ∙ p.saved }

module _ (env : Environment) where
  answered-SameDb :
      {A : Type 0} (r : Option A × env.World) (s : State env) → SameDb s (answered env r s).1
  answered-SameDb (none, w) s = record { view = refl; saved = refl }
  answered-SameDb (some a, w) s = record { view = refl; saved = refl }

  pub run_ssh-SameDb :
      (host : String) (cmd : Command) (s : State env) → SameDb s (run_ssh env host cmd s).1
  unfolding run_ssh
  run_ssh-SameDb host cmd s = answered-SameDb (env.ssh host cmd s.world) s

  or_nothing-SameDb :
      (s : State env) (r : Result (String × String) × State env)
      → SameDb s r.1
      → SameDb s (or_nothing env r).1
  or_nothing-SameDb s (ok printed, s') h = h
  or_nothing-SameDb s (err e, s') h = h

  pub entry_used_ips-SameDb :
      (host : String) (s : State env) → SameDb s (entry_used_ips env host s).1
  unfolding entry_used_ips
  entry_used_ips-SameDb host s = or_nothing-SameDb s _ (run_ssh-SameDb host _ s)

  pub then_pure-SameDb :
      {A B : Type 0} (f : A → B) (s : State env) (r : Result A × State env)
      → SameDb s r.1
      → SameDb s (then_do (λ a s'. (ok (f a), s')) r).1
  then_pure-SameDb f s (ok a, s') h = h
  then_pure-SameDb f s (err e, s') h = h

  pub add_peer_at-SameDb :
      (host : String) (keys : Keys) (ip name : String) (s : State env)
      → SameDb s (add_peer_at env host keys ip name s).1
  unfolding add_peer_at
  add_peer_at-SameDb host keys ip name s =
      then_pure-SameDb wrapper_answer s _ (run_ssh-SameDb host _ s)
