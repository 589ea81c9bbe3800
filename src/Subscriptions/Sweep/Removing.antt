-- ===== src/Subscriptions/Sweep/Removing.antt =====
-- Removing the devices of an account that ends.
use vpn_infrastructure_showc.Base.{
  ◌≤◌, ◌<◌, String, ◌≡◌, refl, ap, ◌∙◌, Bool, true, false, List, [], ◌∷◌, arith, inl, inr, ◌⊎◌,
}
use vpn_infrastructure_showc.Model.{Config, Portal, save_config}
use vpn_infrastructure_showc.Exec.{Result, ok, err, then_do, ◌>>=◌}
use vpn_infrastructure_showc.Nodes.{Environment, Session}
use vpn_infrastructure_showc.Provisioner.Issue.{State}
use vpn_infrastructure_showc.Provisioner.Issue.Same.{SameDb}
use vpn_infrastructure_showc.Provisioner.Removal.{remove_peer_for}
use vpn_infrastructure_showc.Provisioner.Removal.Quiet.{remove_peer_for-SameDb}
use vpn_infrastructure_showc.Subscriptions.{SweepStats, record_removal, remove_devices}

-- Removing devices leaves the accounts alone and commits nothing; the flag falls only with a new
-- failure.
pub record Removes {W : Type 0} (s s' : Session W) (acc acc' : Bool × SweepStats) : Type 0 where
  pub saved : s'.committed ≡ s.committed
  pub users : s'.db.users ≡ s.db.users
  pub revoked : acc'.1.users_revoked ≡ acc.1.users_revoked
  pub more : acc.1.failures ≤ acc'.1.failures
  pub flag : (acc'.0 ≡ acc.0) ⊎ (acc.1.failures < acc'.1.failures)

Removes-refl : {W : Type 0} (s : Session W) (acc : Bool × SweepStats) → Removes s s acc acc
Removes-refl s acc = record {
  saved = refl;
  users = refl;
  revoked = refl;
  more = omega arith;
  flag = inl refl;
}

Removes-trans :
    {W : Type 0} {a b c : Session W} {x y z : Bool × SweepStats}
    → Removes a b x y
    → Removes b c y z
    → Removes a c x z
Removes-trans p q = record {
  saved = q.saved ∙ p.saved;
  users = q.users ∙ p.users;
  revoked = q.revoked ∙ p.revoked;
  more = omega (arith, p.more, q.more);
  flag = ground (arith, p.flag, q.flag, p.more, q.more);
}

module _ (env : Environment) where
  abbrev pub Removed :
      State env → Bool × SweepStats → Result (Bool × SweepStats) × State env → Type 0
  Removed s acc (err e, s') = s'.committed ≡ s.committed
  Removed s acc (ok acc', s') = Removes s s' acc acc'

  Removed-later :
      (s t : State env) (acc acc' : Bool × SweepStats) (r : Result (Bool × SweepStats) × State env)
      → Removes s t acc acc'
      → Removed t acc' r
      → Removed s acc r
  Removed-later s t acc acc' (err e, u) p q = q ∙ p.saved
  Removed-later s t acc acc' (ok acc'', u) p q = Removes-trans p q

  -- after the answer of the node
  after_answer :
      (c : Config) (cs : List Config) (acc : Bool × SweepStats) (s : State env)
      (r : Result (Bool × String) × State env)
      → SameDb s r.1
      → ((acc' : Bool × SweepStats) (t : State env) → Removed t acc' (remove_devices env cs acc' t))
      → Removed s acc
          (then_do (λ answer. record_removal env c acc answer >>= remove_devices env cs) r)
  unfolding record_removal save_config
  after_answer c cs acc s (err e, t) same ih = same.saved
  after_answer c cs (all_removed, stats) s (ok (true, reason), t) same ih =
      Removed-later s _ (all_removed, stats) _ _
        (record {
          saved = same.saved;
          users = ap (λ (d : Portal). d.users) same.view;
          revoked = refl;
          more = omega arith;
          flag = inl refl;
        })
        (ih _ _)
  after_answer c cs (all_removed, stats) s (ok (false, reason), t) same ih =
      Removed-later s _ (all_removed, stats) _ _
        (record {
          saved = same.saved;
          users = ap (λ (d : Portal). d.users) same.view;
          revoked = refl;
          more = omega arith;
          flag = inr (omega arith);
        })
        (ih _ _)

  pub remove_devices-Removed :
      (cs : List Config) (acc : Bool × SweepStats) (s : State env)
      → Removed s acc (remove_devices env cs acc s)
  unfolding remove_devices
  remove_devices-Removed [] acc s = Removes-refl s acc
  remove_devices-Removed (c ∷ cs) acc s =
      after_answer c cs acc s (remove_peer_for env c s) (remove_peer_for-SameDb env c s)
        (λ acc' t. remove_devices-Removed cs acc' t)
