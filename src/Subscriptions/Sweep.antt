-- ===== src/Subscriptions/Sweep.antt =====
-- What the sweep leaves behind.
mod Removing
use vpn_infrastructure_showc.Base.{
  ℕ, ◌+◌, ◌≤◌, ◌<◌, String, ◌≡◌, refl, ap, ◌∙◌, Bool, true, false, List, [], ◌∷◌, arith, ◌==◌, any,
  select, update, inl, inr, length, ◌⊎◌,
}
use vpn_infrastructure_showc.Model.{User, Portal, save_user}
use vpn_infrastructure_showc.Exec.{Result, ok, err, then_do}
use vpn_infrastructure_showc.Nodes.{Environment}
use vpn_infrastructure_showc.Notify.{notify_ended, notify, post, send_letter}
use vpn_infrastructure_showc.Provisioner.Issue.{State}
use vpn_infrastructure_showc.Provisioner.Activate.{held_by}
use vpn_infrastructure_showc.Subscriptions.{
  SweepStats, is_past_end, close_account, revoke_user, revoke_users, finish_sweep,
  expire_due_subscriptions,
}
use vpn_infrastructure_showc.Subscriptions.Closing.{close_all, any-close_all, select-Closes}
use vpn_infrastructure_showc.Subscriptions.Sweep.Removing.{Removed, remove_devices-Removed}

module _ (env : Environment) where
  -- one account: closed in the session, or left as it is with a failure counted
  record Revokes (u : User) (s s' : State env) (stats stats' : SweepStats) : Type 0 where
    saved : s'.committed ≡ s.committed
    more : stats.failures ≤ stats'.failures
    closed :
        ((stats'.users_revoked ≡ stats.users_revoked + 1)
          × (s'.db.users
              ≡ update (λ r. r.id == u.id) (λ _. record u { is_subscribed = false }) s.db.users))
        ⊎ ((stats'.users_revoked ≡ stats.users_revoked)
            × (s'.db.users ≡ s.db.users)
            × (stats.failures < stats'.failures))

  users-notify_ended :
      (now : ℕ) (u : User) (kind : String) (until : ℕ) (db : Portal)
      → (notify_ended now u kind until db).users ≡ db.users
  unfolding notify_ended notify post send_letter
  users-notify_ended now u kind until db = ground arith

  abbrev Revoked : User → State env → SweepStats → Result SweepStats × State env → Type 0
  Revoked u s stats (err e, s') = s'.committed ≡ s.committed
  Revoked u s stats (ok stats', s') = Revokes u s s' stats stats'

  close_account-Revoked :
      (now : ℕ) (u : User) (stats : SweepStats) (s : State env)
      (r : Result (Bool × SweepStats) × State env)
      → Removed env s (true, stats) r
      → Revoked u s stats (then_do (close_account env now u) r)
  unfolding close_account
  close_account-Revoked now u stats s (err e, t) h = h
  close_account-Revoked now u stats s (ok (true, stats'), t) h = record {
    saved = h.saved;
    more = h.more;
    closed = inl (
      ap suc_of h.revoked,
      users-notify_ended now u "sub_ended" _ _
          ∙ (unfold save_user in
              ap (update (λ r. r.id == u.id) (λ _. record u { is_subscribed = false })) h.users),
    );
  }
    where
      suc_of : ℕ → ℕ
      suc_of n = n + 1
  close_account-Revoked now u stats s (ok (false, stats'), t) h = record {
    saved = h.saved;
    more = h.more;
    closed = inr (h.revoked, h.users, ground (arith, h.flag));
  }

  revoke_user-Revoked :
      (now : ℕ) (u : User) (stats : SweepStats) (s : State env)
      → Revoked u s stats (revoke_user env now u stats s)
  unfolding revoke_user
  revoke_user-Revoked now u stats s =
      close_account-Revoked now u stats s _
        (remove_devices-Removed env (held_by u s.db) (true, stats) s)

  -- a list of accounts: all closed, or a failure counted
  record Sweeps (us : List User) (s s' : State env) (stats stats' : SweepStats) : Type 0 where
    saved : s'.committed ≡ s.committed
    more : stats.failures ≤ stats'.failures
    closed : (s'.db.users ≡ close_all us s.db.users) ⊎ (stats.failures < stats'.failures)
    revoked : stats'.users_revoked ≤ stats.users_revoked + length us

  abbrev Swept : List User → State env → SweepStats → Result SweepStats × State env → Type 0
  Swept us s stats (err e, s') = s'.committed ≡ s.committed
  Swept us s stats (ok stats', s') = Sweeps us s s' stats stats'

  Sweeps-cons :
      (u : User) (us : List User) (a b c : State env) (x y z : SweepStats)
      → Revokes u a b x y
      → Sweeps us b c y z
      → Sweeps (u ∷ us) a c x z
  Sweeps-cons u us a b c x y z p q = record {
    saved = q.saved ∙ p.saved;
    more = omega (arith, p.more, q.more);
    closed = elim p.closed [
      | inl (_, first) ↦ elim q.closed [
        | inl rest ↦ inl (rest ∙ ap (close_all us) first)
        | inr failed ↦ inr (omega (arith, p.more))
      ]
      | inr (_, _, failed) ↦ inr (omega (arith, q.more))
    ];
    revoked = elim p.closed [
      | inl (one, _) ↦ omega (arith, one, q.revoked)
      | inr (same, _, _) ↦ omega (arith, same, q.revoked)
    ];
  }

  then_users-Swept :
      (now : ℕ) (u : User) (us : List User) (s : State env) (stats : SweepStats)
      (r : Result SweepStats × State env)
      → Revoked u s stats r
      → ((stats' : SweepStats) (t : State env)
          → Swept us t stats' (revoke_users env now us stats' t))
      → Swept (u ∷ us) s stats (then_do (revoke_users env now us) r)
  then_users-Swept now u us s stats (err e, t) h ih = h
  then_users-Swept now u us s stats (ok stats', t) h ih =
      join (revoke_users env now us stats' t) (ih stats' t)
    where
      join : (r : Result SweepStats × State env) → Swept us t stats' r → Swept (u ∷ us) s stats r
      join (err e, t') q = q ∙ h.saved
      join (ok stats'', t') q = Sweeps-cons u us s t t' stats stats' stats'' h q

  revoke_users-Swept :
      (now : ℕ) (us : List User) (stats : SweepStats) (s : State env)
      → Swept us s stats (revoke_users env now us stats s)
  unfolding revoke_users
  revoke_users-Swept now [] stats s = record {
    saved = refl;
    more = omega arith;
    closed = inl refl;
    revoked = omega arith;
  }
  revoke_users-Swept now (u ∷ us) stats s =
      then_users-Swept now u us s stats (revoke_user env now u stats s)
        (revoke_user-Revoked now u stats s) (λ stats' t. revoke_users-Swept now us stats' t)

  -- How the sweep ends. If it returns, it has committed, and either nobody is left subscribed
  -- past the end of their period, or it counted at least one failure; it never reports more
  -- accounts revoked than were due. If it raises, nothing is committed, whatever was removed from
  -- the nodes before.
  abbrev pub SweepOutcome : ℕ → State env → Result SweepStats × State env → Type 0
  SweepOutcome now s (err e, s') = s'.committed ≡ s.committed
  SweepOutcome now s (ok stats, s') =
      (s'.committed ≡ s'.db)
      × ((any (is_past_end now) s'.committed.users ≡ false) ⊎ (0 < stats.failures))
      × (stats.users_revoked ≤ length (select (is_past_end now) s.db.users))

  finish-outcome :
      (now : ℕ) (s : State env) (stats : SweepStats) (r : Result SweepStats × State env)
      → stats.failures ≡ 0
      → stats.users_revoked ≡ 0
      → Swept (select (is_past_end now) s.db.users) s stats r
      → SweepOutcome now s (then_do (finish_sweep env) r)
  unfolding finish_sweep
  finish-outcome now s stats (err e, t) none_failed none_revoked h = h
  finish-outcome now s stats (ok stats', t) none_failed none_revoked h = (
    refl,
    (elim h.closed [
      | inl all_closed ↦ inl (
          rw all_closed (
            any-close_all now (select (is_past_end now) s.db.users) s.db.users
              (select-Closes now s.db.users)))
      | inr failed ↦ inr (omega (arith, none_failed))
    ]),
    omega (arith, h.revoked, none_revoked),
  )

  -- The sweep ends in one of the ways that `SweepOutcome` says, on every database and whatever the
  -- nodes answer: it returns with nobody subscribed past their end unless a failure was counted,
  -- and a raise commits nothing.
  pub expire_due_subscriptions-outcome :
      (now : ℕ) (s : State env) → SweepOutcome now s (expire_due_subscriptions env now s)
  unfolding expire_due_subscriptions
  expire_due_subscriptions-outcome now s =
      finish-outcome now s _ _ refl refl
        (revoke_users-Swept now (select (is_past_end now) s.db.users) _ s)
