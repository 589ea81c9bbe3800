-- ===== src/Subscriptions/Trials/Ended.antt =====
-- After the sweep of the trials, no ended one has an active device, or a failure was counted.
use vpn_infrastructure_showc.Base.{
  ℕ, ◌+◌, ◌<◌, ◌≤◌, String, ◌≡◌, refl, ap, ◌∙◌, ◌⊎◌, inl, inr, Bool, true, false, List, [], ◌∷◌,
  arith, length, ◌==◌, any, update,
}
use vpn_infrastructure_showc.Model.{User, Config, Portal, save_config}
use vpn_infrastructure_showc.Exec.{Result, ok, err, then_do, ◌>>=◌}
use vpn_infrastructure_showc.Nodes.{Environment}
use vpn_infrastructure_showc.Notify.{notify_ended, notify, post, send_letter}
use vpn_infrastructure_showc.Provisioner.Issue.{State}
use vpn_infrastructure_showc.Provisioner.Issue.Same.{SameDb}
use vpn_infrastructure_showc.Provisioner.Removal.{remove_peer_for}
use vpn_infrastructure_showc.Provisioner.Removal.Quiet.{remove_peer_for-SameDb}
use vpn_infrastructure_showc.Subscriptions.Trials.{
  ended_trials, TrialStats, tell_ended, record_trial, expire_trials, finish_trials,
  expire_due_trials,
}
use vpn_infrastructure_showc.Subscriptions.Trials.Rows.{
  is_ended, mark_rows, any-mark_rows, ended_trials-Marks,
}

users-tell_ended : (now : ℕ) (u : User) (db : Portal) → (tell_ended now u db).users ≡ db.users
unfolding tell_ended notify_ended notify post send_letter
users-tell_ended now u db = ground arith

configs-tell_ended : (now : ℕ) (u : User) (db : Portal) → (tell_ended now u db).configs ≡ db.configs
unfolding tell_ended notify_ended notify post send_letter
configs-tell_ended now u db = ground arith

module _ (env : Environment) where
  -- what the loop did to the rows it was given
  record Expires (rows : List (Config × User)) (s s' : State env) (stats stats' : TrialStats)
      : Type 0 where
    saved : s'.committed ≡ s.committed
    users : s'.db.users ≡ s.db.users
    due : stats'.trials_due ≡ stats.trials_due
    counted :
        stats'.trial_peers_removed + stats'.trial_failures
        ≡ stats.trial_peers_removed + stats.trial_failures + length rows
    more : stats.trial_failures ≤ stats'.trial_failures
    marked :
        (s'.db.configs ≡ mark_rows rows s.db.configs)
        ⊎ (stats.trial_failures < stats'.trial_failures)

  abbrev Expired :
      List (Config × User) → State env → TrialStats → Result TrialStats × State env → Type 0
  Expired rows s stats (err e, s') = s'.committed ≡ s.committed
  Expired rows s stats (ok stats', s') = Expires rows s s' stats stats'

  removed-Expired :
      (row : Config × User) (rows : List (Config × User)) (s t : State env)
      (stats stats' : TrialStats) (r : Result TrialStats × State env)
      → t.committed ≡ s.committed
      → t.db.users ≡ s.db.users
      → t.db.configs
        ≡ update (λ r. r.id == row.0.id) (λ _. record row.0 { is_active = false }) s.db.configs
      → stats' ≡ record stats { trial_peers_removed = stats.trial_peers_removed + 1 }
      → Expired rows t stats' r
      → Expired (row ∷ rows) s stats r
  removed-Expired row rows s t stats stats' (err e, u) saved users configs count h = h ∙ saved
  removed-Expired row rows s t stats stats' (ok stats'', u) saved users configs count h = record {
    saved = h.saved ∙ saved;
    users = h.users ∙ users;
    due = h.due ∙ ap (λ (x : TrialStats). x.trials_due) count;
    counted = omega (
      arith,
      h.counted,
      ap (λ (x : TrialStats). x.trial_peers_removed) count,
      ap (λ (x : TrialStats). x.trial_failures) count,
    );
    more = omega (arith, h.more, ap (λ (x : TrialStats). x.trial_failures) count);
    marked = elim h.marked [
      | inl all ↦ inl (all ∙ ap (mark_rows rows) configs)
      | inr failed ↦ inr (omega (arith, ap (λ (x : TrialStats). x.trial_failures) count))
    ];
  }

  refused-Expired :
      (row : Config × User) (rows : List (Config × User)) (s t : State env) (stats : TrialStats)
      (r : Result TrialStats × State env)
      → SameDb s t
      → Expired rows t (record stats { trial_failures = stats.trial_failures + 1 }) r
      → Expired (row ∷ rows) s stats r
  refused-Expired row rows s t stats (err e, u) same h = h ∙ same.saved
  refused-Expired row rows s t stats (ok stats', u) same h = record {
    saved = h.saved ∙ same.saved;
    users = h.users ∙ ap (λ (d : Portal). d.users) same.view;
    due = h.due;
    counted = omega (arith, h.counted);
    more = omega (arith, h.more);
    marked = inr (omega (arith, h.more));
  }

  answer-Expired :
      (now : ℕ) (row : Config × User) (rows : List (Config × User)) (s : State env)
      (stats : TrialStats) (r : Result (Bool × String) × State env)
      → SameDb s r.1
      → ((stats' : TrialStats) (t : State env)
          → Expired rows t stats' (expire_trials env now rows stats' t))
      → Expired (row ∷ rows) s stats (
          then_do
            (λ answer. record_trial env now row stats answer >>= expire_trials env now rows)
            r)
  unfolding record_trial save_config
  answer-Expired now row rows s stats (err e, t) same ih = same.saved
  answer-Expired now (c, user) rows s stats (ok (true, reason), t) same ih =
      removed-Expired (c, user) rows s _ stats _ _ same.saved
        (users-tell_ended now user _ ∙ ap (λ (d : Portal). d.users) same.view)
        (configs-tell_ended now user _
          ∙ ap
              (λ (d : Portal).
                update (λ r. r.id == c.id) (λ _. record c { is_active = false }) d.configs)
              same.view)
        refl (ih _ _)
  answer-Expired now row rows s stats (ok (false, reason), t) same ih =
      refused-Expired row rows s t stats _ same (ih _ _)

  expire_trials-Expired :
      (now : ℕ) (rows : List (Config × User)) (stats : TrialStats) (s : State env)
      → Expired rows s stats (expire_trials env now rows stats s)
  unfolding expire_trials
  expire_trials-Expired now [] stats s = record {
    saved = refl;
    users = refl;
    due = refl;
    counted = omega arith;
    more = omega arith;
    marked = inl refl;
  }
  expire_trials-Expired now (row ∷ rows) stats s =
      answer-Expired now row rows s stats (remove_peer_for env row.0 s)
        (remove_peer_for-SameDb env row.0 s) (λ stats' t. expire_trials-Expired now rows stats' t)

  -- How the sweep of the trials ends.
  abbrev pub TrialsOutcome : ℕ → State env → Result TrialStats × State env → Type 0
  TrialsOutcome now s (err e, s') = s'.committed ≡ s.committed
  TrialsOutcome now s (ok stats, s') =
      (s'.committed ≡ s'.db)
      × (s'.db.users ≡ s.db.users)
      × (stats.trial_peers_removed + stats.trial_failures ≡ stats.trials_due)
      × ((any (is_ended now s'.committed.users) s'.committed.configs ≡ false)
          ⊎ (0 < stats.trial_failures))

  finish-outcome :
      (now : ℕ) (s : State env) (stats : TrialStats) (r : Result TrialStats × State env)
      → stats.trial_failures ≡ 0
      → stats.trial_peers_removed ≡ 0
      → stats.trials_due ≡ length (ended_trials now s.db.users s.db.configs)
      → Expired (ended_trials now s.db.users s.db.configs) s stats r
      → TrialsOutcome now s (then_do (finish_trials env) r)
  unfolding finish_trials
  finish-outcome now s stats (err e, t) no_failure none_removed due h = h
  finish-outcome now s stats (ok stats', t) no_failure none_removed due h = (
    refl,
    h.users,
    omega (arith, h.counted, h.due, no_failure, none_removed, due),
    (elim h.marked [
      | inl all ↦ inl (
          rw (h.users, all)
            (any-mark_rows now s.db.users (ended_trials now s.db.users s.db.configs) s.db.configs
              (ended_trials-Marks now s.db.users s.db.configs)))
      | inr failed ↦ inr (omega (arith, no_failure))
    ]),
  )

  -- The sweep of the trials, whatever the nodes answer. If it returns, it has committed, no account
  -- has changed, every row that was due is counted once, as removed or as a failure, and without a
  -- failure no active trial device is left whose owner's trial is over. If it raises, nothing is
  -- committed.
  pub expire_due_trials-outcome :
      (now : ℕ) (s : State env) → TrialsOutcome now s (expire_due_trials env now s)
  unfolding expire_due_trials
  expire_due_trials-outcome now s =
      finish-outcome now s _ _ refl refl refl
        (expire_trials-Expired now (ended_trials now s.db.users s.db.configs) _ s)
