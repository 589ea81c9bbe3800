-- ===== src/Trial/Start/Once.antt =====
-- A trial that was given is the last one for its mailbox, and for its Telegram account.
use vpn_infrastructure_showc.Base.{
  ℕ, String, ◌≡◌, refl, ap, ◌∙◌, ◌⊎◌, inl, inr, Bool, true, none, some, List, [], ◌∷◌, ◌++◌, arith,
  ==_self, str_eq, eq_iff, any, select,
}
use mathlib.Core.Path.{subst}
use vpn_infrastructure_showc.Model.{User, Config, TrialGrant, Portal}
use vpn_infrastructure_showc.Exec.{ok, err, http}
use vpn_infrastructure_showc.Nodes.{Environment}
use vpn_infrastructure_showc.RateLimit
use vpn_infrastructure_showc.Payments.Orders.{current_user}
use vpn_infrastructure_showc.Trial.Mailbox.{normalise_email}
use vpn_infrastructure_showc.Trial.Start.Outcome.{StartOutcome, start_trial-outcome}
use vpn_infrastructure_showc.Trial.Start.{
  TrialSettings, confirmed, norm_of, is_same, already_granted, grant_of, Trials, refusal,
  give_trial, give_if_free, start_unless, start_for, start_trial,
}

-- Two accounts with one confirmed mailbox, as its spellings are told apart, or one Telegram account.
abbrev pub IsSamePerson : User → User → Type 0
IsSamePerson first other =
    ((a : String) × (b : String) × (confirmed first ≡ some a)
      × (confirmed other ≡ some b)
      × (normalise_email a ≡ normalise_email b))
    ⊎ ((chat : ℕ) × (first.telegram_id ≡ some chat) × (other.telegram_id ≡ some chat))

any-among :
    {A : Type 0} (p : A → Bool) (xs ys : List A) (y : A)
    → p y ≡ true
    → any p ((xs ++ y ∷ []) ++ ys) ≡ true
any-among p [] ys y h = ground (arith, h)
any-among p (x ∷ xs) ys y h = ground (arith, any-among p xs ys y h)

-- the row that an account's trial leaves stands in the way of the other account's
grant-already :
    (first other : User) (ip : String) (key now : ℕ) (earlier later : List TrialGrant) (db : Portal)
    → IsSamePerson first other
    → db.trial_grants
      ≡ (earlier ++ grant_of first (norm_of (confirmed first)) ip key now ∷ []) ++ later
    → already_granted (norm_of (confirmed other)) other.telegram_id db ≡ true
unfolding already_granted grant_of
grant-already first other ip key now earlier later db (inl (a, b, one, two, same)) rows =
    let row = grant_of first (norm_of (confirmed first)) ip key now in
    rw (two, rows)
      (any-among (is_same (some (normalise_email b)) other.telegram_id) earlier later row
        (rw (one, same) (ground (arith, (eq_iff (normalise_email b) (normalise_email b)).1 refl))))
grant-already first other ip key now earlier later db (inr (chat, one, two)) rows =
    let row = grant_of first (norm_of (confirmed first)) ip key now in
    rw (two, rows)
      (ground (
        arith,
        any-among (is_same (norm_of (confirmed other)) (some chat)) earlier later row
            (rw one (ground (arith, ==_self chat))),
      ))

same_row : {A : Type 0} (a b : A) (xs : List A) → xs ≡ a ∷ [] → xs ≡ b ∷ [] → a ≡ b
same_row a b xs e f = ground (arith, e, f)

module _ (env : Environment) (set : TrialSettings) where
  -- past the tests and the limiter, an account with a grant already is refused
  refused :
      (sub ip : String) (now clock : ℕ) (t : Trials env) (user : User)
      → select (λ (u : User). str_eq u.username sub) t.session.db.users ≡ user ∷ []
      → refusal env set now user ≡ none
      → (RateLimit.take ip clock t.limiter).0 ≡ true
      → already_granted (norm_of (confirmed user)) user.telegram_id t.session.db ≡ true
      → start_trial env set sub ip now clock t ≡ (
        err (http 409 "trial_used"),
        record t { limiter = (RateLimit.take ip clock t.limiter).1 },
      )
  unfolding start_trial current_user start_for start_unless give_if_free give_trial
  refused sub ip now clock t user one allowed free again = rw (one, allowed, free, again) refl

  -- Once a trial was given, another request, by that account or by any other with the same
  -- confirmed mailbox in any of its spellings or with the same Telegram account, is answered "trial_used", whenever
  -- and from wherever it comes, and changes nothing but the limiter: if the account passes the
  -- tests on itself, the limiter lets the request through, and the grants still begin with those
  -- that the first request committed.
  pub start_trial-once :
      (sub sub' ip ip' : String) (now now' clock clock' : ℕ) (t t' u : Trials env)
      (first other : User) (c : Config) (later : List TrialGrant)
      → select (λ (u : User). str_eq u.username sub) t.session.db.users ≡ first ∷ []
      → start_trial env set sub ip now clock t ≡ (ok c, t')
      → u.session.db.trial_grants ≡ t'.session.committed.trial_grants ++ later
      → select (λ (u : User). str_eq u.username sub') u.session.db.users ≡ other ∷ []
      → IsSamePerson first other
      → refusal env set now' other ≡ none
      → (RateLimit.take ip' clock' u.limiter).0 ≡ true
      → start_trial env set sub' ip' now' clock' u ≡ (
        err (http 409 "trial_used"),
        record u { limiter = (RateLimit.take ip' clock' u.limiter).1 },
      )
  start_trial-once sub sub' ip ip' now now' clock clock' t t' u first other c later known given rows
        known' same allowed free =
      let (user, found, h) =
        subst (StartOutcome env set sub ip now t) given
          (start_trial-outcome env set sub ip now clock t) in
      let is : user ≡ first = same_row user first _ found known in
      refused sub' ip' now' clock' u other known' allowed free (
        grant-already user other ip t.session.db.next_id now t.session.db.trial_grants later
          u.session.db (rw is same) (rows ∙ ap (λ gs. gs ++ later) h.grants))
