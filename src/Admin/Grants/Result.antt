-- ===== src/Admin/Grants/Result.antt =====
-- What a grant leaves behind on each of its ends.
use vpn_infrastructure_showc.Base.{
  suc, pos, none, some, ℕ, ◌<◌, String, ◌≡◌, refl, ◌∙◌, ap, ◌⊎◌, inl, inr, Bool, true, false,
  Bool-cases, List, [], ◌∷◌, ◌++◌, arith, ◌==◌, ==_self, ==_iff, str_eq, is_none, delete, select,
  All, if◌then◌else◌,
}
use vpn_infrastructure_showc.PyText.{strip}
use vpn_infrastructure_showc.Model.{User, Payment, Portal}
use vpn_infrastructure_showc.Exec
use vpn_infrastructure_showc.Exec.{ok, err, http, then_do}
use vpn_infrastructure_showc.Nodes.{Environment}
use vpn_infrastructure_showc.Plans.{is_on_sale}
use vpn_infrastructure_showc.Provisioner.Issue.{State}
use vpn_infrastructure_showc.Provisioner.Issue.Same.{SameDb, SameDb-refl}
use vpn_infrastructure_showc.Provisioner.Activate.{activate_payment}
use vpn_infrastructure_showc.Provisioner.Activate.Result.{ActivateOutcome, activate_payment-outcome}
use vpn_infrastructure_showc.Payments.{one_or_none}
use vpn_infrastructure_showc.Admin.Grants.{
  manual_payment, after_grant, add_manual, grant_to, grant_found, grant,
}

-- a row that was just added goes again, and no other
delete-added :
    (key : ℕ) (p : Payment) (rows : List Payment)
    → All (λ (r : Payment). r.id < key) rows
    → p.id ≡ key
    → delete (λ r. r.id == p.id) (rows ++ p ∷ []) ≡ rows
delete-added key p [] h e = ground (arith, ==_self p.id)
delete-added key p (r ∷ rows) h e =
    ground (arith, h.0, e, ==_iff r.id p.id, delete-added key p rows h.1 e)

module _ (env : Environment) where
  -- A payment of nothing, by hand, for this account and plan.
  pub record IsGift (s : State env) (user : User) (plan : String) (now : ℕ) (p : Payment)
      : Type 0 where
    pub key : p.id ≡ s.db.next_id
    pub of_user : p.user_id ≡ user.id
    pub of_plan : p.plan ≡ plan
    pub of_nothing : p.amount ≡ pos 0
    pub no_credit : p.credit_spent ≡ pos 0
    pub no_promo : p.promo_code ≡ none
    pub by_hand : p.provider ≡ some "manual"
    pub pending : p.status ≡ "pending"
    pub made : p.created_at ≡ now

  -- the tables with the manual order, committed
  abbrev pub opened : Payment → State env → State env
  opened p s =
      let db : Portal = record s.db {
        next_id = suc s.db.next_id;
        payments = s.db.payments ++ p ∷ [];
      } in
      record s { db = db; committed = db }

  -- Access was granted: to an account that is active, for a plan on sale, by the activation
  -- of a payment of nothing.
  pub record IsGranted (username plan : String) (now : ℕ) (s s' : State env) : Type 0 where
    pub user : User
    pub holder : select (λ (u : User). str_eq u.username (strip username)) s.db.users ≡ user ∷ []
    pub active : user.is_active ≡ true
    pub on_sale : is_none (is_on_sale plan) ≡ false
    pub payment : Payment
    pub gift : IsGift s user plan now payment
    pub activated : ActivateOutcome env (opened payment s) user payment now (ok true, s')

  -- Nothing was granted: the tables are the ones before, or the activation raised, and the manual
  -- order is left pending in them.
  abbrev pub GrantOutcome :
      String → String → ℕ → State env → Exec.Result (Unit {0}) × State env → Type 0
  GrantOutcome username plan now s (ok a, s') = IsGranted username plan now s s'
  GrantOutcome username plan now s (err e, s') =
      ((s'.db.payments ≡ s.db.payments)
        × (s'.db.users ≡ s.db.users)
        × ((s'.committed ≡ s'.db) ⊎ SameDb s s'))
      ⊎ ((user : User) × (p : Payment) × IsGift s user plan now p
          × (s'.committed.payments ≡ s.db.payments ++ p ∷ [])
          × ((activate_payment env user p now (opened p s)).0 ≡ err e))

  module _ (username plan : String) (now : ℕ) (s : State env) (user : User)
      (given : All (λ (p : Payment). p.id < s.db.next_id) s.db.payments)
      (one : select (λ (u : User). str_eq u.username (strip username)) s.db.users ≡ user ∷ [])
      (on_sale : is_none (is_on_sale plan) ≡ false) where
    abbrev gift : Payment
    gift = manual_payment user plan s.db.next_id now

    gift-IsGift : IsGift s user plan now gift
    unfolding manual_payment
    gift-IsGift = record {
      key = refl;
      of_user = refl;
      of_plan = refl;
      of_nothing = refl;
      no_credit = refl;
      no_promo = refl;
      by_hand = refl;
      pending = refl;
      made = refl;
    }

    after-Outcome :
        (r : Exec.Result Bool × State env)
        → user.is_active ≡ true
        → activate_payment env user gift now (opened gift s) ≡ r
        → ActivateOutcome env (opened gift s) user gift now r
        → GrantOutcome username plan now s (then_do (after_grant env gift) r)
    unfolding after_grant manual_payment
    after-Outcome (ok true, t) active e h = record {
      user = user;
      holder = one;
      active = active;
      on_sale = on_sale;
      payment = gift;
      gift = gift-IsGift;
      activated = h;
    }
    after-Outcome (ok false, t) active e h = inl (
      ap (λ (d : Portal). delete (λ p. p.id == s.db.next_id) d.payments) h.view
          ∙ delete-added s.db.next_id gift s.db.payments given refl,
      ap (λ (d : Portal). d.users) h.view,
      inl refl,
    )
    after-Outcome (err x, t) active e h =
        inr (user, gift, gift-IsGift, ap (λ (d : Portal). d.payments) h.saved, ap (λ r. r.0) e)

    grant_to-Outcome :
        user.is_active ≡ true → GrantOutcome username plan now s (grant_to env plan now user s)
    unfolding grant_to add_manual
    grant_to-Outcome active =
        after-Outcome _ active refl (activate_payment-outcome env user gift now (opened gift s))

    found-active :
        (b : Bool)
        → user.is_active ≡ b
        → GrantOutcome username plan now s
            (if b then grant_to env plan now user s else (err (http 409 "Account is disabled"), s))
    found-active true active = grant_to-Outcome active
    found-active false closed = inl (refl, refl, inr (SameDb-refl s))

  rows-Outcome :
      (username plan : String) (now : ℕ) (s : State env) (rows : List User)
      → All (λ (p : Payment). p.id < s.db.next_id) s.db.payments
      → is_none (is_on_sale plan) ≡ false
      → select (λ (u : User). str_eq u.username (strip username)) s.db.users ≡ rows
      → GrantOutcome username plan now s (then_do (grant_found env plan now) (one_or_none rows s))
  unfolding grant_found
  rows-Outcome username plan now s [] given on_sale one = inl (refl, refl, inr (SameDb-refl s))
  rows-Outcome username plan now s (user ∷ []) given on_sale one =
      found-active username plan now s user given one on_sale user.is_active refl
  rows-Outcome username plan now s (x ∷ y ∷ rows) given on_sale one =
      inl (refl, refl, inr (SameDb-refl s))

  -- A grant that succeeds is the activation, as of a bought period, of one order more, which costs
  -- nothing, spends no credit and is marked as made by hand, for the one account of that name, which
  -- is active, and for a plan on sale. A grant that is refused
  -- leaves the orders and the accounts as they were, and so does one for which no device could be
  -- issued; only when the activation raises does the manual order stay, pending. Every order's key
  -- was given out.
  pub grant-outcome :
      (username plan : String) (now : ℕ) (s : State env)
      → All (λ (p : Payment). p.id < s.db.next_id) s.db.payments
      → GrantOutcome username plan now s (grant env username plan now s)
  unfolding grant
  grant-outcome username plan now s given = elim (Bool-cases (is_none (is_on_sale plan))) [
    | inl unknown ↦ rw unknown (inl (refl, refl, inr (SameDb-refl s)))
    | inr on_sale ↦ rw on_sale (rows-Outcome username plan now s _ given on_sale refl)
  ]
