-- ===== src/Payments/Orders/Priced.antt =====
-- What an order that is opened is, and that a failed one is never left pending.
use mathlib.Core.Path.{subst}
use vpn_infrastructure_showc.Base.{
  ℕ, ◌≤◌, String, ◌≡◌, refl, sym, ◌⊎◌, inl, inr, false, Option, none, some, List, [], ◌∷◌, ◌++◌,
  arith, ltb, ◌==◌, str_eq, any, select, Bool-cases,
}
use vpn_infrastructure_showc.Model.{User, Payment}
use vpn_infrastructure_showc.Exec
use vpn_infrastructure_showc.Exec.{Exec, ok, err, then_do, ◌>>=◌}
use vpn_infrastructure_showc.Nodes.{Environment}
use vpn_infrastructure_showc.Plans.{Plan, is_on_sale, config_limit}
use vpn_infrastructure_showc.Credit.Codes.{Refusal}
use vpn_infrastructure_showc.Credit.Pricing.{Quote, price_order}
use vpn_infrastructure_showc.Provisioner.Issue.{State}
use vpn_infrastructure_showc.Provisioner.Issue.Same.{SameDb, SameDb-refl}
use vpn_infrastructure_showc.Payments.{Gateways, one_or_none}
use vpn_infrastructure_showc.Payments.Orders.{
  Request, held_devices, is_unreachable, new_payment, add_payment, save_order, save_priced,
  open_order, user_or_404, current_user, send_to_platega, create_on_sale, create_payment_platega,
}
use vpn_infrastructure_showc.Payments.Orders.Sent.{Sent, Gives, failed, taken, send_to_platega-Sent}

module _ (env : Environment) where
  -- An order as it was opened: the customer can be reached, the plan takes their devices, and the
  -- order has the price that the customer would be quoted.
  pub record IsOpened (s : State env) (user : User) (req : Request) (plan : Plan) (now : ℕ)
      (p : Payment) (quote : Quote) : Type 0 where
    pub reachable : is_unreachable user ≡ false
    pub room : held_devices user s.db ≤ config_limit (some req.plan)
    pub priced : price_order s.db user req.plan req.code req.use_credit now ≡ some quote
    pub accepted : quote.promo_refused ≡ none
    pub key : p.id ≡ s.db.next_id
    pub of_user : p.user_id ≡ user.id
    pub of_plan : p.plan ≡ req.plan
    pub price : p.amount ≡ quote.amount
    pub currency : p.currency ≡ plan.currency
    pub pending : p.status ≡ "pending"
    pub unpaid : p.paid_at ≡ none
    pub promo : p.promo_code ≡ quote.promo_code
    pub credit : p.credit_spent ≡ quote.credit_spent

  abbrev OpenOutcome :
      State env → User → Request → Plan → ℕ → Exec.Result (Payment × Quote) × State env → Type 0
  OpenOutcome s user req plan now (err e, t) = SameDb s t
  OpenOutcome s user req plan now (ok (p, quote), t) =
      IsOpened s user req plan now p quote × (t.world ≡ s.world) × (t.db ≡ add_payment p s.db)

  save_order-Outcome :
      (s : State env) (user : User) (req : Request) (plan : Plan) (now : ℕ) (quote : Quote)
      (refused : Option Refusal)
      → is_unreachable user ≡ false
      → ltb (config_limit (some req.plan)) (held_devices user s.db) ≡ false
      → price_order s.db user req.plan req.code req.use_credit now ≡ some quote
      → quote.promo_refused ≡ refused
      → OpenOutcome s user req plan now (save_order env user req plan now quote refused s)
  unfolding save_order new_payment
  save_order-Outcome s user req plan now quote (some reason) reach room e refused = SameDb-refl s
  save_order-Outcome s user req plan now quote none reach room e fine = (
    record {
      reachable = reach;
      room = ground (arith, room);
      priced = e;
      accepted = fine;
      key = refl;
      of_user = refl;
      of_plan = refl;
      price = refl;
      currency = refl;
      pending = refl;
      unpaid = refl;
      promo = refl;
      credit = refl;
    },
    refl,
    refl,
  )

  save_priced-Outcome :
      (s : State env) (user : User) (req : Request) (plan : Plan) (now : ℕ) (o : Option Quote)
      → is_unreachable user ≡ false
      → ltb (config_limit (some req.plan)) (held_devices user s.db) ≡ false
      → price_order s.db user req.plan req.code req.use_credit now ≡ o
      → OpenOutcome s user req plan now (save_priced env user req plan now o s)
  unfolding save_priced
  save_priced-Outcome s user req plan now none reach room e = SameDb-refl s
  save_priced-Outcome s user req plan now (some quote) reach room e =
      save_order-Outcome s user req plan now quote quote.promo_refused reach room e refl

  open_order-Outcome :
      (s : State env) (user : User) (req : Request) (plan : Plan) (now : ℕ)
      → OpenOutcome s user req plan now (open_order env user req plan now s)
  unfolding open_order
  open_order-Outcome s user req plan now = elim (Bool-cases (is_unreachable user)) [
    | inl missing ↦ rw missing (SameDb-refl s)
    | inr reach ↦ elim (Bool-cases (ltb (config_limit (some req.plan)) (held_devices user s.db))) [
      | inl full ↦ rw (reach, full) (SameDb-refl s)
      | inr room ↦ rw (reach, room) (save_priced-Outcome s user req plan now _ reach room refl)
    ]
  ]

  -- How the request for a page at Platega ends.
  abbrev pub CreateOutcome :
      Gateways env.World
      → String
      → Request
      → ℕ
      → State env
      → Exec.Result (String × Payment × Quote) × State env
      → Type 0
  CreateOutcome gate sub req now s (err e, s') =
      SameDb s s'
      ⊎ ((user : User) × (plan : Plan) × (p : Payment) × (quote : Quote) × IsOpened s user req plan
            now p quote
          × (s'.committed ≡ s'.db)
          × (s'.db.payments ≡ s.db.payments ++ failed p ∷ []))
  CreateOutcome gate sub req now s (ok (url, p', quote), s') =
      (user : User) × (plan : Plan) × (p : Payment) × (is_on_sale req.plan ≡ some plan)
      × (select (λ (u : User). str_eq u.username sub) s.db.users ≡ user ∷ [])
      × IsOpened s user req plan now p quote
      × (txn : String) × (Gives env gate quote plan p s.world txn url)
      × (p' ≡ taken txn p)
      × (s'.committed ≡ s'.db)
      × (s'.db.payments ≡ s.db.payments ++ p' ∷ [])

  Sent-Create :
      (gate : Gateways env.World) (sub : String) (user : User) (req : Request) (plan : Plan)
      (now : ℕ) (s : State env) (p : Payment) (quote : Quote)
      (r : Exec.Result (String × Payment × Quote) × State env)
      → is_on_sale req.plan ≡ some plan
      → select (λ (u : User). str_eq u.username sub) s.db.users ≡ user ∷ []
      → IsOpened s user req plan now p quote
      → Sent env gate plan s.db.payments p quote s.world r
      → CreateOutcome gate sub req now s r
  Sent-Create gate sub user req plan now s p quote (err e, s') on_sale known opened
        (saved, placed) =
      inr (user, plan, p, quote, opened, saved, placed)
  Sent-Create gate sub user req plan now s p quote (ok (url, p', quote'), s') on_sale known opened
        (saved, placed, same, txn, gave, is) =
      (
        user,
        plan,
        p,
        on_sale,
        known,
        subst (IsOpened s user req plan now p) (sym same) opened,
        txn,
        subst (λ q. Gives env gate q plan p s.world txn url) (sym same) gave,
        is,
        saved,
        placed,
      )

  module _ (gate : Gateways env.World) (sub : String) (req : Request) (now : ℕ) (s : State env)
      (new : any (λ (r : Payment). r.id == s.db.next_id) s.db.payments ≡ false) where
    opened-Create :
        (user : User) (plan : Plan) (r : Exec.Result (Payment × Quote) × State env)
        → is_on_sale req.plan ≡ some plan
        → select (λ (u : User). str_eq u.username sub) s.db.users ≡ user ∷ []
        → OpenOutcome s user req plan now r
        → CreateOutcome gate sub req now s (then_do (send_to_platega env gate plan) r)
    unfolding add_payment
    opened-Create user plan (err e, t) on_sale known h = inl h
    opened-Create user plan (ok (p, quote), t) on_sale known (opened, quiet, added) =
        Sent-Create gate sub user req plan now s p quote _ on_sale known opened (
          subst
            (λ w.
              Sent env gate plan s.db.payments p quote w
                (send_to_platega env gate plan (p, quote) t))
            quiet
            (send_to_platega-Sent env gate s.db.payments p quote (rw opened.key new) plan t
              (rw added refl)))

    known-Create :
        (plan : Plan) (users : List User)
        → is_on_sale req.plan ≡ some plan
        → select (λ (u : User). str_eq u.username sub) s.db.users ≡ users
        → CreateOutcome gate sub req now s (
            then_do
              (λ user. open_order env user req plan now >>= send_to_platega env gate plan)
              (then_do (user_or_404 env) (one_or_none users s)))
    known-Create plan [] on_sale known = inl (SameDb-refl s)
    known-Create plan (user ∷ []) on_sale known =
        opened-Create user plan _ on_sale known (open_order-Outcome s user req plan now)
    known-Create plan (u ∷ v ∷ us) on_sale known = inl (SameDb-refl s)

    on_sale-Create :
        (o : Option Plan)
        → is_on_sale req.plan ≡ o
        → CreateOutcome gate sub req now s (create_on_sale env gate sub req now o s)
    unfolding create_on_sale current_user
    on_sale-Create none e = inl (SameDb-refl s)
    on_sale-Create (some plan) e = known-Create plan _ e refl

    -- Asking for a page at Platega, when no stored order has the next key. If it succeeds, exactly
    -- one order is added and committed, for the one account of that name: at the amount that the
    -- account is quoted at that moment, pending, with the transaction and the page that Platega
    -- answered with when it was asked for that amount, for a plan on sale that takes the devices the account holds, and for a customer who can be
    -- reached. If it fails, either nothing has changed, or the one order added is marked as an
    -- error, and committed: no failed order is left pending.
    pub create_payment_platega-outcome :
        CreateOutcome gate sub req now s (create_payment_platega env gate sub req now s)
    unfolding create_payment_platega
    create_payment_platega-outcome = on_sale-Create _ refl
