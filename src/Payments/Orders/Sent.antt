-- ===== src/Payments/Orders/Sent.antt =====
-- What the order is once Platega was asked for a page: taken, or marked as an error.
use vpn_infrastructure_showc.Base.{
  String, ◌≡◌, refl, inl, inr, Bool, true, false, Option, none, some, List, [], ◌∷◌, ◌++◌, arith,
  ◌||◌, ◌==◌, ==_self, str_eq, any, update, Bool-cases,
}
use vpn_infrastructure_showc.Model.{Payment, Portal, save_payment}
use vpn_infrastructure_showc.Exec
use vpn_infrastructure_showc.Exec.{Exec, Error, ok, err, http}
use vpn_infrastructure_showc.Nodes.{Environment}
use vpn_infrastructure_showc.Plans.{Plan}
use vpn_infrastructure_showc.Credit.Pricing.{Quote}
use vpn_infrastructure_showc.Provisioner.Issue.{State}
use vpn_infrastructure_showc.Payments.{Created, Gateways}
use vpn_infrastructure_showc.Payments.Orders.{
  set_status, page_or_error, after_create, send_to_platega,
}

-- a write to the row that was added last reaches that row and no other
update-append_last {ℓ} :
    {A : Type ℓ} (p : A → Bool) (f : A → A) (xs : List A) (y : A)
    → any p xs ≡ false
    → p y ≡ true
    → update p f (xs ++ y ∷ []) ≡ xs ++ f y ∷ []
update-append_last p f [] y e h = ground (arith, h)
update-append_last p f (x ∷ xs) y e h =
    ground (arith, update-append_last p f xs y (ground (arith, e)) h, e)

save_payment-last :
    (p q : Payment) (db : Portal) (ps : List Payment)
    → db.payments ≡ ps ++ p ∷ []
    → any (λ (r : Payment). r.id == q.id) ps ≡ false
    → (p.id == q.id) ≡ true
    → (save_payment q db).payments ≡ ps ++ q ∷ []
unfolding save_payment
save_payment-last p q db ps e new same =
    rw e (update-append_last (λ (r : Payment). r.id == q.id) (λ _. q) ps p new same)

-- the order that the gateway failed, and the one that it took
abbrev pub failed : Payment → Payment
failed p = record p { provider = some "platega"; status = "error" }

abbrev pub taken : String → Payment → Payment
taken txn p = record p { provider = some "platega"; provider_ref = some txn }

module _ (env : Environment) where
  -- Platega was asked for the quoted amount in the plan's currency, for this order, and answered
  -- with this transaction and this page
  abbrev pub Gives :
      Gateways env.World → Quote → Plan → Payment → env.World → String → String → Type 0
  Gives gate quote plan p w txn url =
      (gate.create_transaction quote.amount plan.currency p.id w).0
      ≡ some (record { transaction = some txn; url = some url })

  abbrev pub Sent :
      Gateways env.World
      → Plan
      → List Payment
      → Payment
      → Quote
      → env.World
      → Exec.Result (String × Payment × Quote) × State env
      → Type 0
  Sent gate plan ps p quote w (err e, s') =
      (s'.committed ≡ s'.db) × (s'.db.payments ≡ ps ++ failed p ∷ [])
  Sent gate plan ps p quote w (ok (url, p', quote'), s') =
      (s'.committed ≡ s'.db)
      × (s'.db.payments ≡ ps ++ p' ∷ [])
      × (quote' ≡ quote)
      × (txn : String) × Gives gate quote plan p w txn url
      × (p' ≡ taken txn p)

  module _ (gate : Gateways env.World) (ps : List Payment) (p : Payment) (quote : Quote)
      (new : any (λ (r : Payment). r.id == p.id) ps ≡ false) (plan : Plan) (w : env.World) where
    abbrev p1 : Payment
    p1 = record p { provider = some "platega" }

    failed-Sent :
        (s : State env) (e : Error)
        → s.db.payments ≡ ps ++ p1 ∷ []
        → Sent gate plan ps p quote w (err e, set_status env "error" p1 s)
    unfolding set_status
    failed-Sent s e h = (refl, save_payment-last p1 (failed p) s.db ps h new (==_self p.id))

    page-Sent :
        (s : State env) (txn url : Option String)
        → s.db.payments ≡ ps ++ p1 ∷ []
        → (gate.create_transaction quote.amount plan.currency p.id w).0
          ≡ some (record { transaction = txn; url = url })
        → Sent gate plan ps p quote w (page_or_error env gate p1 quote txn url s)
    page-Sent s none url h e = failed-Sent s (http 502 "Payment gateway error") h
    page-Sent s (some txn) none h e = failed-Sent s (http 502 "Payment gateway error") h
    page-Sent s (some txn) (some url) h e = elim (Bool-cases (str_eq txn "" || str_eq url "")) [
      | inl empty ↦ rw empty (failed-Sent s (http 502 "Payment gateway error") h)
      | inr full ↦ rw full (
        refl,
        save_payment-last p1 (taken txn p) s.db ps h new (==_self p.id),
        refl,
        txn,
        e,
        refl,
      )
    ]

    after_create-Sent :
        (s : State env) (answer : Option Created)
        → s.db.payments ≡ ps ++ p1 ∷ []
        → (gate.create_transaction quote.amount plan.currency p.id w).0 ≡ answer
        → Sent gate plan ps p quote w (after_create env gate p1 quote answer s)
    unfolding after_create
    after_create-Sent s none h e = failed-Sent s (http 502 "Payment gateway error") h
    after_create-Sent s (some created) h e = page-Sent s created.transaction created.url h e

  module _ (gate : Gateways env.World) (ps : List Payment) (p : Payment) (quote : Quote)
      (new : any (λ (r : Payment). r.id == p.id) ps ≡ false) where
    pub send_to_platega-Sent :
        (plan : Plan) (t : State env)
        → t.db.payments ≡ ps ++ p ∷ []
        → Sent gate plan ps p quote t.world (send_to_platega env gate plan (p, quote) t)
    unfolding send_to_platega
    send_to_platega-Sent plan t h =
        after_create-Sent gate ps p quote new plan t.world _ _
          (save_payment-last p (p1 gate ps p quote new plan t.world) t.db ps h new (==_self p.id))
          refl
