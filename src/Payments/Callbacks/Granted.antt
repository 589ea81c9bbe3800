-- ===== src/Payments/Callbacks/Granted.antt =====
-- What a gateway's message may change: one unpaid order, by what the gateway itself says of it.
use vpn_infrastructure_showc.Base.{
  ℕ, String, ◌≡◌, refl, sym, ap, ◌⊎◌, inl, inr, Bool, true, false, Option, none, some, List, [],
  ◌∷◌, arith, ℤ, ◌==◌, str_eq, holds, select, Bool-cases, eq_iff, eq_of_parts,
}
use vpn_infrastructure_showc.Model.{User, Payment, Portal, save_payment}
use vpn_infrastructure_showc.Exec
use vpn_infrastructure_showc.Exec.{Exec, ok, err, then_do}
use vpn_infrastructure_showc.Nodes.{Environment}
use vpn_infrastructure_showc.Provisioner.Issue.{State}
use vpn_infrastructure_showc.Provisioner.Issue.Same.{SameDb, SameDb-refl, SameDb-trans}
use vpn_infrastructure_showc.Provisioner.Activate.{activate_payment}
use vpn_infrastructure_showc.Provisioner.Activate.Result.{ActivateOutcome, activate_payment-outcome}
use vpn_infrastructure_showc.Payments.{Status, Gateways, one_or_none}
use vpn_infrastructure_showc.Payments.Orders.{set_status}
use vpn_infrastructure_showc.Payments.Callbacks.{
  of_transaction, is_paid, pays, acknowledged, activate_for, activate_order, on_status, on_answer,
  on_order, platega_callback,
}

-- a reported amount that passes the test is the order's
pays-eq : (amount : Option ℤ) (p : Payment) → pays amount p ≡ true → amount ≡ some p.amount
pays-eq none p h = ground arith
pays-eq (some a) p h = ap (λ x. some x) (eq_of_parts a p.amount (ground arith))

reports : (t : Option String) (text : String) → holds (λ v. str_eq v text) t ≡ true → t ≡ some text
reports none text h = ground arith
reports (some v) text h = ap (λ x. some x) ((eq_iff v text).0 h)

module _ (env : Environment) where
  -- The order is marked with a status and nothing else is written, and it is committed.
  pub record IsMarked (status : String) (p : Payment) (s s' : State env) : Type 0 where
    pub marked : s'.db ≡ save_payment (record p { status = status }) s.db
    pub saved : s'.committed ≡ s'.db

  -- The one account of the order is activated, from a session with this view of the database.
  pub record IsActivated (p : Payment) (now : ℕ) (s s' : State env) : Type 0 where
    pub user : User
    pub owner : select (λ (u : User). u.id == p.user_id) s.db.users ≡ user ∷ []
    pub start : State env
    pub same : SameDb s start
    pub done : activate_payment env user p now start ≡ (ok true, s')

  -- nothing changed, or the order's account was activated
  abbrev pub Granted : Payment → ℕ → State env → Exec.Result (Unit {0}) × State env → Type 0
  Granted p now s (err e, s') = SameDb s s'
  Granted p now s (ok _, s') = SameDb s s' ⊎ IsActivated p now s s'

  acknowledged-Granted :
      (p : Payment) (now : ℕ) (s t : State env) (user : User) (r : Exec.Result Bool × State env)
      → select (λ (u : User). u.id == p.user_id) s.db.users ≡ user ∷ []
      → SameDb s t
      → activate_payment env user p now t ≡ r
      → ActivateOutcome env t user p now r
      → Granted p now s (acknowledged env r)
  acknowledged-Granted p now s t user (err e, s') owner same run h = SameDb-trans same h
  acknowledged-Granted p now s t user (ok false, s') owner same run h = inl (SameDb-trans same h)
  acknowledged-Granted p now s t user (ok true, s') owner same run h =
      inr (record { user = user; owner = owner; start = t; same = same; done = run })

  activate_for-Granted :
      (p : Payment) (now : ℕ) (s t : State env) (users : List User)
      → select (λ (u : User). u.id == p.user_id) s.db.users ≡ users
      → SameDb s t
      → Granted p now s (then_do (activate_for env p now) (one_or_none users t))
  unfolding activate_for
  activate_for-Granted p now s t [] owner same = inl same
  activate_for-Granted p now s t (user ∷ []) owner same =
      acknowledged-Granted p now s t user _ owner same refl
        (activate_payment-outcome env user p now t)
  activate_for-Granted p now s t (u ∷ v ∷ us) owner same = same

  pub activate_order-Granted :
      (p : Payment) (now : ℕ) (s t : State env)
      → SameDb s t
      → Granted p now s (activate_order env p now t)
  unfolding activate_order
  activate_order-Granted p now s t same =
      activate_for-Granted p now s t _
        (ap (λ (db : Portal). select (λ (u : User). u.id == p.user_id) db.users) (sym same.view))
        same

  -- What Platega's answer may do to an order.
  abbrev pub StatusEffect : Payment → ℕ → Status → State env → State env → Type 0
  StatusEffect p now status s s' =
      ((status.status ≡ some "CONFIRMED")
        × (status.amount ≡ some p.amount)
        × IsActivated p now s s')
      ⊎ (((status.status ≡ some "CHARGEBACKED") × IsMarked "chargebacked" p s s')
          ⊎ ((status.status ≡ some "CANCELED") × IsMarked "canceled" p s s'))

  abbrev Answered : Payment → ℕ → Status → State env → Exec.Result (Unit {0}) × State env → Type 0
  Answered p now status s (err e, s') = SameDb s s'
  Answered p now status s (ok _, s') = SameDb s s' ⊎ StatusEffect p now status s s'

  Granted-Answered :
      (p : Payment) (now : ℕ) (status : Status) (s : State env)
      (r : Exec.Result (Unit {0}) × State env)
      → status.status ≡ some "CONFIRMED"
      → status.amount ≡ some p.amount
      → Granted p now s r
      → Answered p now status s r
  Granted-Answered p now status s (err e, s') confirmed amount h = h
  Granted-Answered p now status s (ok _, s') confirmed amount (inl same) = inl same
  Granted-Answered p now status s (ok _, s') confirmed amount (inr done) =
      inr (inl (confirmed, amount, done))

  pub set_status-IsMarked :
      (status : String) (p : Payment) (s t : State env)
      → SameDb s t
      → IsMarked status p s (set_status env status p t)
  unfolding set_status
  set_status-IsMarked status p s t same = record { marked = rw same.view; saved = refl }

  on_status-Answered :
      (p : Payment) (now : ℕ) (status : Status) (s t : State env)
      → SameDb s t
      → Answered p now status s (on_status env p now (some status) t)
  unfolding on_status
  on_status-Answered p now status s t same =
      elim (Bool-cases (holds (λ v. str_eq v "CONFIRMED") status.status)) [
        | inl confirmed ↦ elim (Bool-cases (pays status.amount p)) [
          | inl right ↦
              rw (confirmed, right)
                (Granted-Answered p now status s _ (reports status.status "CONFIRMED" confirmed)
                  (pays-eq status.amount p right) (activate_order-Granted p now s t same))
          | inr wrong ↦ rw (confirmed, wrong) (inl same)
        ]
        | inr other ↦ elim (Bool-cases (holds (λ v. str_eq v "CHARGEBACKED") status.status)) [
          | inl back ↦
              rw (other, back)
                (inr (
                  inr (
                    inl (
                      reports status.status "CHARGEBACKED" back,
                      set_status-IsMarked "chargebacked" p s t same,
                    ))))
          | inr no_claim ↦ elim (Bool-cases (holds (λ v. str_eq v "CANCELED") status.status)) [
            | inl gone ↦
                rw (other, no_claim, gone)
                  (inr (
                    inr (
                      inr (
                        reports status.status "CANCELED" gone,
                        set_status-IsMarked "canceled" p s t same,
                      ))))
            | inr pending ↦ rw (other, no_claim, pending) (inl same)
          ]
        ]
      ]

  module _ (gate : Gateways env.World) (txn : String) (now : ℕ) where
    -- A callback changes nothing, or one order with that transaction, which was not paid, by what
    -- Platega itself answers when it is asked.
    abbrev pub CallbackOutcome : State env → Exec.Result (Unit {0}) × State env → Type 0
    CallbackOutcome s (err e, s') = SameDb s s'
    CallbackOutcome s (ok _, s') =
        SameDb s s'
        ⊎ ((p : Payment) × (of_transaction txn s.db ≡ p ∷ [])
            × (is_paid p ≡ false)
            × (status : Status) × ((gate.fetch_status txn s.world).0 ≡ some (some status))
            × StatusEffect p now status s s')

    Answered-Outcome :
        (p : Payment) (status : Status) (s : State env) (r : Exec.Result (Unit {0}) × State env)
        → of_transaction txn s.db ≡ p ∷ []
        → is_paid p ≡ false
        → (gate.fetch_status txn s.world).0 ≡ some (some status)
        → Answered p now status s r
        → CallbackOutcome s r
    Answered-Outcome p status s (err e, s') one unpaid answer h = h
    Answered-Outcome p status s (ok _, s') one unpaid answer (inl same) = inl same
    Answered-Outcome p status s (ok _, s') one unpaid answer (inr effect) =
        inr (p, one, unpaid, status, answer, effect)

    on_answer-Outcome :
        (p : Payment) (s t : State env) (answer : Option (Option Status))
        → of_transaction txn s.db ≡ p ∷ []
        → is_paid p ≡ false
        → SameDb s t
        → (gate.fetch_status txn s.world).0 ≡ answer
        → CallbackOutcome s (on_answer env p now answer t)
    unfolding on_answer on_status
    on_answer-Outcome p s t none one unpaid same e = same
    on_answer-Outcome p s t (some none) one unpaid same e = same
    on_answer-Outcome p s t (some (some status)) one unpaid same e =
        Answered-Outcome p status s _ one unpaid e (on_status-Answered p now status s t same)

    on_order-Outcome :
        (s : State env) (orders : List Payment)
        → of_transaction txn s.db ≡ orders
        → CallbackOutcome s (then_do (on_order env gate txn now) (one_or_none orders s))
    unfolding on_order
    on_order-Outcome s [] e = inl (SameDb-refl s)
    on_order-Outcome s (p ∷ []) e = elim (Bool-cases (is_paid p)) [
      | inl paid ↦ rw paid (inl (SameDb-refl s))
      | inr unpaid ↦
          rw unpaid (on_answer-Outcome p s _ _ e unpaid (record { view = refl; saved = refl }) refl)
    ]
    on_order-Outcome s (p ∷ q ∷ ps) e = SameDb-refl s

    -- Whoever sends a Platega callback, with the right secret or not: if the database changes at
    -- all, exactly one order has the transaction, it was not paid, and Platega itself was asked and
    -- answered. An account is activated only if Platega answered CONFIRMED for the order's amount,
    -- and is the order's own; otherwise the one change is the mark of a chargeback or of a
    -- cancellation, committed. A raise changes nothing.
    pub platega_callback-outcome :
        (secret : Bool) (s : State env)
        → CallbackOutcome s (platega_callback env gate secret txn now s)
    unfolding platega_callback
    platega_callback-outcome false s = SameDb-refl s
    platega_callback-outcome true s = elim (Bool-cases (str_eq txn "")) [
      | inl empty ↦ rw empty (inl (SameDb-refl s))
      | inr named ↦ rw named (on_order-Outcome s _ refl)
    ]
