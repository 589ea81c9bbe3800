-- ===== src/Payments/Callbacks/Webhook.antt =====
-- What a webhook of Heleket may change: one unpaid order.
use vpn_infrastructure_showc.Base.{
  ℕ, ◌≡◌, refl, ◌⊎◌, inl, inr, true, false, ◌||◌, Option, none, some, List, [], ◌∷◌, ◌==◌, str_eq,
  holds, select, Bool-cases,
}
use vpn_infrastructure_showc.Model.{Payment}
use vpn_infrastructure_showc.Exec
use vpn_infrastructure_showc.Exec.{Exec, ok, err, then_do}
use vpn_infrastructure_showc.Nodes.{Environment}
use vpn_infrastructure_showc.Provisioner.Issue.{State}
use vpn_infrastructure_showc.Provisioner.Issue.Same.{SameDb, SameDb-refl}
use vpn_infrastructure_showc.Payments.{one_or_none}
use vpn_infrastructure_showc.Payments.Callbacks.{
  is_paid, Notice, known_status, on_notice, on_order_id, payment_webhook,
}
use vpn_infrastructure_showc.Payments.Callbacks.Granted.{
  IsMarked, IsActivated, Granted, activate_order-Granted, set_status-IsMarked,
}

module _ (env : Environment) where
  -- What a webhook of Heleket whose signature was right may change.
  abbrev pub NoticeOutcome :
      Option Notice → ℕ → State env → Exec.Result (Unit {0}) × State env → Type 0
  NoticeOutcome notice now s (err e, s') = SameDb s s'
  NoticeOutcome notice now s (ok _, s') =
      SameDb s s'
      ⊎ ((n : Notice) × (order : ℕ) × (p : Payment) × (notice ≡ some n)
          × (n.order_id ≡ some order)
          × (select (λ (q : Payment). q.id == order) s.db.payments ≡ p ∷ [])
          × (is_paid p ≡ false)
          × (((holds (λ t. str_eq t "paid" || str_eq t "paid_over") n.status ≡ true)
                × IsActivated env p now s s')
              ⊎ ((holds (λ t. str_eq t "paid" || str_eq t "paid_over") n.status ≡ false)
                  × IsMarked env (known_status n.status) p s s')))

  Granted-Notice :
      (n : Notice) (order : ℕ) (p : Payment) (now : ℕ) (s : State env)
      (r : Exec.Result (Unit {0}) × State env)
      → n.order_id ≡ some order
      → select (λ (q : Payment). q.id == order) s.db.payments ≡ p ∷ []
      → is_paid p ≡ false
      → holds (λ t. str_eq t "paid" || str_eq t "paid_over") n.status ≡ true
      → Granted env p now s r
      → NoticeOutcome (some n) now s r
  Granted-Notice n order p now s (err e, s') named one unpaid paid h = h
  Granted-Notice n order p now s (ok _, s') named one unpaid paid (inl same) = inl same
  Granted-Notice n order p now s (ok _, s') named one unpaid paid (inr done) =
      inr (n, order, p, refl, named, one, unpaid, inl (paid, done))

  on_notice-Outcome :
      (n : Notice) (order : ℕ) (now : ℕ) (s : State env) (orders : List Payment)
      → n.order_id ≡ some order
      → select (λ (q : Payment). q.id == order) s.db.payments ≡ orders
      → NoticeOutcome (some n) now s (then_do (on_notice env n.status now) (one_or_none orders s))
  unfolding on_notice
  on_notice-Outcome n order now s [] named e = inl (SameDb-refl s)
  on_notice-Outcome n order now s (p ∷ []) named e = elim (Bool-cases (is_paid p)) [
    | inl paid ↦ rw paid (inl (SameDb-refl s))
    | inr unpaid ↦
        elim (Bool-cases (holds (λ t. str_eq t "paid" || str_eq t "paid_over") n.status)) [
          | inl paid ↦
              rw (unpaid, paid)
                (Granted-Notice n order p now s _ named e unpaid paid
                  (activate_order-Granted env p now s s (SameDb-refl s)))
          | inr other ↦
              rw (unpaid, other)
                (inr (
                  n,
                  order,
                  p,
                  refl,
                  named,
                  e,
                  unpaid,
                  inr (
                    other,
                    set_status-IsMarked env (known_status n.status) p s s (SameDb-refl s),
                  ),
                ))
        ]
  ]
  on_notice-Outcome n order now s (p ∷ q ∷ ps) named e = SameDb-refl s

  on_order_id-Outcome :
      (n : Notice) (order : Option ℕ) (now : ℕ) (s : State env)
      → n.order_id ≡ order
      → NoticeOutcome (some n) now s (on_order_id env order n.status now s)
  on_order_id-Outcome n none now s e = inl (SameDb-refl s)
  on_order_id-Outcome n (some order) now s e = on_notice-Outcome n order now s _ e refl

  -- A Heleket webhook changes nothing unless its signature was right and it names exactly one
  -- order, which was not paid. Then it activates the order's account if the notice says paid or
  -- paid_over, and otherwise marks that order, committed. A raise changes nothing.
  pub payment_webhook-outcome :
      (notice : Option Notice) (now : ℕ) (s : State env)
      → NoticeOutcome notice now s (payment_webhook env notice now s)
  unfolding payment_webhook
  payment_webhook-outcome none now s = SameDb-refl s
  payment_webhook-outcome (some n) now s = on_order_id-Outcome n n.order_id now s refl
