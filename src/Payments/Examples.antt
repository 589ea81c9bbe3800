-- ===== src/Payments/Examples.antt =====
-- Orders and callbacks with a gateway that confirms the sample order.
use vpn_infrastructure_showc.Base.{ℕ, refl, true, none, some, [], ◌∷◌, pos}
use vpn_infrastructure_showc.Model.{Portal}
use vpn_infrastructure_showc.Nodes.{Session}
use vpn_infrastructure_showc.Payments.{Gateways}
use vpn_infrastructure_showc.Payments.Orders.{Request, create_payment_platega}
use vpn_infrastructure_showc.Payments.Orders.Priced.{CreateOutcome, create_payment_platega-outcome}
use vpn_infrastructure_showc.Payments.Callbacks.{platega_callback, payment_webhook}
use vpn_infrastructure_showc.Payments.Callbacks.Granted.{CallbackOutcome, platega_callback-outcome}
use vpn_infrastructure_showc.Payments.Callbacks.Webhook.{NoticeOutcome, payment_webhook-outcome}
use vpn_infrastructure_showc.Sample.{node, order, portal, session}

abbrev gateways : Gateways ℕ
gateways = record {
  create_transaction = λ amount currency order w.
      (some (record { transaction = some "t-1"; url = some "https://pay" }), w);
  fetch_status =
      λ txn w. (some (some (record { status = some "CONFIRMED"; amount = some (pos 200) })), w);
  create_invoice = λ amount currency order w.
      (some (record { transaction = some "i-1"; url = some "https://pay" }), w);
}

abbrev with_order : Session ℕ
with_order =
    let db : Portal = record (portal []) { payments = order "basic-1m" ∷ [] } in
    record (session []) { db = db; committed = db }

abbrev month : Request
month = record { plan = "basic-1m"; code = none; use_credit = pos 50 }

create_payment_platega-outcome_example :
    CreateOutcome node gateways "bob" month 1000
      (session [])
      (create_payment_platega node gateways "bob" month 1000 (session []))
create_payment_platega-outcome_example =
    create_payment_platega-outcome node gateways "bob" month 1000 (session []) refl

platega_callback-outcome_example :
    CallbackOutcome node gateways "t-1" 1000 with_order
      (platega_callback node gateways true "t-1" 1000 with_order)
platega_callback-outcome_example = platega_callback-outcome node gateways "t-1" 1000 true with_order

payment_webhook-outcome_example :
    NoticeOutcome node (some (record { order_id = some 7; status = some "paid" })) 1000 with_order (
      payment_webhook node
        (some (record { order_id = some 7; status = some "paid" }))
        1000
        with_order)
payment_webhook-outcome_example =
    payment_webhook-outcome node (some (record { order_id = some 7; status = some "paid" })) 1000
      with_order
