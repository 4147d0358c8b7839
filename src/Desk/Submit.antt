-- ===== src/Desk/Submit.antt =====
-- `submit_order` (app/services/order_service.py).
pub mod Placing
use pios_backend.Desk.{
  duplicate, integrity, RiskLimit, is_oco, false, List, none, OrderCreate, Settings, AlgoConfig,
  some, is_conditional, BrokerResult, Broker, Bool, Option, InvalidTransition, User, is_algorithmic,
  String, OrderError,
}
use pios_backend.Desk.Risk.{
  risk_check, get_broker_or_404, refusal, keyed, failed_checks, conditional_error,
}
use pios_backend.Order.{transition, OrderType, stop_leg, RiskResult, limit_leg, Leg, Order, Status}
use pios_backend.Store.{fill_row, book_fill, book_snapshot, Books, World}
use pios_backend.Desk.Moves.{store, audit_order, move}
use pios_backend.Prelude.{
  or_else, text_or, not, ◌∷◌, ◌++◌, [], ok, err, any_of, if◌then◌else◌, str_append, Result, ℕ,
}
use pios_backend.Num.{nought, or_zero, lt, Num}

module _ {F : Type 0} where
  -- The unique index on `(user_id, client_order_id)`.
  abbrev pub clashes : Order F → Order F → Bool
  clashes row o = elim row.client_order_id [ none ↦ false | some k ↦ keyed row.user_id k o ]

  -- The INSERT of a row.
  abbrev pub insert : OrderError → Order F → World F → Result OrderError (World F)
  insert e row w =
      if any_of (clashes row) w.orders
      then err e
      else ok (record w { orders = w.orders ++ (row ∷ []) })

  abbrev pub oco_config : ℕ → Leg → AlgoConfig F
  oco_config group leg = record {
    slices = none;
    interval_seconds = none;
    display_qty = none;
    oco_group = some group;
    oco_leg = some leg;
  }

  -- The row of a request, before its first transition.
  unfoldable pub fresh_order :
      F → ℕ → String → User → Broker → OrderCreate F → RiskResult F → ℕ → Order F
  fresh_order zero_qty i key user broker req risk now = record {
    id = i;
    client_order_id = some key;
    broker_order_id = none;
    user_id = user.id;
    broker_id = broker.id;
    strategy_id = req.strategy_id;
    symbol_id = req.symbol_id;
    side = req.side;
    order_type = req.order_type;
    time_in_force = req.time_in_force;
    qty = req.qty;
    filled_qty = zero_qty;
    price = req.price;
    stop_price = req.stop_price;
    avg_fill_price = none;
    status = none;
    state_history = [];
    events = [];
    algo_config = req.algo_config;
    reject_reason = none;
    risk_check = some risk;
    submitted_at = none;
    filled_at = none;
    cancelled_at = none;
    created_at = now;
  }

  -- The except clause: the reason is kept.
  abbrev reject : ℕ → String → Order F → Result OrderError (Order F)
  reject now reason o = elim (move Status.rejected (some reason) now o) [
    | err e ↦ err e
    | ok o' ↦ ok (record o' { reject_reason = some reason })
  ]

module _ {F : Type 0} ⦃n : Num F⦄ where
  -- `value or default` on an optional number.
  abbrev pub num_or : Option F → F → F
  num_or none d = d
  num_or (some x) d = or_zero x d

  -- The books after an instant fill.
  unfoldable pub book_instant : ℕ → Order F → F → F → Books F → Books F
  book_instant now o qty price b = book_snapshot o.user_id (book_fill now o qty price b)

  abbrev pub fill_note : F → F → Option String
  fill_note fill_qty qty =
      if lt fill_qty qty
      then some (
          str_append "Filled " (
            str_append (n.show fill_qty)
              (str_append " of " (str_append (n.show qty) " (broker balance/fee adjustment)"))))
      else none

  -- One call of the broker: an instant fill, an order that rests, or a refusal. `text` is the
  -- message of an exception.
  unfoldable pub place :
      (InvalidTransition → String)
      → ℕ
      → Result String (BrokerResult F)
      → Order F
      → Books F
      → Result OrderError (Order F × Books F)
  place text now (err reason) order b = elim (reject now reason order) [
    | err e ↦ err e
    | ok o ↦ ok (o, b)
  ]
  place text now (ok r) order b =
      let sent = record order { broker_order_id = r.broker_order_id } in
      let price = num_or r.avg_price (num_or order.price nought) in
      let qty = num_or r.filled_qty order.qty in
      if r.is_filled
      then elim (transition Status.filled (fill_note qty order.qty) now
          (record sent { filled_qty = qty; avg_fill_price = some price })) [
            | ok o ↦ ok (record o { filled_at = some now }, book_instant now sent qty price b)
            | err e ↦
                elim (reject now (text e)
                  (record sent { filled_qty = qty; avg_fill_price = some price })) [
                    | err e' ↦ err e'
                    | ok o ↦ ok (o, record b { fills = b.fills ++ (fill_row sent qty price ∷ []) })
                  ]
          ]
      else elim (transition Status.submitted (some "Sent to broker") now sent) [
        | ok o ↦ ok (o, b)
        | err e ↦ elim (reject now (text e) sent) [ err e' ↦ err e' | ok o ↦ ok (o, b) ]
      ]

  abbrev armed_text : String → Option F → String
  armed_text label none = str_append label "None"
  armed_text label (some x) = str_append label (n.show x)

  -- The pair of an OCO order: the row that is returned becomes the limit leg, the second row is the
  -- stop leg.
  unfoldable pub oco_limit_leg : ℕ → Order F → Result OrderError (Order F)
  oco_limit_leg now o =
      move Status.submitted (some (armed_text "OCO limit leg armed at " o.price)) now
        (record o { algo_config = some (oco_config o.id limit_leg); stop_price = none })

  unfoldable pub oco_stop_leg :
      ℕ → ℕ → User → Broker → OrderCreate F → RiskResult F → Order F → Result OrderError (Order F)
  unfolding fresh_order
  oco_stop_leg now j user broker req risk o =
      let row =
        fresh_order nought j (str_append (or_else o.client_order_id "") "-STP") user broker req risk
          now in
      elim (move Status.submitted (some (armed_text "OCO stop leg armed at " req.stop_price)) now
        (record row {
          order_type = OrderType.oco;
          price = none;
          algo_config = some (oco_config o.id stop_leg);
        })) [ err e ↦ err e | ok leg ↦ ok (record leg { submitted_at = o.submitted_at }) ]

  -- What becomes of a stored row, by its type.
  unfoldable pub route :
      (InvalidTransition → String)
      → (Order F → Result String (BrokerResult F))
      → ℕ
      → ℕ
      → User
      → Broker
      → OrderCreate F
      → RiskResult F
      → Order F
      → World F
      → Result OrderError (Order F × World F)
  unfolding is_algorithmic is_conditional
  route text adapter now j user broker req risk o w =
      if is_algorithmic req.order_type
      then ok (o, w)
      else if is_conditional req.order_type
      then (if is_oco req.order_type
          then elim (oco_limit_leg now o) [
            | err e ↦ err e
            | ok limit_row ↦ elim (oco_stop_leg now j user broker req risk limit_row) [
              | err e ↦ err e
              | ok stop_row ↦ elim (insert integrity stop_row (store limit_row w)) [
                | err e ↦ err e
                | ok w' ↦ ok (limit_row, w')
              ]
            ]
          ]
          else elim (move Status.submitted
              (some (
                str_append (armed_text "Stop-limit armed — triggers at " req.stop_price)
                  (armed_text ", limit " req.price)))
              now o) [ err e ↦ err e | ok o' ↦ ok (o', store o' w) ])
      else elim (place text now (adapter o) o w.books) [
        | err e ↦ err e
        | ok (o', b) ↦ ok (o', record (store o' w) { books = b })
      ]

  -- `submit_order`. The gate reads `seen`, the rows committed when its queries run; the INSERT meets
  -- `w`, which another request may have changed since. `i` and `j` are the new rows' identifiers and
  -- `generated` the key for a request without one.
  unfoldable pub submit_order :
      (InvalidTransition → String)
      → (Order F → Result String (BrokerResult F))
      → Settings F
      → List (RiskLimit F)
      → List Broker
      → List (Order F)
      → ℕ
      → ℕ
      → ℕ
      → String
      → User
      → OrderCreate F
      → World F
      → Result OrderError (Order F × World F)
  submit_order text adapter settings limits brokers seen now i j generated user req w =
      elim (get_broker_or_404 user req.broker_id brokers) [
        | err e ↦ err e
        | ok broker ↦ elim (conditional_error req) [
          | some e ↦ err e
          | none ↦
              elim (risk_check settings limits seen user.id req.qty req.price req.client_order_id) [
                | err e ↦ err e
                | ok risk ↦
                    if not risk.passed
                    then err (refusal (failed_checks risk.checks))
                    else elim (move Status.submitted none now (
                        fresh_order nought i (text_or req.client_order_id generated) user broker req
                          risk now)) [
                            | err e ↦ err e
                            | ok o ↦
                                let row = record o { submitted_at = some now } in
                                elim (insert duplicate row w) [
                                  | err e ↦ err e
                                  | ok w' ↦
                                      elim (route text adapter now j user broker req risk row w') [
                                        | err e ↦ err e
                                        | ok (o', w'') ↦
                                            ok (o', audit_order "ORDER_SUBMITTED" o'.id user w'')
                                      ]
                                ]
                          ]
              ]
        ]
      ]
