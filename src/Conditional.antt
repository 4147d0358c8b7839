-- ===== src/Conditional.antt =====
-- The conditional-order engine (app/services/conditional_orders.py).
pub mod Oco
pub mod Once
use pios_backend.Desk.{is_conditional, is_oco, BrokerResult, OrderError}
use pios_backend.Num.{lt, ◌⊕◌, ◌⊘◌, nought, le, Num}
use pios_backend.Order.{is_working, Status, Side, OrderType, Leg, Order}
use pios_backend.Store.{num_or_zero, nudges, is_order, Books, Event, World, order_update}
use pios_backend.Desk.Moves.{move, cancel_rows, asked_of}
use pios_backend.Desk.Cancel.{oco_group_of}
use pios_backend.Desk.Submit.{num_or, book_instant}
use pios_backend.Prelude.{
  ◌==◌, if◌then◌else◌, is_some, opt_eq, Result, ok, err, keep_if, find_first, any_of, update_if, ℕ,
  String, str_append, Bool, true, false, not, ◌&&◌, ◌||◌, Option, none, some, List, [], ◌∷◌, ◌++◌,
  map, foldl,
}

-- What `get_live_ticker` answers.
pub record Ticker (F : Type 0) : Type 0 where
  pub error : Bool
  pub last : Option F
  pub bid : Option F
  pub ask : Option F

-- What the engine reads of the market, and the broker it fires at.
pub record Market (F : Type 0) : Type 0 where
  pub symbol_of : ℕ → Option String
  pub ticker : String → Option (Ticker F)
  pub submit : Order F → Result String (BrokerResult F)

abbrev is_stop_leg : Option Leg → Bool
is_stop_leg (some Leg.stop_leg) = true
is_stop_leg _ = false

abbrev is_stop_limit : OrderType → Bool
is_stop_limit OrderType.stop_limit = true
is_stop_limit _ = false

-- `order.status == OrderStatus.SUBMITTED`
abbrev pub is_submitted : Option Status → Bool
is_submitted (some Status.submitted) = true
is_submitted _ = false

-- `order.status == OrderStatus.FILLED`
abbrev pub is_filled_status : Option Status → Bool
is_filled_status (some Status.filled) = true
is_filled_status _ = false

abbrev is_buy : Side → Bool
is_buy Side.buy = true
is_buy Side.sell = false

module _ {F : Type 0} where
  -- `_oco_leg`
  abbrev pub oco_leg_of : Order F → Option Leg
  oco_leg_of o = elim o.algo_config [ none ↦ none | some c ↦ c.oco_leg ]

  abbrev pub is_stop_row : Order F → Bool
  is_stop_row o = is_oco o.order_type && is_stop_leg (oco_leg_of o)

  -- Submitted, and no broker has it.
  abbrev pub is_armed : Order F → Bool
  is_armed o = is_submitted o.status && not (is_some o.broker_order_id)

  abbrev pub is_conditional_row : Order F → Bool
  is_conditional_row o = is_armed o && is_conditional o.order_type

  -- A row of the group other than `i` that is at work.
  abbrev pub oco_sibling : ℕ → ℕ → Order F → Bool
  oco_sibling group i o =
      is_oco o.order_type
      && is_working o.status
      && opt_eq (oco_group_of o) (some group)
      && not (o.id == i)

  -- `_cancel_oco_siblings`
  unfoldable pub cancel_oco_siblings : F → ℕ → ℕ → ℕ → World F → Result OrderError (World F)
  cancel_oco_siblings zero_qty now group filled_id w =
      let p = oco_sibling group filled_id in
      elim (cancel_rows p "OCO sibling filled" now w.orders) [
        | err e ↦ err e
        | ok orders ↦ ok (record w {
          orders = orders;
          asked = w.asked ++ asked_of p w.orders;
          published =
              w.published
              ++ map (λ o. order_update o.user_id o.id (some Status.cancelled) zero_qty)
                  (keep_if p w.orders);
        })
      ]

  -- A FILLED leg of the group.
  abbrev pub filled_leg : ℕ → Order F → Bool
  filled_leg group o =
      is_oco o.order_type && is_filled_status o.status && opt_eq (oco_group_of o) (some group)

  -- `filled_groups`: each group with a FILLED leg, and the last such leg.
  unfoldable pub filled_groups : List (Order F) → List (ℕ × ℕ)
  filled_groups [] = []
  filled_groups (o ∷ os) =
      let rest = filled_groups os in
      elim (oco_group_of o) [
        | none ↦ rest
        | some group ↦
            if filled_leg group o && not (any_of (filled_leg group) os)
            then (group, o.id) ∷ rest
            else rest
      ]

  -- The first step of a sweep, a commit for each group: what it leaves, and whether it ran through.
  unfoldable pub sweep_groups : F → ℕ → List (ℕ × ℕ) → World F → World F × Bool
  sweep_groups zero_qty now [] w = (w, true)
  sweep_groups zero_qty now ((group, i) ∷ gs) w =
      elim (cancel_oco_siblings zero_qty now group i w) [
        | err _ ↦ (w, false)
        | ok w' ↦ sweep_groups zero_qty now gs w'
      ]

module _ {F : Type 0} ⦃n : Num F⦄ where
  -- A level is met from below for `up`, from above otherwise.
  abbrev pub crosses : Bool → F → F → Bool
  crosses up level mark =
      if le level nought then false else if up then le level mark else le mark level

  -- `_is_triggered`
  unfoldable pub is_triggered : Order F → F → Bool
  is_triggered o mark =
      if is_stop_limit o.order_type || is_stop_row o
      then crosses (is_buy o.side) (num_or_zero o.stop_price) mark
      else if is_oco o.order_type
      then crosses (not (is_buy o.side)) (num_or_zero o.price) mark
      else false

  -- `_mark_price`
  unfoldable pub mark_price : Market F → String → Option F
  mark_price m symbol = elim (m.ticker symbol) [
    | none ↦ none
    | some t ↦
        if t.error
        then none
        else if not (n.eq (num_or_zero t.last) nought)
        then some (num_or_zero t.last)
        else let bid = num_or_zero t.bid in
          let ask = num_or_zero t.ask in
          if lt nought bid && lt nought ask then some ((bid ⊕ ask) ⊘ n.lit 2 0) else none
  ]

  -- A stop leg executes at the market.
  abbrev pub at_mark : F → Order F → Order F
  at_mark mark o = if is_stop_row o then record o { price = some mark } else o

  abbrev pub trigger_note : F → String
  trigger_note mark = str_append "Trigger hit at " (n.show mark)

  -- What the broker's answer makes of the locked row.
  unfoldable pub fire :
      ℕ
      → F
      → Result String (BrokerResult F)
      → Order F
      → Books F
      → Result OrderError (Order F × Books F)
  fire now mark (err reason) o b =
      elim (move Status.rejected (some (str_append "Trigger execution failed: " reason)) now o) [
        | err e ↦ err e
        | ok o' ↦ ok (record o' { reject_reason = some reason }, b)
      ]
  fire now mark (ok r) o b =
      let sent = record o { broker_order_id = r.broker_order_id } in
      let price = num_or r.avg_price (num_or o.price nought) in
      let qty = num_or r.filled_qty o.qty in
      if r.is_filled
      then elim (move Status.filled (some (trigger_note mark)) now
          (record sent { filled_qty = qty; avg_fill_price = some price })) [
            | err e ↦ err e
            | ok o' ↦ ok (record o' { filled_at = some now }, book_instant now sent qty price b)
          ]
      else elim (move Status.submitted (some (str_append (trigger_note mark) " — sent to broker"))
          now sent) [ err e ↦ err e | ok o' ↦ ok (o', b) ]

  -- The events of a fired row: none after a broker's refusal.
  abbrev pub fired_events : Result String (BrokerResult F) → Order F → List (Event F)
  fired_events (err _) o = []
  fired_events (ok _) o = nudges o

  -- `_execute_triggered`: the tables after it, and the orders that it sends to the broker. The row is
  -- read and checked again under its lock. An error is logged and nothing is committed.
  unfoldable pub execute_triggered : Market F → ℕ → ℕ → F → World F → World F × List (Order F)
  execute_triggered m now i mark w = elim (find_first (is_order i) w.orders) [
    | none ↦ (w, [])
    | some o ↦
        if is_armed o
        then elim (fire now mark (m.submit (at_mark mark o)) (at_mark mark o) w.books) [
          | err _ ↦ (w, at_mark mark o ∷ [])
          | ok (row, books) ↦ (
            record w {
              orders = update_if (is_order i) (λ _. row) w.orders;
              books = books;
              published = w.published ++ fired_events (m.submit (at_mark mark o)) row;
            },
            at_mark mark o ∷ [],
          )
        ]
        else (w, [])
  ]

  -- One armed row of a sweep, at the mark of its symbol.
  unfoldable pub sweep_row : Market F → ℕ → Order F → World F → World F
  sweep_row m now o w = elim (m.symbol_of o.symbol_id) [
    | none ↦ w
    | some symbol ↦ elim (mark_price m symbol) [
      | none ↦ w
      | some mark ↦ if is_triggered o mark then (execute_triggered m now o.id mark w).0 else w
    ]
  ]

  -- `sweep_conditionals`. An error in the first step ends the pass, with what it has committed.
  unfoldable pub sweep_conditionals : Market F → ℕ → World F → World F
  sweep_conditionals m now w =
      let (w', through) = sweep_groups nought now (filled_groups w.orders) w in
      if through
      then foldl (λ u o. sweep_row m now o u) w' (keep_if is_conditional_row w'.orders)
      else w'
