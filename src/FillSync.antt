-- ===== src/FillSync.antt =====
-- `sync_order_against_broker` (app/services/broker_fill_sync.py): one order against the broker's view.
pub mod Outcome
pub mod Converge
pub mod Again
pub mod LostFill
use pios_backend.Prelude.{
  text_or, str_append, ℕ, String, Bool, true, false, not, ◌&&◌, ◌||◌, Option, none, some, List, [],
  ◌∷◌, ◌++◌, Result, ok, err, or_else, find_first, update_if, if◌then◌else◌,
}
use pios_backend.Num.{Num, nought, ◌⊕◌, ◌⊖◌, ◌⊗◌, ◌⊘◌, lt, le, abs, max, or_zero}
use pios_backend.Order.{Status, Order, InvalidTransition, transition, is_working}
use pios_backend.Store.{
  Books, Event, World, num_or_zero, book_fill, book_snapshot, nudges, is_order,
}

-- `str(broker_state.get("status") or "").upper()`
pub data BrokerStatus : Type 0 where
  submitted partial filled cancelled expired rejected : BrokerStatus
  -- "" or "UNKNOWN"
  unplaced : BrokerStatus
  -- any other text
  other : BrokerStatus

pub record BrokerState (F : Type 0) : Type 0 where
  pub status : BrokerStatus
  pub filled_qty : Option F
  pub avg_price : Option F

-- A push event's print.
pub record Execution (F : Type 0) : Type 0 where
  pub price : F
  pub qty : F

-- What a pass works on: the locked row, the books, and whether anything has changed.
pub record Pass (F : Type 0) : Type 0 where
  pub order : Order F
  pub books : Books F
  pub changed : Bool

abbrev pub is_unplaced : BrokerStatus → Bool
is_unplaced BrokerStatus.unplaced = true
is_unplaced _ = false

abbrev pub terminal_note : String → String
terminal_note source = str_append "Broker-side terminal state (" (str_append source ")")

abbrev pub rejected_note : String → String
rejected_note source = str_append "Rejected at broker (" (str_append source ")")

module _ {F : Type 0} ⦃n : Num F⦄ where
  -- `abs(execution["qty"] - newly_filled) <= max(newly_filled * 1e-6, 1e-12)`
  abbrev pub covers : Execution F → F → Bool
  covers e newly = le (abs (e.qty ⊖ newly)) (max (newly ⊗ n.lit 1 6) (n.lit 1 12))

  -- The average of the delta, or the running average where that is not positive.
  abbrev pub delta_price : F → F → F → F → F → F
  delta_price avg broker_filled prior_avg prior_filled newly =
      let price = (avg ⊗ broker_filled ⊖ prior_avg ⊗ prior_filled) ⊘ newly in
      if lt nought price then price else avg

  unfoldable pub fill_price_of : Option (Execution F) → F → F → F → F → F → F
  fill_price_of none avg broker_filled prior_avg prior_filled newly =
      delta_price avg broker_filled prior_avg prior_filled newly
  fill_price_of (some e) avg broker_filled prior_avg prior_filled newly =
      if covers e newly then e.price else delta_price avg broker_filled prior_avg prior_filled newly

  -- The newly filled quantity at its price: the fill row, the position, the row's averages.
  unfoldable pub book_delta : ℕ → F → F → F → Order F → Books F → Pass F
  book_delta now newly broker_filled price order books =
      let prior_notional = or_zero order.filled_qty nought ⊗ num_or_zero order.avg_fill_price in
      record {
        order = record order {
          avg_fill_price = some ((prior_notional ⊕ newly ⊗ price) ⊘ broker_filled);
          filled_qty = broker_filled;
        };
        books = book_snapshot order.user_id (book_fill now order newly price books);
        changed = true;
      }

  -- The first half of the pass: what has been filled since.
  unfoldable pub apply_delta : ℕ → BrokerState F → Option (Execution F) → Order F → Books F → Pass F
  unfolding fill_price_of book_delta
  apply_delta now state execution order books =
      let broker_filled = num_or_zero state.filled_qty in
      let avg_price = num_or_zero state.avg_price in
      let prior_filled = or_zero order.filled_qty nought in
      let newly = broker_filled ⊖ prior_filled in
      let price =
        fill_price_of execution avg_price broker_filled (num_or_zero order.avg_fill_price)
          prior_filled newly in
      if lt (n.lit 1 12) newly && lt nought price
      then book_delta now newly broker_filled price order books
      else record { order = order; books = books; changed = false }

  -- A transition of the row, and a write to its other columns.
  abbrev pub closing :
      Status → String → ℕ → (Order F → Order F) → Pass F → Result InvalidTransition (Pass F)
  closing status reason now write p = elim (transition status (some reason) now p.order) [
    | ok o ↦ ok (record p { order = write o; changed = true })
    | err e ↦ err e
  ]

  -- The second half: the broker's status.
  unfoldable pub apply_status :
      ℕ → String → BrokerStatus → Pass F → Result InvalidTransition (Pass F)
  apply_status now source BrokerStatus.filled p =
      closing Status.filled (str_append "Broker " source) now
        (λ o. record o { filled_at = some now }) p
  apply_status now source BrokerStatus.partial p =
      if p.changed
      then closing Status.partial (str_append "Broker " source) now (λ o. o) p
      else ok p
  apply_status now source BrokerStatus.rejected p =
      closing Status.rejected (terminal_note source) now
        (λ o. record o { reject_reason = some (text_or o.reject_reason (rejected_note source)) }) p
  apply_status now source BrokerStatus.cancelled p =
      closing Status.cancelled (terminal_note source) now
        (λ o. record o { cancelled_at = some now }) p
  apply_status now source BrokerStatus.expired p =
      closing Status.expired (terminal_note source) now (λ o. o) p
  apply_status now source _ p = ok p

  -- The pass over the locked row, once the broker's state is known.
  unfoldable pub sync_row :
      ℕ
      → String
      → BrokerState F
      → Option (Execution F)
      → Order F
      → Books F
      → Result InvalidTransition (Pass F)
  sync_row now source state execution order books =
      if not (is_working order.status) || is_unplaced state.status
      then ok (record { order = order; books = books; changed = false })
      else apply_status now source state.status (apply_delta now state execution order books)

  abbrev pub or_ask : Option (BrokerState F) → Option (BrokerState F) → Option (BrokerState F)
  or_ask none asked = asked
  or_ask (some s) asked = some s

  -- The whole call: `ask` is the adapter's `get_order`, which is asked when no state is injected;
  -- its `none` is a broker that cannot be asked or does not answer. A pass that changes nothing
  -- does not commit, and neither does one that raises.
  unfoldable pub sync_order_against_broker :
      ℕ
      → String
      → (Option String → Option (BrokerState F))
      → ℕ
      → Option (BrokerState F)
      → Option (Execution F)
      → World F
      → World F
  sync_order_against_broker now source ask i injected execution w =
      elim (find_first (is_order i) w.orders) [
        | none ↦ w
        | some order ↦ elim (or_ask injected (ask order.broker_order_id)) [
          | none ↦ w
          | some state ↦ elim (sync_row now source state execution order w.books) [
            | err _ ↦ w
            | ok p ↦
                if p.changed
                then record w {
                  orders = update_if (is_order i) (λ _. p.order) w.orders;
                  books = p.books;
                  published = w.published ++ nudges p.order;
                }
                else w
          ]
        ]
      ]
