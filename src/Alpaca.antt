-- ===== src/Alpaca.antt =====
-- The reconciliation with Alpaca (`_sync_order` of app/services/alpaca_fill_sync.py), over a locked row:
-- every print of the broker's activity feed becomes a fill of its own, and what the feed does not show
-- yet is deferred for a while.
pub mod Passes
pub mod Sweep
pub mod Lost
use pios_backend.FillSync.{terminal_note, rejected_note, covers, Execution}
use pios_backend.Num.{lt, ◌⊕◌, ◌⊖◌, ◌⊗◌, ◌⊘◌, nought, le, max, or_zero, Num}
use pios_backend.Order.{transition, Status, OrderType, Order, InvalidTransition}
use pios_backend.Store.{num_or_zero, book_fill, book_snapshot, Books}
use pios_backend.Prelude.{
  ltb, if◌then◌else◌, or_else, Result, ok, err, text_or, ℕ, ◌-◌, String, str_append, Bool, true,
  false, ◌&&◌, Option, none, some, List, [], ◌∷◌, ◌++◌, map,
}

-- Alpaca's words.
pub data AlpacaStatus : Type 0 where
  filled partially_filled canceled expired rejected : AlpacaStatus
  -- any other text
  other : AlpacaStatus

pub record AlpacaState (F : Type 0) : Type 0 where
  pub status : AlpacaStatus
  pub filled_qty : Option F
  pub avg_price : Option F

-- What a pass asks: the adapter's `get_order` and `get_order_fills` (each `none` where the adapter is
-- not an AlpacaAdapter), Python's `sum`, and ALPACA_ACTIVITY_LAG_GRACE_SECS.
pub record Feed (F : Type 0) : Type 0 where
  pub get_order : Option String → Option (AlpacaState F)
  pub get_order_fills : Option String → ℕ → Option (List (Execution F))
  pub sum : List F → F
  pub grace : ℕ

-- The prints to book, the remainder that is deferred, and since when the feed lags.
pub record Plan (F : Type 0) : Type 0 where
  pub executions : List (Execution F)
  pub deferred : F
  pub lag : Option ℕ

pub record AlpacaPass (F : Type 0) : Type 0 where
  pub order : Order F
  pub books : Books F
  pub deferred : F
  pub lag : Option ℕ
  pub changed : Bool

abbrev pub is_algo : OrderType → Bool
is_algo OrderType.twap = true
is_algo OrderType.vwap = true
is_algo OrderType.iceberg = true
is_algo _ = false

module _ {F : Type 0} ⦃n : Num F⦄ where
  -- The prints that an earlier pass has not accounted for.
  unfoldable pub replay : F → F → List (Execution F) → List (Execution F)
  replay prior total [] = []
  replay prior total (f ∷ fs) =
      let next = total ⊕ f.qty in
      let rest = replay prior next fs in
      let contributed = next ⊖ max total prior in
      if le next (prior ⊕ n.lit 1 9)
      then rest
      else if lt (n.lit 1 12) contributed
      then record { price = f.price; qty = contributed } ∷ rest
      else rest

  -- The stream's own print, where it has a price and covers the whole delta.
  abbrev pub own_print : Option (Execution F) → F → Option (Execution F)
  own_print none newly = none
  own_print (some e) newly =
      if lt nought e.price && covers e newly
      then some (record { price = e.price; qty = newly })
      else none

  -- What the feed shows of the delta.
  abbrev pub prints_of : Feed F → Option (Execution F) → F → Order F → List (Execution F)
  prints_of feed execution newly o = elim (own_print execution newly) [
    | some e ↦ e ∷ []
    | none ↦ elim (feed.get_order_fills o.broker_order_id o.created_at) [
      | none ↦ []
      | some raw ↦ replay (or_zero o.filled_qty nought) nought raw
    ]
  ]

  -- What is missing is deferred within the grace, and taken at the average after it.
  unfoldable pub defer : Feed F → ℕ → Option ℕ → F → F → List (Execution F) → Plan F
  defer feed now lag remainder avg executions =
      let first_seen = or_else lag now in
      if ltb (now - first_seen) feed.grace
      then record { executions = executions; deferred = remainder; lag = some first_seen }
      else record {
        executions = executions ++ (record { price = avg; qty = remainder } ∷ []);
        deferred = nought;
        lag = none;
      }

  -- The plan of a delta. A stream print that covers it needs no feed, and leaves the lag alone.
  unfoldable pub plan_delta :
      Feed F → ℕ → Option ℕ → Option (Execution F) → F → F → Order F → Plan F
  unfolding defer
  plan_delta feed now lag execution newly avg o = elim (own_print execution newly) [
    | some e ↦ record { executions = e ∷ []; deferred = nought; lag = lag }
    | none ↦
        let executions = prints_of feed none newly o in
        let remainder = newly ⊖ feed.sum (map (λ e. e.qty) executions) in
        if lt (n.lit 1 9) remainder
        then defer feed now lag remainder avg executions
        else record { executions = executions; deferred = nought; lag = none }
  ]

  -- One print: the fill, the position, the row's columns.
  abbrev pub printed : Execution F → Order F → Order F
  printed e o = record o {
    avg_fill_price =
        some (
          (o.filled_qty ⊗ num_or_zero o.avg_fill_price ⊕ e.qty ⊗ e.price) ⊘ (o.filled_qty ⊕ e.qty));
    filled_qty = o.filled_qty ⊕ e.qty;
  }

  unfoldable pub book_prints : ℕ → List (Execution F) → Order F → Books F → Order F × Books F
  book_prints now [] o b = (o, b)
  book_prints now (e ∷ es) o b = book_prints now es (printed e o) (book_fill now o e.qty e.price b)

  -- The first half: the newly filled quantity.
  unfoldable pub apply_prints :
      Feed F
      → ℕ
      → Option ℕ
      → AlpacaState F
      → Option (Execution F)
      → Order F
      → Books F
      → AlpacaPass F
  apply_prints feed now lag state execution o b =
      let newly = num_or_zero state.filled_qty ⊖ or_zero o.filled_qty nought in
      let avg = num_or_zero state.avg_price in
      if lt (n.lit 1 12) newly && lt nought avg
      then (let plan = plan_delta feed now lag execution newly avg o in
          let after = book_prints now plan.executions o b in
          record {
            order = after.0;
            books = book_snapshot o.user_id after.1;
            deferred = plan.deferred;
            lag = plan.lag;
            changed = true;
          })
      else record { order = o; books = b; deferred = nought; lag = lag; changed = false }

  -- A transition at the end of an order.
  abbrev pub alpaca_end :
      Status
      → String
      → ℕ
      → (Order F → Order F)
      → AlpacaPass F
      → Result InvalidTransition (AlpacaPass F)
  alpaca_end status reason now write p = elim (transition status (some reason) now p.order) [
    | err e ↦ err e
    | ok o ↦ ok (record p { order = write o; lag = none; changed = true })
  ]

  abbrev pub alpaca_partial : String → ℕ → AlpacaPass F → Result InvalidTransition (AlpacaPass F)
  alpaca_partial reason now p =
      if p.changed
      then elim (transition Status.partial (some reason) now p.order) [
        | err e ↦ err e
        | ok o ↦ ok (record p { order = o; changed = true })
      ]
      else ok p

  -- The second half: Alpaca's status.
  unfoldable pub apply_alpaca_status :
      ℕ → String → AlpacaStatus → AlpacaPass F → Result InvalidTransition (AlpacaPass F)
  apply_alpaca_status now source AlpacaStatus.filled p =
      if lt nought p.deferred
      then alpaca_partial
          (str_append "Broker " (str_append source "; awaiting per-execution activity records")) now
          p
      else alpaca_end Status.filled (str_append "Broker " source) now
          (λ o. record o { filled_at = some now }) p
  apply_alpaca_status now source AlpacaStatus.partially_filled p =
      alpaca_partial (str_append "Broker " source) now p
  apply_alpaca_status now source AlpacaStatus.canceled p =
      alpaca_end Status.cancelled (terminal_note source) now (λ o. o) p
  apply_alpaca_status now source AlpacaStatus.expired p =
      alpaca_end Status.expired (terminal_note source) now (λ o. o) p
  apply_alpaca_status now source AlpacaStatus.rejected p =
      alpaca_end Status.rejected (terminal_note source) now
        (λ o. record o { reject_reason = some (text_or o.reject_reason (rejected_note source)) }) p
  apply_alpaca_status now source AlpacaStatus.other p = ok p

  -- The pass over the locked row.
  unfoldable pub alpaca_row :
      Feed F
      → ℕ
      → String
      → Option ℕ
      → AlpacaState F
      → Option (Execution F)
      → Order F
      → Books F
      → Result InvalidTransition (AlpacaPass F)
  alpaca_row feed now source lag state execution o b =
      apply_alpaca_status now source state.status (apply_prints feed now lag state execution o b)
