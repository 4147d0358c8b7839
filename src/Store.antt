-- ===== src/Store.antt =====
-- The rows that the order services share, and the bookkeeping that goes with every fill: the `Fill`
-- row, the netted position, the equity snapshot (the same lines in app/services/order_service.py,
-- broker_fill_sync.py, conditional_orders.py and execution_algo.py).
use pios_backend.Prelude.{
  ℕ, String, Bool, Option, none, some, List, [], ◌∷◌, ◌++◌, ◌==◌, if◌then◌else◌,
}
use pios_backend.Num.{Num, nought, ◌⊗◌, or_zero}
use pios_backend.Audit.{AuditCall}
use pios_backend.Order.{Status, Side, Order}
use pios_backend.Position.{Position, FillArgs, Snapshot, apply_fill_to_position, write_pnl_snapshot}

-- The columns of `fills` that the services write.
pub record Fill (F : Type 0) : Type 0 where
  pub order_id : ℕ
  pub symbol_id : ℕ
  pub side : Side
  pub qty : F
  pub price : F
  pub commission : F
  pub total_cost : F

-- The tables that a fill touches beside its order.
pub record Books (F : Type 0) : Type 0 where
  pub fills : List (Fill F)
  pub positions : List (Position F)
  pub snapshots : List (Snapshot F)

-- What is pushed to a trader's screens (app/services/trade_events.py).
pub data Event (F : Type 0) : Type 0 where
  order_update : ℕ → ℕ → Option Status → F → Event F
  position_update : ℕ → Event F

-- What the database holds, and what has left the process: the events, the audit calls, the
-- cancellations asked of brokers, the background schedules.
pub record World (F : Type 0) : Type 0 where
  pub orders : List (Order F)
  pub books : Books F
  pub published : List (Event F)
  pub audits : List AuditCall
  pub asked : List String
  pub background : List ℕ

module _ {F : Type 0} ⦃n : Num F⦄ where
  -- `float(value or 0)`
  abbrev pub num_or_zero : Option F → F
  num_or_zero none = nought
  num_or_zero (some x) = or_zero x nought

  -- The default commission, 0.1 percent.
  unfoldable pub commission_of : F → F → F
  commission_of qty price = qty ⊗ price ⊗ n.lit 1 3

  -- The `Fill` row of `qty` at `price`, as its NUMERIC columns keep it.
  unfoldable pub fill_row : Order F → F → F → Fill F
  unfolding commission_of
  fill_row order qty price = record {
    order_id = order.id;
    symbol_id = order.symbol_id;
    side = order.side;
    qty = n.numeric qty;
    price = n.numeric price;
    commission = n.numeric (commission_of qty price);
    total_cost = n.numeric (commission_of qty price);
  }

  unfoldable pub fill_args : Order F → F → F → FillArgs F
  unfolding commission_of
  fill_args order qty price = record {
    user_id = order.user_id;
    broker_id = order.broker_id;
    strategy_id = order.strategy_id;
    symbol_id = order.symbol_id;
    side = order.side;
    qty = qty;
    price = price;
    commission = commission_of qty price;
  }

  -- The fill and its position.
  unfoldable pub book_fill : ℕ → Order F → F → F → Books F → Books F
  book_fill now order qty price b = record b {
    fills = b.fills ++ (fill_row order qty price ∷ []);
    positions = apply_fill_to_position now (fill_args order qty price) b.positions;
  }

  unfoldable pub book_snapshot : ℕ → Books F → Books F
  book_snapshot user_id b = record b {
    snapshots = b.snapshots ++ (write_pnl_snapshot user_id b.positions ∷ []);
  }

  -- The events after a commit: the order, and the position if anything has been filled.
  abbrev pub nudges : Order F → List (Event F)
  nudges order =
      order_update order.user_id order.id order.status order.filled_qty
      ∷ (if n.lt nought order.filled_qty then position_update order.user_id ∷ [] else [])

module _ {F : Type 0} where
  abbrev pub is_order : ℕ → Order F → Bool
  is_order i o = o.id == i
