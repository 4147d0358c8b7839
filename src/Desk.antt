-- ===== src/Desk.antt =====
-- The order desk: what app/services/order_service.py takes in and raises.
pub mod Risk
pub mod Moves
pub mod Submit
pub mod Cancel
pub mod Router
use pios_backend.Prelude.{ℕ, String, Bool, true, false, Option, none, some, List}
use pios_backend.Order.{Status, Side, OrderType, AlgoConfig, Order, InvalidTransition, CheckName}

-- `RiskLimit`, as far as the gate reads it.
pub data LimitType : Type 0 where
  max_position_usd daily_loss_limit other_limit : LimitType

pub record RiskLimit (F : Type 0) : Type 0 where
  pub limit_type : LimitType
  pub limit_value : F
  pub is_active : Bool

-- The defaults of app/core/config.py.
pub record Settings (F : Type 0) : Type 0 where
  pub default_max_position_usd : F
  pub default_daily_loss_limit : F
  pub default_max_open_orders : ℕ

-- `OrderCreate`, with the symbol's row in place of its name.
pub record OrderCreate (F : Type 0) : Type 0 where
  pub broker_id : ℕ
  pub client_order_id : Option String
  pub symbol_id : ℕ
  pub side : Side
  pub order_type : OrderType
  pub qty : F
  pub price : Option F
  pub stop_price : Option F
  pub time_in_force : String
  pub strategy_id : Option ℕ
  pub algo_config : Option (AlgoConfig F)

-- `Broker`, as far as it decides who may use it.
pub record Broker : Type 0 where
  pub id : ℕ
  pub owner_id : ℕ
  pub is_active : Bool

-- What an adapter's `submit_order` answers.
pub record BrokerResult (F : Type 0) : Type 0 where
  pub broker_order_id : Option String
  pub is_filled : Bool
  pub avg_price : Option F
  pub filled_qty : Option F

-- Who makes the request.
pub record User : Type 0 where
  pub id : ℕ
  pub is_admin : Bool

-- What a request can raise.
pub data OrderError : Type 0 where
  broker_not_found multiple_rows requires_limit_price requires_stop_price : OrderError
  duplicate integrity order_not_found not_your_order adapter_unavailable : OrderError
  risk_rejected : List CheckName → OrderError
  cannot_cancel : Option Status → OrderError
  transition_refused : InvalidTransition → OrderError

-- `_ALGORITHMIC_ORDER_TYPES`
unfoldable pub is_algorithmic : OrderType → Bool
is_algorithmic OrderType.twap = true
is_algorithmic OrderType.vwap = true
is_algorithmic OrderType.iceberg = true
is_algorithmic _ = false

-- `_CONDITIONAL_ORDER_TYPES`
unfoldable pub is_conditional : OrderType → Bool
is_conditional OrderType.stop_limit = true
is_conditional OrderType.oco = true
is_conditional _ = false

abbrev pub is_oco : OrderType → Bool
is_oco OrderType.oco = true
is_oco _ = false
