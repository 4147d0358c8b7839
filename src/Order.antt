-- ===== src/Order.antt =====
-- `Order`, its constants and its state machine (app/models/all_models.py).
pub mod Machine
pub mod History
use pios_backend.Prelude.{
  ℕ, String, Bool, true, false, Option, none, some, List, [], ◌∷◌, ◌++◌, Result, ok, err,
  if◌then◌else◌,
}
use pios_backend.Num.Ints.{ℤ}

-- `OrderStatus`
pub data Status : Type 0 where
  new submitted partial filled cancelled rejected expired : Status

-- `OrderSide`
pub data Side : Type 0 where
  buy sell : Side

pub data OrderType : Type 0 where
  market limit stop stop_limit twap vwap oco iceberg : OrderType

-- `algo_config["oco_leg"]`
pub data Leg : Type 0 where
  limit_leg stop_leg : Leg

-- The keys of `algo_config` that the services read.
pub record AlgoConfig (F : Type 0) : Type 0 where
  pub slices : Option ℤ
  pub interval_seconds : Option F
  pub display_qty : Option F
  pub oco_group : Option ℕ
  pub oco_leg : Option Leg

-- An entry of `state_history`.
pub record HistoryEntry : Type 0 where
  pub from : Option Status
  pub to : Status
  pub reason : Option String
  pub at : ℕ

-- One entry of the `checks` of `_risk_check`.
pub data CheckName : Type 0 where
  max_position daily_loss max_open_orders idempotency : CheckName

pub record Check : Type 0 where
  pub check : CheckName
  pub passed : Bool

pub record RiskResult (F : Type 0) : Type 0 where
  pub passed : Bool
  pub checks : List Check
  pub notional : F

-- The columns of `orders`. Identifiers are numbers, and so are instants.
pub record Order (F : Type 0) : Type 0 where
  pub id : ℕ
  pub client_order_id : Option String
  pub broker_order_id : Option String
  pub user_id : ℕ
  pub broker_id : ℕ
  pub strategy_id : Option ℕ
  pub symbol_id : ℕ
  pub side : Side
  pub order_type : OrderType
  pub time_in_force : String
  pub qty : F
  pub filled_qty : F
  pub price : Option F
  pub stop_price : Option F
  pub avg_fill_price : Option F
  pub status : Option Status
  pub state_history : List HistoryEntry
  pub events : List Status
  pub algo_config : Option (AlgoConfig F)
  pub reject_reason : Option String
  pub risk_check : Option (RiskResult F)
  pub submitted_at : Option ℕ
  pub filled_at : Option ℕ
  pub cancelled_at : Option ℕ
  pub created_at : ℕ

-- `ALLOWED_ORDER_TRANSITIONS`; `none` is the state before the insert.
unfoldable pub allowed_order_transitions : Option Status → List Status
allowed_order_transitions none = Status.new ∷ Status.submitted ∷ Status.rejected ∷ []
allowed_order_transitions (some Status.new) =
    Status.submitted ∷ Status.cancelled ∷ Status.rejected ∷ Status.expired ∷ []
allowed_order_transitions (some Status.submitted) =
    Status.submitted ∷ Status.partial ∷ Status.filled ∷ Status.cancelled ∷ Status.rejected
    ∷ Status.expired ∷ []
allowed_order_transitions (some Status.partial) =
    Status.partial ∷ Status.filled ∷ Status.cancelled ∷ Status.rejected ∷ Status.expired ∷ []
allowed_order_transitions (some Status.filled) = []
allowed_order_transitions (some Status.cancelled) = []
allowed_order_transitions (some Status.rejected) = []
allowed_order_transitions (some Status.expired) = []

unfoldable pub same_status : Status → Status → Bool
same_status Status.new Status.new = true
same_status Status.submitted Status.submitted = true
same_status Status.partial Status.partial = true
same_status Status.filled Status.filled = true
same_status Status.cancelled Status.cancelled = true
same_status Status.rejected Status.rejected = true
same_status Status.expired Status.expired = true
same_status _ _ = false

-- `status in (…)`
unfoldable pub status_in : Status → List Status → Bool
unfolding same_status
status_in s [] = false
status_in s (t ∷ ts) = if same_status s t then true else status_in s ts

-- `InvalidTransitionError`
pub record InvalidTransition : Type 0 where
  pub current_status : Option Status
  pub new_status : Status
  pub order_id : ℕ

module _ {F : Type 0} where
  -- What `Order.transition` writes.
  abbrev pub moved : Status → Option String → ℕ → Order F → Order F
  moved new_status reason now order = record order {
    status = some new_status;
    state_history =
        order.state_history
        ++ (record { from = order.status; to = new_status; reason = reason; at = now } ∷ []);
    events = order.events ++ (new_status ∷ []);
  }

  -- `Order.transition`, at the instant `now`.
  unfoldable pub transition :
      Status → Option String → ℕ → Order F → Result InvalidTransition (Order F)
  unfolding allowed_order_transitions status_in
  transition new_status reason now order =
      if status_in new_status (allowed_order_transitions order.status)
      then ok (moved new_status reason now order)
      else err
          (record { current_status = order.status; new_status = new_status; order_id = order.id })

-- `order.status in OrderStatus.OPEN`
unfoldable pub is_open : Option Status → Bool
is_open (some Status.new) = true
is_open (some Status.submitted) = true
is_open (some Status.partial) = true
is_open _ = false

-- `order.status in (OrderStatus.SUBMITTED, OrderStatus.PARTIAL)`
unfoldable pub is_working : Option Status → Bool
is_working (some Status.submitted) = true
is_working (some Status.partial) = true
is_working _ = false
