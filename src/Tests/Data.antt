-- ===== src/Tests/Data.antt =====
-- The rows that the tests share. Quantities are whole numbers.
use pios_backend.Desk.{User}
use pios_backend.Position.{PosSide, Position}
use pios_backend.Order.{Status, Side, OrderType, Leg, Order}
use pios_backend.Store.{Books, World}
use pios_backend.Num.Ints.{ℤ, pos}
use pios_backend.Prelude.{ℕ, true, false, Option, none, some, List, []}

abbrev pub an_order : Order ℤ
an_order = record {
  id = 1;
  client_order_id = some "PI-1";
  broker_order_id = some "B-1";
  user_id = 7;
  broker_id = 2;
  strategy_id = none;
  symbol_id = 5;
  side = Side.buy;
  order_type = OrderType.limit;
  time_in_force = "GTC";
  qty = pos 10;
  filled_qty = pos 0;
  price = some (pos 3);
  stop_price = none;
  avg_fill_price = none;
  status = some Status.submitted;
  state_history = [];
  events = [];
  algo_config = none;
  reject_reason = none;
  risk_check = none;
  submitted_at = some 1;
  filled_at = none;
  cancelled_at = none;
  created_at = 1;
}

abbrev pub no_books : Books ℤ
no_books = record { fills = []; positions = []; snapshots = [] }

-- One leg of the OCO group 1.
abbrev pub leg : ℕ → Leg → Option Status → Order ℤ
leg i l s = record an_order {
  id = i;
  order_type = OrderType.oco;
  broker_order_id = none;
  status = s;
  algo_config = some (record {
    slices = none;
    interval_seconds = none;
    display_qty = none;
    oco_group = some 1;
    oco_leg = some l;
  });
}

abbrev pub world_of : List (Order ℤ) → World ℤ
world_of os = record {
  orders = os;
  books = no_books;
  published = [];
  audits = [];
  asked = [];
  background = [];
}

-- A long position of 10 of user 7.
abbrev pub a_position : Position ℤ
a_position = record {
  user_id = 7;
  broker_id = 2;
  strategy_id = none;
  symbol_id = 5;
  side = PosSide.long;
  qty = pos 10;
  avg_cost = pos 3;
  realized_pnl = pos 0;
  unrealized_pnl = pos 0;
  is_open = true;
  closed_at = none;
}

abbrev pub a_user : User
a_user = record { id = 7; is_admin = false }
