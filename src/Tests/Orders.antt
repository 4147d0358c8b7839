-- ===== src/Tests/Orders.antt =====
-- Orders: the state machine, the desk, the kill switch, the OCO pair.
use pios_backend.Prelude.{
  ◌==◌, err, false, Result, ok, length, keep_if, find_first, count_if, String, ◌≡◌, refl, ◌↔◌, true,
  none, some, [], ◌∷◌,
}
use pios_backend.Desk.{is_algorithmic, is_conditional, Settings, OrderCreate, Broker, BrokerResult}
use pios_backend.Desk.Risk.{
  risk_check, scalar_one_or_none, get_broker_or_404, failed_checks, limit_of, idempotency_check,
  conditional_error, open_of,
}
use pios_backend.Order.{
  Side, OrderType, is_open, allowed_order_transitions, same_status, status_in, moved, transition,
  Status, Leg, Order,
}
use pios_backend.Desk.Submit.{fresh_order, route, submit_order, place}
use pios_backend.Desk.Risk.Gated.{submit_order-IsGated, IsGated}
use pios_backend.Conditional.{Market, oco_sibling, cancel_oco_siblings}
use pios_backend.Num.Instance.{int_num}
use pios_backend.KillSwitch.{
  trigger_kill_switch_lem, held_by, trigger_kill_switch, not_of, KillSwitchEvent, Switchboard,
}
use pios_backend.Store.{is_order, World}
use pios_backend.Tests.Data.{an_order, no_books, leg, world_of, a_position, a_user}
use pios_backend.Conditional.Oco.{cancel_oco_siblings_lem}
use pios_backend.Desk.Submit.Placing.{placed_status, placed_books, place_lem}
use pios_backend.Desk.Cancel.Pair.{Cancels, cancel_order-IsPaired}
use pios_backend.Num.Ints.{◌*ℤ◌, ℤ, pos}
use pios_backend.Order.History.{Reach-IsTracked, IsTracked}
use pios_backend.Order.Machine.{move, CanBecome, Reach-iff, Reach, here, next}

Reach-iff_example :
    ((o' : Order ℤ) × Reach an_order o' × (o'.status ≡ some Status.filled))
    ↔ CanBecome (some Status.submitted) Status.filled
Reach-iff_example = Reach-iff an_order Status.filled

Reach-IsTracked_example :
    IsTracked (moved Status.submitted none 3 (record an_order { status = none }))
unfolding transition allowed_order_transitions status_in same_status
Reach-IsTracked_example =
    Reach-IsTracked {o = record an_order { status = none }} (record { leads = refl; events = refl })
      (next here (move Status.submitted none 3 refl))

-- The two legs of a pair, the second of them at a broker.
abbrev a_pair : World ℤ
a_pair = world_of (
    leg 1 Leg.limit_leg (some Status.submitted)
    ∷ record (leg 2 Leg.stop_leg (some Status.submitted)) { broker_order_id = some "B-2" }
    ∷ [])

cancel_order-IsPaired_example :
    Cancels (λ b. b == 2) 4 1 a_user a_pair (leg 1 Leg.limit_leg (some Status.submitted))
unfolding is_open
cancel_order-IsPaired_example =
    cancel_order-IsPaired (λ b. b == 2) 4 1 a_user a_pair
      (leg 1 Leg.limit_leg (some Status.submitted)) refl refl refl

cancel_oco_siblings_lem_example :
    (w' : World ℤ) × (cancel_oco_siblings (pos 0) 4 1 1 (
        world_of (
          leg 1 Leg.limit_leg (some Status.filled)
          ∷ leg 2 Leg.stop_leg (some Status.submitted)
          ∷ []))
      ≡ ok w')
    × (count_if (oco_sibling 1 1) w'.orders ≡ 0)
    × (length w'.orders ≡ 2)
    × (find_first (is_order 1) w'.orders ≡ some (leg 1 Leg.limit_leg (some Status.filled)))
    × (w'.books ≡ no_books)
cancel_oco_siblings_lem_example = cancel_oco_siblings_lem (pos 0) 4 1 1 (
    world_of
      (leg 1 Leg.limit_leg (some Status.filled) ∷ leg 2 Leg.stop_leg (some Status.submitted) ∷ []))

-- The broker fills less than the order asks for.
abbrev short_fill : Result String (BrokerResult ℤ)
short_fill = ok (record {
  broker_order_id = some "B-9";
  is_filled = true;
  avg_price = some (pos 4);
  filled_qty = some (pos 9);
})

place_lem_example :
    (o' : Order ℤ) × (place (λ _. "refused") 4 short_fill an_order no_books
      ≡ ok (o', placed_books 4 short_fill an_order no_books))
    × (o'.status ≡ some (placed_status short_fill))
    × (o'.id ≡ 1)
    × (o'.user_id ≡ 7)
    × (o'.client_order_id ≡ some "PI-1")
place_lem_example = place_lem (λ _. "refused") 4 short_fill an_order no_books refl

abbrev a_switchboard : Switchboard ℤ
a_switchboard = record {
  world = record (world_of (an_order ∷ [])) {
    books = record no_books { positions = a_position ∷ [] };
  };
  kill_events = [];
  alerts = [];
}

trigger_kill_switch_lem_example :
    (event : KillSwitchEvent) × (s' : Switchboard ℤ) × (trigger_kill_switch 4 "drawdown" a_user
        "a@b.c" a_switchboard
      ≡ ok (event, s'))
    × (count_if (open_of 7) s'.world.orders ≡ 0)
    × (count_if (held_by 7) s'.world.books.positions ≡ 0)
    × (event.orders_cancelled ≡ count_if (open_of 7) (an_order ∷ []))
    × (event.positions_closed ≡ count_if (held_by 7) (a_position ∷ []))
    × (keep_if (not_of 7) s'.world.orders ≡ keep_if (not_of 7) (an_order ∷ []))
trigger_kill_switch_lem_example = trigger_kill_switch_lem 4 "drawdown" a_user "a@b.c" a_switchboard

-- A stop-limit order at 20, and a broker that lets it rest.
abbrev a_stop : Order ℤ
a_stop = record an_order {
  broker_order_id = none;
  order_type = OrderType.stop_limit;
  stop_price = some (pos 20);
}

abbrev a_market : Market ℤ
a_market = record {
  symbol_of = λ _. some "EURUSD";
  ticker = λ _. none;
  submit = λ _. ok (record {
    broker_order_id = some "B-2";
    is_filled = false;
    avg_price = none;
    filled_qty = none;
  });
}

abbrev some_settings : Settings ℤ
some_settings = record {
  default_max_position_usd = pos 20000;
  default_daily_loss_limit = pos 5000;
  default_max_open_orders = 50;
}

abbrev a_broker : Broker
a_broker = record { id = 2; owner_id = 7; is_active = true }

abbrev a_req : OrderCreate ℤ
a_req = record {
  broker_id = 2;
  client_order_id = some "K-1";
  symbol_id = 5;
  side = Side.buy;
  order_type = OrderType.twap;
  qty = pos 10;
  price = some (pos 3);
  stop_price = none;
  time_in_force = "GTC";
  strategy_id = none;
  algo_config = none;
}

submit_order-IsGated_example :
    IsGated some_settings [] (an_order ∷ []) 7 (pos 10) (some (pos 3)) (some "K-1")
unfolding submit_order get_broker_or_404 scalar_one_or_none conditional_error is_conditional
    risk_check limit_of idempotency_check is_open ◌*ℤ◌ fresh_order transition status_in same_status
    allowed_order_transitions route is_algorithmic failed_checks
submit_order-IsGated_example =
    submit_order-IsGated (λ _. "refused") (λ _. err "down") some_settings [] (a_broker ∷ [])
      (an_order ∷ []) 6 3 4 "PI-9" a_user a_req (world_of (an_order ∷ [])) refl
