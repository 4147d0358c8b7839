-- ===== src/Tests/Passes.antt =====
-- Sweeps that overlap, and the sums of the fills after them.
use pios_backend.FillSync.{
  fill_price_of, book_delta, apply_delta, apply_status, sync_row, sync_order_against_broker,
  BrokerStatus, BrokerState,
}
use pios_backend.Sweeps.{
  find_open_order_id, handle_order_update, OrderUpdate, sync_each, mt5_sweep_once,
}
use pios_backend.Prelude.{◌==◌, length, ℕ, String, ◌≡◌, refl, Bool, Option, some, [], ◌∷◌}
use pios_backend.Num.Instance.{int_num}
use pios_backend.Order.{allowed_order_transitions, status_in, transition, is_working}
use pios_backend.Store.{book_fill, book_snapshot, World}
use pios_backend.Sweeps.Overlap.{sync_each_again}
use pios_backend.Num.Ints.{◌*ℤ◌, ◌+ℤ◌, ◌-ℤ◌, div_ℤ, ℤ, pos}
use pios_backend.Tests.Data.{an_order, world_of}
use pios_backend.Tests.Fills.{ℤ-IsSteady}

-- Broker 2 has filled five of every order.
abbrev five_filled : ℕ → Option String → Option (BrokerState ℤ)
five_filled i b =
    some (record {
      status = BrokerStatus.partial;
      filled_qty = some (pos 5);
      avg_price = some (pos 4);
    })

abbrev two_orders : World ℤ
two_orders = world_of (an_order ∷ record an_order { id = 2; broker_order_id = some "B-2" } ∷ [])

abbrev second_only : ℕ → Bool
second_only b = b == 2

-- One worker sweeps both orders, another one the second order twice and the first one after it.
sync_each_again_example :
    sync_each second_only five_filled 4 "other"
      ((2, 2) ∷ (2, 2) ∷ (1, 2) ∷ [])
      (sync_each second_only five_filled 3 "sweep" ((1, 2) ∷ (2, 2) ∷ []) two_orders)
    ≡ sync_each second_only five_filled 3 "sweep" ((1, 2) ∷ (2, 2) ∷ []) two_orders
sync_each_again_example =
    sync_each_again ℤ-IsSteady second_only five_filled 3 4 "sweep" "other" ((1, 2) ∷ (2, 2) ∷ [])
      ((2, 2) ∷ (2, 2) ∷ (1, 2) ∷ []) two_orders ((λ e. refl), ((λ e. refl), ((λ e. refl), tt)))

-- The sweep books one fill for each order.
two_fills :
    length (mt5_sweep_once second_only second_only five_filled 3 "sweep" two_orders).books.fills ≡ 2
unfolding mt5_sweep_once sync_order_against_broker sync_row apply_delta apply_status book_delta
    is_working transition allowed_order_transitions status_in book_fill book_snapshot ◌-ℤ◌ ◌+ℤ◌ ◌*ℤ◌
    div_ℤ
two_fills = refl

-- The terminal tells of the other five.
abbrev all_filled : OrderUpdate ℤ
all_filled = record {
  ticket = "B-2";
  status = BrokerStatus.filled;
  filled_qty = some (pos 10);
  avg_fill_price = some (pos 6);
  fill_qty = some (pos 5);
  fill_price = some (pos 8);
}

-- A sweep, and then a frame for the second order that waits for nothing.
abbrev swept : World ℤ
swept = mt5_sweep_once second_only second_only five_filled 3 "sweep" two_orders

-- The frame books the rest of the second order.
three_fills : length (handle_order_update 4 (λ w. w) 2 all_filled swept).books.fills ≡ 3
unfolding mt5_sweep_once sync_each handle_order_update find_open_order_id sync_order_against_broker
    sync_row apply_delta apply_status book_delta fill_price_of is_working transition
    allowed_order_transitions status_in book_fill book_snapshot ◌-ℤ◌ ◌+ℤ◌ ◌*ℤ◌ div_ℤ
three_fills = refl
