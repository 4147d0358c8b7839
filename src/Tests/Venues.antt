-- ===== src/Tests/Venues.antt =====
-- Alpaca's reconciliation.
use pios_backend.Brokers.{
  AlpacaOrder, Ticker, alpaca_request, alpaca_submit_order, Connection, BrokerCreate, AlpacaClient,
  unmapped,
}
use pios_backend.Prelude.{
  inl, inr, map, true, false, ok, ◌≡◌, refl, none, some, List, [], ◌∷◌, foldl, arith,
}
use pios_backend.Alpaca.Passes.{
  stored_print, alpaca_target, prints_in, sum_prints, booked_prints, alpaca_row-IsReplayed,
}
use pios_backend.Alpaca.Sweep.{alpaca_sync_order}
use pios_backend.FillSync.Converge.{IsSteady}
use pios_backend.Order.{Side, OrderType, Order, is_working, Status}
use pios_backend.Brokers.Answers.{alpaca_submit_order-place}
use pios_backend.Desk.Submit.{place}
use pios_backend.FillSync.{Execution}
use pios_backend.Num.{lt, nought}
use pios_backend.Alpaca.{apply_prints, alpaca_row, AlpacaStatus, AlpacaState, Feed, AlpacaPass}
use pios_backend.Tests.Data.{an_order, no_books, world_of}
use pios_backend.FillSync.Outcome.{or_kept}
use pios_backend.Num.Ints.{◌-ℤ◌, ◌+ℤ◌, ℤ, pos}
use pios_backend.Alpaca.Lost.{IsLost, alpaca_sync_order-IsLost}
use pios_backend.Num.Instance.{int_num}

-- A feed with these prints.
abbrev feed_of : List (Execution ℤ) → Feed ℤ
feed_of es = record {
  get_order = λ key. none;
  get_order_fills = λ key since. some es;
  sum = foldl ◌+ℤ◌ (pos 0);
  grace = 60;
}

-- Alpaca's word on an order of which 5 have been filled, at 4 on average.
abbrev five_at_four : AlpacaStatus → AlpacaState ℤ
five_at_four s = record { status = s; filled_qty = some (pos 5); avg_price = some (pos 4) }

abbrev two_prints : List (Execution ℤ)
two_prints = record { price = pos 3; qty = pos 2 } ∷ record { price = pos 5; qty = pos 3 } ∷ []

alpaca_row-IsReplayed_example :
    let p =
      apply_prints
        (feed_of two_prints)
        9
        none
        (five_at_four AlpacaStatus.partially_filled)
        none
        an_order
        no_books in
    let prints =
      booked_prints
        (feed_of two_prints)
        9
        none
        (five_at_four AlpacaStatus.partially_filled)
        none
        an_order in
    (q : AlpacaPass ℤ) × (alpaca_row
        (feed_of two_prints)
        9
        "fill-sync"
        none
        (five_at_four AlpacaStatus.partially_filled)
        none
        an_order
        no_books
      ≡ ok q)
    × (prints_in q.books ≡ map stored_print prints)
    × (q.order.filled_qty ≡ sum_prints (pos 0) prints)
    × (q.order.status
        ≡ or_kept
            (alpaca_target AlpacaStatus.partially_filled (lt nought p.deferred) p.changed)
            (some Status.submitted))
    × (q.order.id ≡ 1)
unfolding is_working
alpaca_row-IsReplayed_example =
    alpaca_row-IsReplayed (feed_of two_prints) 9 "fill-sync" none
      (five_at_four AlpacaStatus.partially_filled) none an_order no_books refl

alpaca_sync_order-IsLost_example :
    IsLost 1 an_order
      (record { world = world_of (an_order ∷ []); lags = λ i. none })
      (alpaca_sync_order
        (feed_of [])
        9
        "fill-sync"
        1
        (some (five_at_four AlpacaStatus.canceled))
        none
        (record { world = world_of (an_order ∷ []); lags = λ i. none }))
unfolding is_working ◌+ℤ◌ ◌-ℤ◌
alpaca_sync_order-IsLost_example =
    alpaca_sync_order-IsLost (feed_of []) 9 "fill-sync" 1 (five_at_four AlpacaStatus.canceled)
      (record { world = world_of (an_order ∷ []); lags = λ i. none }) an_order refl refl refl refl
      (record {
        nothing = refl;
        grace_pos = ground arith;
        executed = refl;
        priced = refl;
        missing = refl;
      })

-- A broker without an adapter, for simulated fills.
abbrev asked_for : BrokerCreate
asked_for = record {
  name = "Desk";
  broker_type = unmapped "IBKR";
  exchange_id = none;
  is_paper = true;
}

abbrev desk_connection : Connection
desk_connection = record {
  owner_id = 7;
  name = "Desk";
  broker_type = unmapped "IBKR";
  exchange_id = none;
  is_paper = true;
}

-- A market order of a ticker at 6.
abbrev market_order : Order ℤ
market_order = record an_order { order_type = OrderType.market; price = none }

abbrev at_six : Ticker ℤ
at_six = record { last = some (pos 6); bid = none; ask = none }

ints-IsSteady : IsSteady ℤ
unfolding ◌-ℤ◌ ◌+ℤ◌
ints-IsSteady = record { sub_self = λ a. ground arith; eq_nought = λ a h. ground arith }

-- Alpaca fills 5 and cancels.
abbrev at_alpaca : AlpacaStatus → AlpacaOrder ℤ
at_alpaca s = record {
  id = "A-1";
  status = s;
  filled_avg_price = some (pos 4);
  filled_qty = some (pos 5);
}

abbrev cancelling_client : AlpacaClient ℤ
cancelling_client = record {
  submit = λ req. ok (at_alpaca AlpacaStatus.other);
  get_order_by_id = λ i k. ok (at_alpaca AlpacaStatus.canceled);
  available = λ s. none;
}

alpaca_submit_order-place_example :
    (o' : Order ℤ) × (place
        (λ e. "refused")
        9
        (alpaca_submit_order cancelling_client false "BTC/USD" market_order)
        market_order
        no_books
      ≡ ok (o', no_books))
    × (o'.status ≡ some Status.rejected)
unfolding alpaca_request
alpaca_submit_order-place_example =
    alpaca_submit_order-place cancelling_client false "BTC/USD" (λ e. "refused") 9 market_order
      no_books (record { symbol = "BTC/USD"; qty = pos 10; side = Side.buy; limit_price = none })
      (at_alpaca AlpacaStatus.other) refl refl refl
      (inr (refl, at_alpaca AlpacaStatus.canceled, refl, inl refl))
