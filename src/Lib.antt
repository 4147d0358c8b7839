-- ===== src/Lib.antt =====
-- The trading core of the Pi OS backend (FastAPI, SQLAlchemy): orders and their state machine, the
-- order desk, the brokers' adapters, the reconciliation with brokers, conditional and algorithmic
-- orders, the kill switch, positions, strategies and their gates, backtests and the nightly
-- breeding, users and their sessions, the realtime sockets, the audit trail, and the tick writer
-- with its checks and candles.
--
-- How the parts interact. The order desk stores an order and sends it to a broker's adapter, or
-- arms it. Fills arrive by an instant fill, by a reconciliation pass, by a slice of a schedule or
-- by a fired conditional order; each writes a fill row, nets the position and appends an equity
-- snapshot. Every change of an order's status goes through `Order.transition`. The kill switch and
-- one-cancels-other cancel several orders at once. Strategies pass gates that read their
-- backtests, which a worker writes, and a nightly cycle retires and breeds them. Changes of orders
-- and positions are published, and a listener relays it to the sockets of the trader it is for.
--
-- Files and sources:
-- - Prelude, Prelude/*: tests, lists, text helpers.
-- - Num, Num/*: Python's floats as an interface `Num`, whose operations are an argument of all
--   that computes with them; the laws that a theorem needs are the record `IsSigned`, `IsSteady`
--   or `IsFlat`. Its field `numeric` is what a NUMERIC(20, 8) column keeps of a number.
--   Num/Instance has the whole numbers, at which the tests run.
-- - Order, Order/Machine, Order/History: `Order`, `ALLOWED_ORDER_TRANSITIONS` and
--   `Order.transition` of app/models/all_models.py. Python's None as a status is `none`.
-- - Strategy, Strategy/*: app/services/strategy_service.py (`_check_gate`,
--   `compute_create_strategy`, `compute_advance_stage`, `retire_strategy`),
--   app/api/v1/endpoints/strategies.py, and the transaction of `get_db` in app/db/session.py.
-- - Strategy/Darwin, Strategy/Fifths, Strategy/Bred: `darwin_evolution_cycle` of
--   app/workers/backtest_worker.py.
-- - Backtest, Backtest/*: `run_backtest_task`, `_simulate_fold` and `_sharpe` of
--   app/workers/backtest_worker.py. The estimators and what numpy computes are the record
--   `Engine`.
-- - QuantCore, QuantCore/Heeded: `build_quant_core_gates` of app/services/quant_engine.py, over
--   the readings of the estimators.
-- - Position, Position/*: `apply_fill_to_position` and `write_pnl_snapshot` of
--   app/services/positions_service.py.
-- - Marks, Marks/Again: app/services/position_marks.py. A ticker is an argument of a pass.
-- - Store: the rows that the order services share, and the bookkeeping of a fill that they repeat.
-- - FillSync, FillSync/*: `sync_order_against_broker` of app/services/broker_fill_sync.py. A pass
--   is `apply_delta` (the newly filled quantity) and then `apply_status` (the broker's status).
-- - Desk, Desk/*: app/services/order_service.py (`_risk_check`, `submit_order`, `cancel_order`),
--   `create_order` of app/api/v1/endpoints/orders.py and `get_broker_or_404` of
--   app/services/broker_service.py.
-- - Conditional, Conditional/*: app/services/conditional_orders.py.
-- - KillSwitch: `trigger_kill_switch` of app/services/risk_service.py.
-- - Brokers, Brokers/*: app/services/broker_service.py (`get_adapter`, `create_broker`, the
--   submissions to Alpaca and on paper, OANDA's `get_order`). A broker's client is a record of
--   functions.
-- - Alpaca, Alpaca/*: `_sync_order` and `sweep_once` of app/services/alpaca_fill_sync.py. A pass
--   is `apply_prints` (the prints of the activity feed, with the deferral) and then
--   `apply_alpaca_status`.
-- - Sweeps, Sweeps/Overlap: app/services/mt5_fill_sync.py and app/services/oanda_fill_sync.py.
-- - Algo, Algo/*: app/services/execution_algo.py. `slice_plan` is `_slice_plan`, `run_slices` the
--   loop of `run_algo_order`; what other writers do between two slices is the field `between` of a
--   `Venue`.
-- - Auth, Auth/*: app/api/v1/endpoints/auth.py, app/core/security.py and the dependencies of
--   app/core/deps.py. Hashes, tokens, ciphers and one-time codes are the record `Crypto`.
-- - Ingest, Ingest/*: app/workers/dq_pipeline.py, app/workers/market_db_writer.py and
--   `flush_candles` of app/workers/db_writer.py.
-- - Audit, Audit/Chain: `write_audit` of app/services/audit_service.py, `compute_record_hash` of
--   app/core/security.py, `verify_chain` of app/api/v1/endpoints/audit.py. `json.dumps` and
--   SHA-256 are parameters.
-- - Candles, Candles/Counting: app/workers/candle_aggregator.py.
-- - Sockets, Sockets/*: app/services/websocket/manager.py, app/core/pubsub.py,
--   app/core/ws_auth.py, app/api/v1/endpoints/websocket.py and the messages of
--   app/services/trade_events.py. Sockets/Server has the process: its steps are the arrivals,
--   frames and departures of sockets and the messages of Redis.
-- - Tests, Tests/*: the theorems at concrete inputs.
--
-- State. The tables are lists of rows, and a query is a search or a filter by the conditions of
-- its WHERE clause. A function that reads and writes takes the tables and returns them; an
-- exception is the `err` of a `Result`, and a request that raises leaves the tables as they were.
-- Fills, and the unrealized result that a mark writes, are stored as their NUMERIC columns round
-- them; the other columns of positions and snapshots hold what the code assigns, before their
-- columns round it. Row locks are modelled by giving each function the tables as it finds them
-- under its lock. Identifiers and instants are numbers. A send to a set of sockets is one step,
-- which is given on which sockets it succeeds and whether a socket comes or goes meanwhile. A
-- flush of the tick writer is given which of its writes the database accepts. Recursion is on a
-- list or on a number of attempts; the one loop on fuel is `iceberg`, where `none` is that the
-- fuel has run out.
--
-- Not modelled: the brokers' clients, exchanges, Redis and the database engine (arguments or left
-- out), read-only views, statistics, the estimators and simulations of the quantitative engine,
-- market data, alerts and the intelligence views, background loops around a pass.
pub mod Prelude
pub mod Marks
pub mod Num
pub mod Order
pub mod Alpaca
pub mod Audit
pub mod Algo
pub mod Auth
pub mod Backtest
pub mod Brokers
pub mod Candles
pub mod Conditional
pub mod Desk
pub mod Ingest
pub mod KillSwitch
pub mod Sockets
pub mod Sweeps
pub mod Strategy
pub mod Position
pub mod QuantCore
pub mod Store
pub mod FillSync
mod Tests
