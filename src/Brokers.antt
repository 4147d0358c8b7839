-- ===== src/Brokers.antt =====
-- The adapters' own logic (app/services/broker_service.py): which adapter a broker gets, what Alpaca's
-- and the paper adapter answer to a submission, how OANDA's view of an order is read. The brokers'
-- clients are arguments.
pub mod Factory
pub mod Answers
use pios_backend.FillSync.{BrokerStatus, BrokerState}
use pios_backend.Desk.{BrokerResult}
use pios_backend.Num.{lt, ◌⊗◌, nought, le, abs, Num}
use pios_backend.Order.{Side, OrderType, Order}
use pios_backend.Alpaca.{AlpacaStatus}
use pios_backend.Store.{num_or_zero}
use pios_backend.Desk.Submit.{num_or}
use pios_backend.Prelude.{
  if◌then◌else◌, is_some, Result, ok, err, ℕ, zero, suc, ◌+◌, String, str_append, Bool, true, false,
  not, ◌&&◌, Option, none, some, List, [], ◌∷◌, ◌++◌,
}

-- The keys of `ADAPTER_MAP`, and the broker types that have none.
pub data BrokerType : Type 0 where
  alpaca binance ccxt mt5 oanda paper_type : BrokerType
  unmapped : String → BrokerType

pub data Adapter : Type 0 where
  alpaca_adapter ccxt_adapter mt5_adapter oanda_adapter paper_adapter : Adapter

pub record UnsupportedBroker : Type 0 where
  pub broker_type : BrokerType

-- `Broker` as the factory reads it, and the request that creates it.
pub record Connection : Type 0 where
  pub owner_id : ℕ
  pub name : String
  pub broker_type : BrokerType
  pub exchange_id : Option String
  pub is_paper : Bool

pub record BrokerCreate : Type 0 where
  pub name : String
  pub broker_type : BrokerType
  pub exchange_id : Option String
  pub is_paper : Bool

-- `ADAPTER_MAP`
unfoldable pub adapter_map : BrokerType → Option Adapter
adapter_map alpaca = some alpaca_adapter
adapter_map binance = some ccxt_adapter
adapter_map ccxt = some ccxt_adapter
adapter_map mt5 = some mt5_adapter
adapter_map oanda = some oanda_adapter
adapter_map paper_type = some paper_adapter
adapter_map (unmapped _) = none

-- `get_adapter`
unfoldable pub get_adapter : Connection → Result UnsupportedBroker Adapter
get_adapter b = elim (adapter_map b.broker_type) [
  | some a ↦ ok a
  | none ↦ if b.is_paper then ok paper_adapter else err (record { broker_type = b.broker_type })
]

-- `create_broker`
unfoldable pub create_broker :
    BrokerCreate → ℕ → List Connection → Result UnsupportedBroker (Connection × List Connection)
create_broker data_in owner rows =
    let row : Connection = record {
      owner_id = owner;
      name = data_in.name;
      broker_type = data_in.broker_type;
      exchange_id = data_in.exchange_id;
      is_paper = data_in.is_paper;
    } in
    if not (is_some (adapter_map data_in.broker_type)) && not data_in.is_paper
    then err (record { broker_type = data_in.broker_type })
    else ok (row, rows ++ (row ∷ []))

-- An order as Alpaca's client shows it.
pub record AlpacaOrder (F : Type 0) : Type 0 where
  pub id : String
  pub status : AlpacaStatus
  pub filled_avg_price : Option F
  pub filled_qty : Option F

-- A request: at the market where there is no limit price.
pub record AlpacaRequest (F : Type 0) : Type 0 where
  pub symbol : String
  pub qty : F
  pub side : Side
  pub limit_price : Option F

-- Alpaca's TradingClient: `submit_order`, the answer to the k-th `get_order_by_id`, and the quantity
-- of `get_open_position`, where there is one.
pub record AlpacaClient (F : Type 0) : Type 0 where
  pub submit : AlpacaRequest F → Result String (AlpacaOrder F)
  pub get_order_by_id : String → ℕ → Result String (AlpacaOrder F)
  pub available : String → Option F

-- The prices of a ticker.
pub record Ticker (F : Type 0) : Type 0 where
  pub last : Option F
  pub bid : Option F
  pub ask : Option F

-- What OANDA says of an order, and of the transaction that filled it.
pub data OandaState : Type 0 where
  pending triggered oanda_filled oanda_cancelled oanda_other : OandaState

pub record OandaOrder (F : Type 0) : Type 0 where
  pub state : OandaState
  pub units : Option F
  pub filling_transaction : Option ℕ

pub record OandaTransaction (F : Type 0) : Type 0 where
  pub price : Option F
  pub units : Option F

abbrev pub oanda_status : OandaState → BrokerStatus
oanda_status pending = BrokerStatus.submitted
oanda_status triggered = BrokerStatus.submitted
oanda_status oanda_filled = BrokerStatus.filled
oanda_status oanda_cancelled = BrokerStatus.cancelled
oanda_status oanda_other = BrokerStatus.unplaced

-- Only a sale of a pair is clamped.
abbrev pub is_clamped : Bool → Side → Bool
is_clamped is_pair Side.buy = false
is_clamped is_pair Side.sell = is_pair

module _ {F : Type 0} ⦃n : Num F⦄ where
  -- `AlpacaAdapter._sellable_qty`
  unfoldable pub sellable_qty : Option F → F → F
  sellable_qty none requested = requested
  sellable_qty (some available) requested =
      if lt nought available && lt available requested && le (requested ⊗ n.lit 98 2) available
      then available
      else requested

  -- What the poll makes of one answer; `rest` is for an order that is still working.
  abbrev pub alpaca_verdict :
      F → AlpacaOrder F → Result String (BrokerResult F) → Result String (BrokerResult F)
  alpaca_verdict qty r rest = elim r.status [
    | AlpacaStatus.filled ↦ ok (record {
      broker_order_id = some r.id;
      is_filled = true;
      avg_price = some (num_or r.filled_avg_price nought);
      filled_qty = some (num_or r.filled_qty qty);
    })
    | AlpacaStatus.rejected ↦
        err (str_append "Alpaca order rejected (broker order " (str_append r.id ")"))
    | AlpacaStatus.canceled ↦
        err (str_append "Alpaca order canceled (broker order " (str_append r.id ")"))
    | AlpacaStatus.expired ↦
        err (str_append "Alpaca order expired (broker order " (str_append r.id ")"))
    | _ ↦ rest
  ]

  -- The polling loop, with so many questions left.
  unfoldable pub alpaca_poll :
      AlpacaClient F → F → ℕ → ℕ → AlpacaOrder F → Result String (BrokerResult F)
  alpaca_poll client qty zero k r = alpaca_verdict qty r (
      ok (record {
        broker_order_id = some r.id;
        is_filled = false;
        avg_price = none;
        filled_qty = none;
      }))
  alpaca_poll client qty (suc left) k r =
      alpaca_verdict qty r (elim (client.get_order_by_id r.id k) [
        | err e ↦ err e
        | ok r' ↦ alpaca_poll client qty left (k + 1) r'
      ])

  -- The request of an order: a limit order needs a price.
  unfoldable pub alpaca_request :
      Bool → String → Option F → Order F → Result String (AlpacaRequest F)
  alpaca_request is_pair symbol available o =
      let qty = if is_clamped is_pair o.side then sellable_qty available o.qty else o.qty in
      elim o.order_type [
        | OrderType.market ↦
            ok (record { symbol = symbol; qty = qty; side = o.side; limit_price = none })
        | _ ↦ elim o.price [
          | none ↦ err "float() argument must be a string or a real number, not 'NoneType'"
          | some p ↦ ok (record { symbol = symbol; qty = qty; side = o.side; limit_price = some p })
        ]
      ]

  -- `AlpacaAdapter.submit_order`, for a symbol of Alpaca's.
  unfoldable pub alpaca_submit_order :
      AlpacaClient F → Bool → String → Order F → Result String (BrokerResult F)
  alpaca_submit_order client is_pair symbol o =
      elim (alpaca_request is_pair symbol (client.available symbol) o) [
        | err e ↦ err e
        | ok req ↦ elim (client.submit req) [
          | err e ↦ err e
          | ok r ↦ alpaca_poll client req.qty 9 0 r
        ]
      ]

  -- `ticker.get("last") or ticker.get("bid") or ticker.get("ask") or 0`, where there is a ticker
  abbrev pub ticker_price : Option (Ticker F) → F
  ticker_price none = nought
  ticker_price (some t) = num_or t.last (num_or t.bid (num_or t.ask nought))

  -- `PaperAdapter.submit_order`, with the fresh identifier.
  unfoldable pub paper_submit_order :
      Option (Ticker F) → String → Order F → Result String (BrokerResult F)
  paper_submit_order ticker id o =
      let own = num_or_zero o.price in
      let price = if le own nought then ticker_price ticker else own in
      if le price nought
      then err "Paper broker: no live market price available"
      else ok (record {
        broker_order_id = some id;
        is_filled = true;
        avg_price = some price;
        filled_qty = none;
      })

  -- What is read of a filled order, with the transaction where it can be read.
  abbrev pub oanda_filled_state : OandaOrder F → Option (OandaTransaction F) → BrokerState F
  oanda_filled_state o none = record {
    status = BrokerStatus.filled;
    filled_qty = some (abs (num_or_zero o.units));
    avg_price = some nought;
  }
  oanda_filled_state o (some t) = record {
    status = BrokerStatus.filled;
    filled_qty = some (abs (num_or t.units (abs (num_or_zero o.units))));
    avg_price = some (num_or_zero t.price);
  }

  -- `OandaAdapter.get_order`: `order` is OANDA's answer, `transaction` the answer for an identifier.
  unfoldable pub oanda_get_order :
      Option (OandaOrder F) → (ℕ → Option (OandaTransaction F)) → Option (BrokerState F)
  oanda_get_order none transaction = none
  oanda_get_order (some o) transaction = elim o.state [
    | oanda_filled ↦
        some (
          oanda_filled_state o
            (elim o.filling_transaction [ none ↦ none | some i ↦ transaction i ]))
    | s ↦
        some (record { status = oanda_status s; filled_qty = some nought; avg_price = some nought })
  ]
