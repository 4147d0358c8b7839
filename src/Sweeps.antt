-- ===== src/Sweeps.antt =====
-- The sweeps that hand orders to the reconciliation: the terminals' (app/services/mt5_fill_sync.py), with
-- the frames that a terminal pushes, and OANDA's (app/services/oanda_fill_sync.py). The endless loops
-- around a pass are left out.
pub mod Overlap
use pios_backend.FillSync.{sync_order_against_broker, BrokerStatus, BrokerState, Execution}
use pios_backend.Num.{lt, nought, Num}
use pios_backend.Order.{is_working, Order}
use pios_backend.Alpaca.{is_algo}
use pios_backend.Store.{num_or_zero, World}
use pios_backend.Prelude.{
  ◌==◌, if◌then◌else◌, is_some, is_empty, text_or, keep_if, find_first, ℕ, String, Bool, true, not,
  ◌&&◌, Option, none, some, List, [], ◌∷◌, map, str_eq,
}

-- An ORDER_UPDATE frame; the ticket is "" where it has none.
pub record OrderUpdate (F : Type 0) : Type 0 where
  pub ticket : String
  pub status : BrokerStatus
  pub filled_qty : Option F
  pub avg_fill_price : Option F
  pub fill_qty : Option F
  pub fill_price : Option F

module _ {F : Type 0} where
  -- The rows that a sweep reads of the brokers of one type.
  abbrev pub is_swept : (ℕ → Bool) → Order F → Bool
  is_swept of_type o =
      is_working o.status
      && is_some o.broker_order_id
      && not (is_algo o.order_type)
      && of_type o.broker_id

  -- An open order of a broker under a ticket.
  abbrev pub has_ticket : ℕ → String → Order F → Bool
  has_ticket broker_id ticket o =
      (o.broker_id == broker_id)
      && str_eq (text_or o.broker_order_id "") ticket
      && is_some o.broker_order_id
      && is_working o.status

module _ {F : Type 0} ⦃n : Num F⦄ where
  -- The loop of a sweep over the rows that it has read: `ask i` is `get_order` of the adapter of order
  -- `i`, and `ready` tells the brokers that are looked at.
  unfoldable pub sync_each :
      (ℕ → Bool)
      → (ℕ → Option String → Option (BrokerState F))
      → ℕ
      → String
      → List (ℕ × ℕ)
      → World F
      → World F
  sync_each ready ask now source [] w = w
  sync_each ready ask now source ((i, broker_id) ∷ rows) w =
      sync_each ready ask now source rows
        (if ready broker_id then sync_order_against_broker now source (ask i) i none none w else w)

  abbrev pub swept_rows : (ℕ → Bool) → World F → List (ℕ × ℕ)
  swept_rows of_type w = map (λ o. (o.id, o.broker_id)) (keep_if (is_swept of_type) w.orders)

  -- `sweep_once` of the terminals: only those whose EA is connected here.
  unfoldable pub mt5_sweep_once :
      (ℕ → Bool)
      → (ℕ → Bool)
      → (ℕ → Option String → Option (BrokerState F))
      → ℕ
      → String
      → World F
      → World F
  unfolding sync_each
  mt5_sweep_once on_mt5 connected ask now source w =
      sync_each connected ask now source (swept_rows on_mt5 w) w

  -- `sweep_once` of OANDA.
  unfoldable pub oanda_sweep_once :
      (ℕ → Bool) → (ℕ → Option String → Option (BrokerState F)) → ℕ → String → World F → World F
  unfolding sync_each
  oanda_sweep_once on_oanda ask now source w =
      sync_each (λ _. true) ask now source (swept_rows on_oanda w) w

  -- `_find_open_order_id`
  unfoldable pub find_open_order_id : ℕ → String → World F → Option ℕ
  find_open_order_id broker_id ticket w = elim (find_first (has_ticket broker_id ticket) w.orders) [
    | none ↦ none
    | some o ↦ some o.id
  ]

  -- The frame as a broker's state, and its print if it has one.
  abbrev pub update_state : OrderUpdate F → BrokerState F
  update_state u = record {
    status = u.status;
    filled_qty = u.filled_qty;
    avg_price = u.avg_fill_price;
  }

  abbrev pub update_print : OrderUpdate F → Option (Execution F)
  update_print u =
      if lt nought (num_or_zero u.fill_qty) && lt nought (num_or_zero u.fill_price)
      then some (record { price = num_or_zero u.fill_price; qty = num_or_zero u.fill_qty })
      else none

  abbrev pub sync_update : ℕ → OrderUpdate F → ℕ → World F → World F
  sync_update now u i w =
      sync_order_against_broker now "EA push" (λ _. none) i (some (update_state u)) (update_print u)
        w

  -- `handle_order_update`: a ticket that is not found is looked for once more, after what other tasks
  -- do within two seconds.
  unfoldable pub handle_order_update :
      ℕ → (World F → World F) → ℕ → OrderUpdate F → World F → World F
  unfolding find_open_order_id
  handle_order_update now meanwhile broker_id u w =
      if is_empty u.ticket then w else elim (find_open_order_id broker_id u.ticket w) [
        | some i ↦ sync_update now u i w
        | none ↦ elim (find_open_order_id broker_id u.ticket (meanwhile w)) [
          | some i ↦ sync_update now u i (meanwhile w)
          | none ↦ meanwhile w
        ]
      ]
