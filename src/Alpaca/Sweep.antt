-- ===== src/Alpaca/Sweep.antt =====
-- The reconciliation of one order and the sweep over the open ones (`_sync_order` and `sweep_once` of
-- app/services/alpaca_fill_sync.py).
use pios_backend.Alpaca.{is_algo, alpaca_row, AlpacaState, Feed}
use pios_backend.FillSync.{Execution}
use pios_backend.Num.{Num}
use pios_backend.Order.{is_working, Order}
use pios_backend.Store.{nudges, is_order, World}
use pios_backend.Prelude.{
  ◌==◌, if◌then◌else◌, is_some, ok, err, keep_if, find_first, update_if, ℕ, String, Bool, not, ◌&&◌,
  Option, none, some, List, [], ◌∷◌, ◌++◌, map,
}

-- The tables, and since when the feed lags for each order.
pub record Lagging (F : Type 0) : Type 0 where
  pub world : World F
  pub lags : ℕ → Option ℕ

abbrev pub set_lag : ℕ → Option ℕ → (ℕ → Option ℕ) → ℕ → Option ℕ
set_lag i lag lags j = if j == i then lag else lags j

abbrev pub state_or_ask :
    {F : Type 0} → Option (AlpacaState F) → Option (AlpacaState F) → Option (AlpacaState F)
state_or_ask (some s) asked = some s
state_or_ask none asked = asked

module _ {F : Type 0} ⦃n : Num F⦄ where
  -- `_sync_order`. A pass that changes nothing does not commit; the lags are the process's own.
  unfoldable pub alpaca_sync_order :
      Feed F
      → ℕ
      → String
      → ℕ
      → Option (AlpacaState F)
      → Option (Execution F)
      → Lagging F
      → Lagging F
  alpaca_sync_order feed now source i injected execution l =
      elim (find_first (is_order i) l.world.orders) [
        | none ↦ l
        | some o ↦
            if not (is_working o.status)
            then l
            else elim (state_or_ask injected (feed.get_order o.broker_order_id)) [
              | none ↦ l
              | some state ↦
                  elim (alpaca_row feed now source (l.lags i) state execution o l.world.books) [
                    | err _ ↦ l
                    | ok p ↦ record {
                      world =
                          if p.changed
                          then record l.world {
                            orders = update_if (is_order i) (λ _. p.order) l.world.orders;
                            books = p.books;
                            published = l.world.published ++ nudges p.order;
                          }
                          else l.world;
                      lags = set_lag i p.lag l.lags;
                    }
                  ]
            ]
      ]

  -- `_candidate_order_ids`
  abbrev pub is_candidate : (ℕ → Bool) → Order F → Bool
  is_candidate on_alpaca o =
      is_working o.status
      && is_some o.broker_order_id
      && not (is_algo o.order_type)
      && on_alpaca o.broker_id

  unfoldable pub sweep_ids : Feed F → ℕ → String → List ℕ → Lagging F → Lagging F
  sweep_ids feed now source [] l = l
  sweep_ids feed now source (i ∷ is) l =
      sweep_ids feed now source is (alpaca_sync_order feed now source i none none l)

  -- `sweep_once`: every order that is open when the pass begins.
  unfoldable pub sweep_once : Feed F → ℕ → String → (ℕ → Bool) → Lagging F → Lagging F
  sweep_once feed now source on_alpaca l =
      sweep_ids feed now source (map (λ o. o.id) (keep_if (is_candidate on_alpaca) l.world.orders))
        l
