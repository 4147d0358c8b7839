-- ===== src/Backtest/Fold.antt =====
-- The simulation of one window (`_simulate_fold` of app/workers/backtest_worker.py).
use pios_backend.Num.{lt, ◌⊕◌, ◌⊖◌, ◌⊗◌, ◌⊘◌, nought, abs, min, max, Num}
use pios_backend.Prelude.{
  ltb, ◌==◌, if◌then◌else◌, or_else, length, get_elem?, slice, ℕ, zero, suc, ◌+◌, ◌-◌, List, [],
  ◌∷◌, ◌++◌,
}

-- `window.mean()`, `window.std()` and `round`.
pub record Numpy (F : Type 0) : Type 0 where
  pub mean : List F → F
  pub std : List F → F
  pub round : F → ℕ → F

-- `job.cost_model`: None and any other text cost as FULL does.
pub data CostModel : Type 0 where
  full fees_only slippage_only zero_cost other : CostModel

-- The labels of a regime that have a size of their own.
pub data Regime : Type 0 where
  bull bear range crisis recovery unknown : Regime

abbrev pub fee_bps : CostModel → ℕ
fee_bps CostModel.full = 8
fee_bps CostModel.fees_only = 4
fee_bps CostModel.slippage_only = 4
fee_bps CostModel.zero_cost = 0
fee_bps CostModel.other = 8

-- What the loop over a window keeps.
pub record Sim (F : Type 0) : Type 0 where
  pub returns : List F
  pub equity : F
  pub peak : F
  pub max_dd : F
  pub wins : ℕ
  pub n_trades : ℕ

-- What a fold reports.
pub record FoldPnl (F : Type 0) : Type 0 where
  pub returns : List F
  pub n_trades : ℕ
  pub win_rate : F
  pub total_return_pct : F
  pub max_dd : F

module _ {F : Type 0} ⦃n : Num F⦄ where
  -- `REGIME_SIZE_MULT.get(regime, 0.8)`
  unfoldable pub regime_size_mult : Regime → F
  regime_size_mult Regime.bull = n.lit 1 0
  regime_size_mult Regime.bear = n.lit 6 1
  regime_size_mult Regime.range = n.lit 8 1
  regime_size_mult Regime.crisis = n.lit 3 1
  regime_size_mult Regime.recovery = n.lit 7 1
  regime_size_mult Regime.unknown = n.lit 8 1

  -- `arr[i]`, for an index of the array.
  abbrev pub at : List F → ℕ → F
  at arr i = or_else (get_elem? arr i) nought

  -- How far price `i` is from the ten before it.
  unfoldable pub z_score : Numpy F → List F → ℕ → F
  z_score np arr i =
      let past = slice (i - 10) i arr in (at arr i ⊖ np.mean past) ⊘ (np.std past ⊕ n.lit 1 8)

  -- The return of a trade against the deviation, after its cost.
  unfoldable pub net_return : F → F → F → List F → ℕ → F
  net_return size fee z arr i =
      let direction = if lt nought z then n.neg (n.lit 1 0) else n.lit 1 0 in
      let raw = direction ⊗ (at arr (i + 1) ⊖ at arr i) ⊘ at arr i ⊗ size in raw ⊖ abs raw ⊗ fee

  unfoldable pub booked : F → Sim F → Sim F
  booked ret s =
      let equity = s.equity ⊗ (n.lit 1 0 ⊕ ret) in
      let peak = max s.peak equity in
      record {
        returns = s.returns ++ (ret ∷ []);
        equity = equity;
        peak = peak;
        max_dd = min s.max_dd ((equity ⊖ peak) ⊘ peak);
        wins = if lt nought ret then s.wins + 1 else s.wins;
        n_trades = s.n_trades + 1;
      }

  -- The body of the loop at index `i`.
  unfoldable pub trade_at : Numpy F → F → F → List F → ℕ → Sim F → Sim F
  unfolding z_score net_return booked
  trade_at np size fee arr i s =
      let z = z_score np arr i in
      if lt (n.lit 18 1) (abs z) then booked (net_return size fee z arr i) s else s

  -- The loop, with `left` rounds to go.
  unfoldable pub trade_from : Numpy F → F → F → List F → ℕ → ℕ → Sim F → Sim F
  trade_from np size fee arr zero i s = s
  trade_from np size fee arr (suc left) i s =
      trade_from np size fee arr left (i + 1) (trade_at np size fee arr i s)

  abbrev pub fresh_sim : Sim F
  fresh_sim = record {
    returns = [];
    equity = n.lit 1 0;
    peak = n.lit 1 0;
    max_dd = nought;
    wins = 0;
    n_trades = 0;
  }

  unfoldable pub position_size : Numpy F → Regime → F → F
  unfolding regime_size_mult
  position_size np regime net_modifier =
      np.round (regime_size_mult regime ⊗ max (n.lit 4 1) (n.lit 1 0 ⊕ net_modifier) ⊗ n.lit 1 1) 4

  -- The loop over a whole window: `for i in range(10, len(arr) - 1)`.
  unfoldable pub simulate : Numpy F → List F → Regime → F → CostModel → Sim F
  unfolding trade_from position_size
  simulate np prices regime net_modifier cost =
      trade_from np (position_size np regime net_modifier) (n.lit (fee_bps cost) 0 ⊘ n.lit 10000 0)
        prices (length prices - 11) 10 fresh_sim

  -- `_simulate_fold`
  unfoldable pub simulate_fold : Numpy F → List F → Regime → F → CostModel → FoldPnl F
  unfolding simulate
  simulate_fold np prices regime net_modifier cost =
      let s = simulate np prices regime net_modifier cost in
      if ltb (length prices) 5
      then record {
        returns = [];
        n_trades = 0;
        win_rate = n.lit 5 1;
        total_return_pct = nought;
        max_dd = nought;
      }
      else record {
        returns = s.returns;
        n_trades = s.n_trades;
        win_rate =
            if s.n_trades == 0 then n.lit 5 1 else np.round (n.lit s.wins 0 ⊘ n.lit s.n_trades 0) 4;
        total_return_pct = np.round ((s.equity ⊖ n.lit 1 0) ⊗ n.lit 100 0) 4;
        max_dd = np.round (s.max_dd ⊗ n.lit 100 0) 4;
      }
