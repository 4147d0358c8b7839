-- ===== src/Backtest/Job.antt =====
-- The job of a backtest: `run_backtest_task` of app/workers/backtest_worker.py, from the ticks of the
-- job's symbol and dates to the job's row and the scores of its strategy.
use pios_backend.Prelude.{
  all_of, ◌||◌, ltb, if◌then◌else◌, length, keep_if, ℕ, ◌+◌, String, Bool, Option, none, some, List,
  [], ◌∷◌, map,
}
use pios_backend.Backtest.Fold.{FoldPnl, simulate_fold, Numpy, CostModel, Regime}
use pios_backend.Num.{◌⊕◌, ◌⊖◌, ◌⊗◌, ◌⊘◌, nought, abs, Num}
use pios_backend.Backtest.{windows, train_prices, test_prices, Window}
use pios_backend.Strategy.{JobStatus, BacktestJob}

-- The columns of `market_ticks` that a backtest reads.
pub record MarketTick (F : Type 0) : Type 0 where
  pub price : F
  pub volume : F
  pub side : String

-- The estimators of app/services/quant_engine.py, `none` where one raises, and what numpy, statistics
-- and math compute. `reports` says whether the simulations and charts of the report return.
pub record Engine (F : Type 0) : Type 0 where
  pub np : Numpy F
  pub detect_regime : List F → Option Regime
  pub estimate_volatility : List F → Option F
  pub net_modifier : List (MarketTick F) → Option F
  pub reports : List F → Bool
  pub mean : List F → F
  pub stdev : List F → F
  pub sqrt : F → F
  pub min_of : F → List F → F

-- A fold; `is_plain` tells whether `passed` is a bool of Python and not one of numpy.
pub record FoldResult (F : Type 0) : Type 0 where
  pub sharpe : F
  pub trades : ℕ
  pub win_rate : F
  pub total_return_pct : F
  pub max_dd : F
  pub is_plain : Bool

-- What a complete backtest writes to its strategy.
pub record Score (F : Type 0) : Type 0 where
  pub sharpe_last : F
  pub fitness_score : F

abbrev pub sum_trades : {F : Type 0} → List (FoldResult F) → ℕ
sum_trades [] = 0
sum_trades (r ∷ rs) = r.trades + sum_trades rs

module _ {F : Type 0} ⦃n : Num F⦄ where
  -- `_sharpe`
  unfoldable pub sharpe_of : Engine F → List F → F
  sharpe_of e returns =
      if ltb (length returns) 2
      then nought
      else if n.eq (e.stdev returns) nought
      then nought
      else e.np.round (e.mean returns ⊘ e.stdev returns ⊗ e.sqrt (n.lit 98280 0)) 4

  -- `_sharpe` gives Python's 0.0 where it does not divide, and a float64 of numpy otherwise, which
  -- compares to a bool of numpy.
  abbrev pub is_plain_sharpe : Engine F → List F → Bool
  is_plain_sharpe e returns = ltb (length returns) 2 || n.eq (e.stdev returns) nought

  -- The ticks, or synthetic prices where there are none.
  abbrev pub series_of : List F → List (MarketTick F) → List (MarketTick F)
  series_of synthetic [] = map (λ p. record { price = p; volume = n.lit 1 0; side = "" }) synthetic
  series_of synthetic (t ∷ ts) = t ∷ ts

  abbrev pub prices_of : List (MarketTick F) → List F
  prices_of ticks = map (λ t. t.price) ticks

  -- What a fold records of its simulation.
  unfoldable pub recorded : Engine F → FoldPnl F → FoldResult F
  unfolding sharpe_of
  recorded e pnl = record {
    sharpe = e.np.round (sharpe_of e pnl.returns) 4;
    trades = pnl.n_trades;
    win_rate = pnl.win_rate;
    total_return_pct = pnl.total_return_pct;
    max_dd = pnl.max_dd;
    is_plain = is_plain_sharpe e pnl.returns;
  }

  -- The body of the loop over the folds.
  unfoldable pub fold_result :
      Engine F → CostModel → List (MarketTick F) → Window → Option (FoldResult F)
  unfolding recorded
  fold_result e cost ticks w =
      let train = train_prices (prices_of ticks) w in
      let tests = test_prices ticks w in
      elim (e.detect_regime train) [
        | none ↦ none
        | some regime ↦ elim (e.estimate_volatility train) [
          | none ↦ none
          | some _ ↦ elim (e.net_modifier tests) [
            | none ↦ none
            | some modifier ↦
                some (recorded e (simulate_fold e.np (prices_of tests) regime modifier cost))
          ]
        ]
      ]

  unfoldable pub fold_results :
      Engine F → CostModel → List (MarketTick F) → List Window → Option (List (FoldResult F))
  unfolding fold_result
  fold_results e cost ticks [] = some []
  fold_results e cost ticks (w ∷ ws) = elim (fold_result e cost ticks w) [
    | none ↦ none
    | some r ↦ elim (fold_results e cost ticks ws) [ none ↦ none | some rs ↦ some (r ∷ rs) ]
  ]

  -- The job's columns and the strategy's scores, from the folds.
  unfoldable pub completed :
      Engine F → FoldResult F → List (FoldResult F) → BacktestJob F → BacktestJob F × Score F
  completed e r rs job =
      let folds = r ∷ rs in
      let sharpe = e.np.round (e.np.mean (map (λ f. f.sharpe) folds)) 4 in
      let max_dd = e.np.round (e.min_of r.max_dd (map (λ f. f.max_dd) rs)) 4 in
      let traded = keep_if (λ f. ltb 0 f.trades) folds in
      let win_rate : F = elim traded [
        | [] ↦ n.lit 5 1
        | t ∷ ts ↦ e.np.round (e.np.mean (map (λ f. f.win_rate) (t ∷ ts))) 4
      ] in
      (
        record job {
          status = JobStatus.complete;
          sharpe_ratio = some sharpe;
          max_drawdown = some max_dd;
          trade_count = some (sum_trades folds);
        },
        record {
          sharpe_last = sharpe;
          fitness_score =
              e.np.round
                (sharpe ⊗ n.lit 4 1
                  ⊕ win_rate ⊗ n.lit 30 0
                  ⊕ (n.lit 1 0 ⊖ abs max_dd ⊘ n.lit 30 0) ⊗ n.lit 30 0)
                2;
        },
      )

  -- `run_backtest_task` on a job that exists; numpy's minimum of no folds raises. The scores are
  -- written to the strategy of the job, if it is found. The commit of the report raises where json.dumps
  -- meets a bool of numpy in it; the handler's own commit then raises too, for the session has not been
  -- rolled back, and the job stays as it was committed before.
  unfoldable pub run_backtest_task :
      Engine F
      → List F
      → CostModel
      → List (MarketTick F)
      → BacktestJob F
      → BacktestJob F × Option (Score F)
  unfolding fold_results completed windows
  run_backtest_task e synthetic cost ticks job =
      let series = series_of synthetic ticks in
      let failed : BacktestJob F × Option (Score F) =
        (record job { status = JobStatus.failed }, none) in
      elim (fold_results e cost series (windows (length series))) [
        | none ↦ failed
        | some [] ↦ failed
        | some (r ∷ rs) ↦
            if e.reports (prices_of series)
            then (if all_of (λ f. f.is_plain) (r ∷ rs)
                then (let done = completed e r rs job in (done.0, some done.1))
                else (record job { status = JobStatus.running }, none))
            else failed
      ]
