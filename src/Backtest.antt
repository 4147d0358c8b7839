-- ===== src/Backtest.antt =====
-- The walk-forward backtest (app/workers/backtest_worker.py): the windows of `run_backtest_task`, the
-- simulation of one window, and the job's status. Numpy, statistics and the estimators of
-- app/services/quant_engine.py are arguments.
pub mod Windows
pub mod Fold
pub mod Trades
pub mod Job
pub mod Outcome
pub mod Verdict
pub mod Closed
use pios_backend.Num.{Num, nought}
use pios_backend.Prelude.{
  ℕ, zero, suc, ◌+◌, ◌-◌, ◌*◌, ◌/◌, ltb, leb, if◌then◌else◌, List, [], ◌∷◌, length, slice, map,
  Bool, true, false, Option, none, some, get_elem?, or_else, String,
}

-- `max(4, min(12, len(prices) // 50))`
unfoldable pub n_folds : ℕ → ℕ
n_folds len =
    let capped = if ltb (len / 50) 12 then len / 50 else 12 in if ltb 4 capped then capped else 4

-- `max(5, len(prices) // n_folds)`
unfoldable pub fold_size : ℕ → ℕ
unfolding n_folds
fold_size len = if ltb 5 (len / n_folds len) then len / n_folds len else 5

-- A window of a fold: it trains on the prices before `test_start`.
pub record Window : Type 0 where
  pub test_start : ℕ
  pub test_end : ℕ

abbrev pub window : ℕ → ℕ → ℕ → Window
window size len fold_i =
    let start = size * (fold_i + 1) in
    record { test_start = start; test_end = if ltb len (start + size) then len else start + size }

-- The folds from `fold_i` on, when `left` are left: the loop breaks at a window with nothing to test.
unfoldable pub windows_from : ℕ → ℕ → ℕ → ℕ → List Window
windows_from size len zero fold_i = []
windows_from size len (suc left) fold_i =
    let w = window size len fold_i in
    let rest = windows_from size len left (fold_i + 1) in
    if leb w.test_end w.test_start then [] else w ∷ rest

unfoldable pub windows : ℕ → List Window
unfolding windows_from fold_size n_folds
windows len = windows_from (fold_size len) len (n_folds len) 0

abbrev pub train_prices : {A : Type 0} → List A → Window → List A
train_prices prices w = slice 0 w.test_start prices

abbrev pub test_prices : {A : Type 0} → List A → Window → List A
test_prices prices w = slice w.test_start w.test_end prices
