-- ===== src/Backtest/Verdict.antt =====
-- The status that a backtest leaves its job in.
use pios_backend.Backtest.Job.{
  FoldResult, completed, series_of, prices_of, fold_results, run_backtest_task, MarketTick, Engine,
}
use pios_backend.Prelude.{
  all_of, ◌&&◌, Bool-cases, ap, ◌∙◌, inl, inr, [], ltb, if◌then◌else◌, is_some, length, ◌≡◌, refl,
  some, List, ◌∷◌, arith,
}
use pios_backend.Strategy.{JobStatus, BacktestJob}
use pios_backend.Backtest.Outcome.{
  windows-few, windows-many, fold_result-some, fold_results-some, fold_results-cons, IsTotal,
}
use pios_backend.Backtest.{true, false, windows}
use native.Mathlib.Decide.{dec_lt}
use pios_backend.Num.{Num}
use pios_backend.Backtest.Fold.{CostModel}

module _ {F : Type 0} ⦃n : Num F⦄ where
  -- Where the estimators return, a backtest with at most five prices fails. With more it completes if
  -- every one of its folds has fewer than two returns or returns that do not vary, and otherwise its
  -- job stays RUNNING, since its report cannot be stored. Only a complete backtest writes scores to the
  -- strategy.
  pub run_backtest_task_status :
      (e : Engine F) (synthetic : List F) (cost : CostModel) (ticks : List (MarketTick F))
      (job : BacktestJob F)
      → IsTotal e
      → let r = run_backtest_task e synthetic cost ticks job in
        let series = series_of synthetic ticks in
        let many = ltb 5 (length series) in
        (rs : List (FoldResult F)) × (fold_results e cost series (windows (length series))
          ≡ some rs)
        × (r.0.status ≡ (
            if many
            then (if all_of (λ f. f.is_plain) rs then JobStatus.complete else JobStatus.running)
            else JobStatus.failed))
        × (is_some r.1 ≡ many && all_of (λ f. f.is_plain) rs)
  unfolding run_backtest_task completed fold_results
  run_backtest_task_status e synthetic cost ticks job t =
      let series = series_of synthetic ticks in
      elim (dec_lt 5 (length series)) [
        | no few ↦
            let nothing = windows-few (length series) (omega arith) in
            let small : ltb 5 (length series) ≡ false = ground arith in
            (
              [],
              rw nothing refl,
              rw (nothing, small, run_backtest_task, fold_results) refl,
              rw (nothing, small, run_backtest_task, fold_results) refl,
            )
        | yes many ↦
            let (w, ws, shape) = windows-many (length series) many in
            let large : ltb 5 (length series) ≡ true = ground arith in
            let (r, a) = fold_result-some e cost series t w in
            let (rs, b) = fold_results-some e cost series t ws in
            let folds : fold_results e cost series (windows (length series)) ≡ some (r ∷ rs) =
              ap (λ x. fold_results e cost series x) shape
              ∙ fold_results-cons e cost series w ws a b in
            elim (Bool-cases (all_of (λ f. f.is_plain) (r ∷ rs))) [
              | inl safe ↦ (
                r ∷ rs,
                folds,
                rw (folds, large, t.report (prices_of series), safe, run_backtest_task) refl,
                rw (folds, large, t.report (prices_of series), safe, run_backtest_task) refl,
              )
              | inr numpy ↦ (
                r ∷ rs,
                folds,
                rw (folds, large, t.report (prices_of series), numpy, run_backtest_task) refl,
                rw (folds, large, t.report (prices_of series), numpy, run_backtest_task) refl,
              )
            ]
      ]
