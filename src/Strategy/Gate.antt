-- ===== src/Strategy/Gate.antt =====
-- `_check_gate`: what a strategy needs before it enters a stage.
use pios_backend.Prelude.{
  ℕ, Bool, true, false, ◌&&◌, Option, none, some, List, [], ◌∷◌, foldl, ltb, is_blank,
  if◌then◌else◌,
}
use pios_backend.Num.{Num, lt, abs}
use pios_backend.Strategy.{
  Stage, JobStatus, BacktestJob, Strategy, GateReason, hypothesis_required, backtest_required,
  backtest_not_complete, sharpe_below_gate, drawdown_exceeds_gate, too_few_trades, paper_only,
  gate_passed,
}

abbrev pub is_complete : JobStatus → Bool
is_complete JobStatus.complete = true
is_complete _ = false

-- `to_stage in ("LIVE_SMALL", "SCALED")`
abbrev pub is_live_target : Stage → Bool
is_live_target Stage.live_small = true
is_live_target Stage.scaled = true
is_live_target _ = false

-- `to_stage in ("PAPER", "LIVE_SMALL", "SCALED")`
abbrev pub needs_backtest : Stage → Bool
needs_backtest Stage.paper = true
needs_backtest s = is_live_target s

abbrev pub is_backtest : Stage → Bool
is_backtest Stage.backtest = true
is_backtest _ = false

abbrev pub is_paper : Stage → Bool
is_paper Stage.paper = true
is_paper _ = false

-- `trade_count is None or trade_count < 200`
abbrev pub too_few : Option ℕ → Bool
too_few none = true
too_few (some count) = ltb count 200

module _ {F : Type 0} where
  -- One round of `max(jobs, key=lambda j: j.created_at)`, which keeps the first of equals.
  abbrev later_job : BacktestJob F → BacktestJob F → BacktestJob F
  later_job best j = if ltb best.created_at j.created_at then j else best

  unfoldable pub latest_job : BacktestJob F → List (BacktestJob F) → BacktestJob F
  latest_job j jobs = foldl later_job j jobs

module _ {F : Type 0} ⦃n : Num F⦄ where
  -- `sharpe is None or sharpe < 0.8`
  abbrev pub sharpe_fails : Option F → Bool
  sharpe_fails none = true
  sharpe_fails (some sharpe) = lt sharpe (n.lit 8 1)

  -- `dd is not None and abs(dd) > 15`
  abbrev pub drawdown_failure : Option F → Option (GateReason F)
  drawdown_failure none = none
  drawdown_failure (some dd) =
      if lt (n.lit 15 0) (abs dd) then some (drawdown_exceeds_gate dd) else none

  -- The checks of the latest backtest for PAPER, up to the first that fails.
  unfoldable pub paper_failure : BacktestJob F → Option (GateReason F)
  paper_failure latest =
      if sharpe_fails latest.sharpe_ratio
      then some (sharpe_below_gate latest.sharpe_ratio)
      else elim (drawdown_failure latest.max_drawdown) [
        | some reason ↦ some reason
        | none ↦
            if too_few latest.trade_count then some (too_few_trades latest.trade_count) else none
      ]

  unfoldable pub backtest_failure : List (BacktestJob F) → Stage → Option (GateReason F)
  unfolding latest_job paper_failure
  backtest_failure [] to_stage = some backtest_required
  backtest_failure (j ∷ jobs) to_stage =
      let latest = latest_job j jobs in
      if is_complete latest.status
      then (if is_paper to_stage then paper_failure latest else none)
      else some (backtest_not_complete latest.id latest.status)

  unfoldable pub gate_failure : Strategy F → Stage → Option (GateReason F)
  unfolding backtest_failure
  gate_failure s to_stage =
      if is_backtest to_stage && is_blank s.hypothesis
      then some hypothesis_required
      else elim (if needs_backtest to_stage
          then backtest_failure s.backtest_jobs to_stage
          else none) [
            | some reason ↦ some reason
            | none ↦ if is_live_target to_stage && s.is_paper_only then some paper_only else none
          ]

  -- `_check_gate`
  unfoldable pub check_gate : Strategy F → Stage → Bool × GateReason F
  unfolding gate_failure
  check_gate s to_stage = elim (gate_failure s to_stage) [
    | some reason ↦ (false, reason)
    | none ↦ (true, gate_passed)
  ]
