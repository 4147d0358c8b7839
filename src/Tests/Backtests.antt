-- ===== src/Tests/Backtests.antt =====
-- Backtests, the nightly cycle and the Quant Core.
use pios_backend.QuantCore.{
  build_quant_core_gates, OfiDecision, ConflictLevel, Decision, GateName, Readings,
}
use pios_backend.QuantCore.Heeded.{pass, is_heeded, build_quant_core_gates-allow}
use pios_backend.Prelude.{
  get_elem?, ◌↔◌, ltb, if◌then◌else◌, all_of, ◌&&◌, false, zero, suc, drop, is_some, length, ℕ, ◌≤◌,
  ◌≡◌, refl, true, none, some, List, [], ◌∷◌,
}
use pios_backend.Backtest.Job.{fold_results, FoldResult, series_of, run_backtest_task, Engine}
use pios_backend.Backtest.Closed.{IsNought, paper_gate_closed}
use pios_backend.Backtest.{fold_size, windows}
use pios_backend.Strategy.{Stage, JobStatus, BacktestJob}
use pios_backend.Strategy.Gate.{check_gate}
use pios_backend.Num.Ints.{◌*ℤ◌, ◌+ℤ◌, ◌-ℤ◌, div_ℤ, ℤ, pos}
use pios_backend.Backtest.Trades.{simulate-IsKept, IsKept}
use pios_backend.Backtest.Fold.{trade_at, simulate, simulate_fold, Numpy, CostModel, Regime}
use pios_backend.Backtest.Verdict.{run_backtest_task_status}
use pios_backend.Backtest.Windows.{tested, tested-windows}
use pios_backend.Backtest.Outcome.{IsTotal}
use pios_backend.Num.Instance.{int_num, ℤ-IsSigned}
use pios_backend.Tests.Strategies.{a_strategy}

abbrev fives : ℕ → List ℤ
fives zero = []
fives (suc k) = pos 5 ∷ fives k

-- Every price is far from the mean, and every fold has a Sharpe ratio of one.
abbrev flat_numpy : Numpy ℤ
flat_numpy = record { mean = λ xs. pos 1; std = λ xs. pos 0; round = λ x d. x }

abbrev flat_engine : Engine ℤ
flat_engine = record {
  np = flat_numpy;
  detect_regime = λ ps. some Regime.bull;
  estimate_volatility = λ ps. some (pos 1);
  net_modifier = λ ts. some (pos 0);
  reports = λ ps. true;
  mean = λ xs. pos 0;
  stdev = λ xs. pos 0;
  sqrt = λ x. x;
  min_of = λ x xs. x;
}

flat_engine-IsTotal : IsTotal flat_engine
flat_engine-IsTotal = record {
  regimes = λ ps. (Regime.bull, refl);
  volatilities = λ ps. (pos 1, refl);
  modifiers = λ ts. (pos 0, refl);
  report = λ ps. refl;
}

abbrev a_queued_job : BacktestJob ℤ
a_queued_job = record {
  id = 1;
  created_at = 5;
  status = JobStatus.queued;
  sharpe_ratio = none;
  max_drawdown = none;
  trade_count = none;
}

tested-windows_example :
    tested (fives 23) (windows (length (fives 23)))
    ≡ drop (fold_size (length (fives 23))) (fives 23)
tested-windows_example = tested-windows (fives 23)

simulate-IsKept_example :
    let s = simulate flat_numpy (fives 14) Regime.bull (pos 0) CostModel.full in
    IsKept s × (s.n_trades ≤ 3)
simulate-IsKept_example =
    simulate-IsKept ℤ-IsSigned flat_numpy (fives 14) Regime.bull (pos 0) CostModel.full

-- Fourteen prices make three trades.
three_trades : (simulate flat_numpy (fives 14) Regime.bull (pos 0) CostModel.full).n_trades ≡ 3
unfolding simulate trade_at ◌-ℤ◌ ◌+ℤ◌ ◌*ℤ◌ div_ℤ
three_trades = refl

run_backtest_task_status_example :
    let r = run_backtest_task flat_engine (fives 23) CostModel.full [] a_queued_job in
    let series = series_of (fives 23) [] in
    let many = ltb 5 (length series) in
    (rs : List (FoldResult ℤ)) × (fold_results flat_engine CostModel.full series
        (windows (length series))
      ≡ some rs)
    × (r.0.status ≡ (
        if many
        then (if all_of (λ f. f.is_plain) rs then JobStatus.complete else JobStatus.running)
        else JobStatus.failed))
    × (is_some r.1 ≡ many && all_of (λ f. f.is_plain) rs)
run_backtest_task_status_example =
    run_backtest_task_status flat_engine (fives 23) CostModel.full [] a_queued_job
      flat_engine-IsTotal

-- Returns that vary.
stays_running :
    (run_backtest_task
      (record flat_engine { stdev = λ xs. pos 1 })
      (fives 70)
      CostModel.full
      []
      a_queued_job).0.status
    ≡ JobStatus.running
unfolding run_backtest_task trade_at simulate_fold ◌-ℤ◌ ◌+ℤ◌ ◌*ℤ◌ div_ℤ
stays_running = refl

-- An engine whose means are nought.
abbrev nought_engine : Engine ℤ
nought_engine = record flat_engine { np = record flat_numpy { mean = λ xs. pos 0 } }

nought_engine-IsNought : IsNought nought_engine
nought_engine-IsNought = record {
  rounded = λ d. refl;
  averaged = λ x xs h. refl;
  below_gate = refl;
}

-- Four hundred prices.
abbrev a_run_job : BacktestJob ℤ
a_run_job = (run_backtest_task nought_engine (fives 400) CostModel.full [] a_queued_job).0

paper_gate_closed_example :
    (check_gate
      (record (a_strategy Stage.backtest) { backtest_jobs = a_run_job ∷ [] })
      Stage.paper).0
    ≡ false
paper_gate_closed_example =
    paper_gate_closed nought_engine
      (record (a_strategy Stage.backtest) { backtest_jobs = a_run_job ∷ [] }) nought_engine-IsNought
      ((λ e. (fives 400, CostModel.full, [], a_queued_job, refl)), tt)

-- The job of the example is complete.
completes : a_run_job.status ≡ JobStatus.complete
unfolding run_backtest_task trade_at simulate_fold ◌-ℤ◌ ◌+ℤ◌ ◌*ℤ◌ div_ℤ
completes = refl

-- Good readings, but for the two that are replaced.
abbrev calm : Readings ℤ
calm = record {
  dq_score = pos 100;
  annualised_vol = pos 20;
  regime = Regime.bull;
  regime_confidence = pos 90;
  ofi_decision = OfiDecision.caution;
  stop_hunt_probability = pos 0;
  net_modifier = pos 0;
  conflict = ConflictLevel.low;
  confidence_penalty_pct = pos 5;
}

-- Bad data and a volatility of 400 percent.
build_quant_core_gates-allow_example :
    let out =
      build_quant_core_gates
        (λ x d. x)
        (record calm { dq_score = pos 3; annualised_vol = pos 400 })
        none
        (pos 0) in
    ((out.decision ≡ Decision.allow) ↔ (pass is_heeded out.gates ≡ true))
    × ((out.decision ≡ Decision.block) ↔ (Regime.bull ≡ Regime.crisis))
    × (get_elem? out.gates 1
        ≡ some (record { name = GateName.volatility; passed = false; confidence = none }))
build_quant_core_gates-allow_example =
    build_quant_core_gates-allow (λ x d. x) calm none (pos 0) (pos 3) (pos 400)

allowed_all_the_same :
    (build_quant_core_gates
      (λ x d. x)
      (record calm { dq_score = pos 3; annualised_vol = pos 400 })
      none
      (pos 0)).decision
    ≡ Decision.allow
unfolding build_quant_core_gates
allowed_all_the_same = refl
