-- ===== src/Backtest/Closed.antt =====
-- What the gate of PAPER reads of a backtest that `run_backtest_task` of
-- app/workers/backtest_worker.py has completed.
use pios_backend.Backtest.Job.{
  FoldResult, recorded, fold_result, sharpe_of, completed, series_of, prices_of, fold_results,
  run_backtest_task, MarketTick, Engine,
}
use pios_backend.Prelude.{
  all_of, map, All, sym, Bool-cases, Option-cases, ℕ, ap, ◌∙◌, inl, inr, [], ltb, length, ◌≡◌, some,
  List, ◌∷◌, arith,
}
use pios_backend.Strategy.{Stage, Strategy, JobStatus, BacktestJob}
use pios_backend.Strategy.Gate.{check_gate}
use pios_backend.Strategy.Evidence.{Occurs, paper_gate}
use mathlib.Core.Path.{subst}
use mathlib.Core.Option.{some-injective}
use pios_backend.Backtest.{true, false, windows, Window, train_prices, test_prices}
use pios_backend.Num.{Num, lt, nought}
use pios_backend.Backtest.Fold.{FoldPnl, simulate_fold, CostModel}

module _ {F : Type 0} ⦃n : Num F⦄ where
  -- What numpy makes of noughts: rounding keeps nought, and noughts have the mean nought, which is below
  -- the 0.8 of the gate.
  pub record IsNought (e : Engine F) : Type 0 where
    pub rounded : (d : ℕ) → e.np.round nought d ≡ nought
    pub averaged :
        (x : F) (xs : List F) → All (λ y. y ≡ nought) (x ∷ xs) → e.np.mean (x ∷ xs) ≡ nought
    pub below_gate : lt nought (n.lit 8 1) ≡ true

  -- A fold whose `passed` is a bool of Python has a Sharpe ratio of nought.
  recorded-nought :
      (e : Engine F) (pnl : FoldPnl F)
      → IsNought e
      → (recorded e pnl).is_plain ≡ true
      → (recorded e pnl).sharpe ≡ nought
  unfolding recorded sharpe_of
  recorded-nought e pnl laws plain = elim (Bool-cases (ltb (length pnl.returns) 2)) [
    | inl few ↦ rw few (laws.rounded 4)
    | inr many ↦ elim (Bool-cases (n.eq (e.stdev pnl.returns) nought)) [
      | inl still ↦ rw (many, still) (laws.rounded 4)
      | inr varies ↦ absurd (ground (arith, rw (many, varies) at plain))
    ]
  ]

  fold_result-nought :
      (e : Engine F) (cost : CostModel) (ticks : List (MarketTick F)) (w : Window)
      → IsNought e
      → {r : FoldResult F} → fold_result e cost ticks w ≡ some r
      → r.is_plain ≡ true
      → r.sharpe ≡ nought
  unfolding fold_result
  fold_result-nought e cost ticks w laws {r} h plain =
      let train = train_prices (prices_of ticks) w in
      let tests = test_prices ticks w in
      elim (Option-cases (e.detect_regime train)) [
        | inl a ↦ absurd (cc (rw (a, fold_result) at h))
        | inr (regime, a) ↦ elim (Option-cases (e.estimate_volatility train)) [
          | inl b ↦ absurd (cc (rw (a, b, fold_result) at h))
          | inr (_, b) ↦ elim (Option-cases (e.net_modifier tests)) [
            | inl c ↦ absurd (cc (rw (a, b, c, fold_result) at h))
            | inr (modifier, c) ↦
                let pnl = simulate_fold e.np (prices_of tests) regime modifier cost in
                let same : recorded e pnl ≡ r =
                  some-injective _ _ (rw (a, b, c, fold_result) at h) in
                sym (ap (λ f. f.sharpe) same)
                ∙ recorded-nought e pnl laws (ap (λ f. f.is_plain) same ∙ plain)
          ]
        ]
      ]

  fold_results-nought :
      (e : Engine F) (cost : CostModel) (ticks : List (MarketTick F)) (ws : List Window)
      → IsNought e
      → {rs : List (FoldResult F)} → fold_results e cost ticks ws ≡ some rs
      → all_of (λ f. f.is_plain) rs ≡ true
      → All (λ x. x ≡ nought) (map (λ f. f.sharpe) rs)
  unfolding fold_results
  fold_results-nought e cost ticks [] laws {rs} h plain =
      let same : [] ≡ rs = some-injective _ _ h in
      subst (λ qs. All (λ x. x ≡ nought) (map (λ (f : FoldResult F). f.sharpe) qs)) same tt
  fold_results-nought e cost ticks (w ∷ ws) laws {rs} h plain =
      elim (Option-cases (fold_result e cost ticks w)) [
        | inl a ↦ absurd (cc (rw (a, fold_results) at h))
        | inr (r, a) ↦ elim (Option-cases (fold_results e cost ticks ws)) [
          | inl b ↦ absurd (cc (rw (a, b, fold_results) at h))
          | inr (qs, b) ↦
              let same : r ∷ qs ≡ rs = some-injective _ _ (rw (a, b, fold_results) at h) in
              let both : all_of (λ f. f.is_plain) (r ∷ qs) ≡ true =
                ap (λ xs. all_of (λ (f : FoldResult F). f.is_plain) xs) same ∙ plain in
              subst (λ xs. All (λ x. x ≡ nought) (map (λ (f : FoldResult F). f.sharpe) xs)) same
                (
                  fold_result-nought e cost ticks w laws a (ground (arith, both)),
                  fold_results-nought e cost ticks ws laws b (ground (arith, both)),
                )
        ]
      ]

  -- The Sharpe ratio of a complete backtest is nought.
  run_backtest_task-nought :
      (e : Engine F) (synthetic : List F) (cost : CostModel) (ticks : List (MarketTick F))
      (job : BacktestJob F)
      → IsNought e
      → (run_backtest_task e synthetic cost ticks job).0.status ≡ JobStatus.complete
      → (run_backtest_task e synthetic cost ticks job).0.sharpe_ratio ≡ some nought
  unfolding run_backtest_task completed
  run_backtest_task-nought e synthetic cost ticks job laws done =
      let series = series_of synthetic ticks in
      elim (Option-cases (fold_results e cost series (windows (length series)))) [
        | inl a ↦ absurd (cc (rw (a, run_backtest_task) at done))
        | inr ([], a) ↦ absurd (cc (rw (a, run_backtest_task) at done))
        | inr (r ∷ rs, a) ↦ elim (Bool-cases (e.reports (prices_of series))) [
          | inr b ↦ absurd (cc (rw (a, b, run_backtest_task) at done))
          | inl b ↦ elim (Bool-cases (all_of (λ f. f.is_plain) (r ∷ rs))) [
            | inr p ↦ absurd (cc (rw (a, b, p, run_backtest_task) at done))
            | inl p ↦
                let noughts = fold_results-nought e cost series _ laws a p in
                let mean = laws.averaged r.sharpe (map (λ f. f.sharpe) rs) noughts in
                rw (a, b, p, run_backtest_task)
                  (ap (λ x. some (e.np.round x 4)) mean ∙ ap some (laws.rounded 4))
          ]
        ]
      ]

  -- A complete job of the list is the result of a run of `run_backtest_task`.
  abbrev pub IsRun : Engine F → BacktestJob F → Type 0
  IsRun e j =
      j.status ≡ JobStatus.complete
      → (synthetic : List F) × (cost : CostModel) × (ticks : List (MarketTick F))
        × (old : BacktestJob F) × (j ≡ (run_backtest_task e synthetic cost ticks old).0)

  Occurs-IsRun :
      (e : Engine F) (j : BacktestJob F) (jobs : List (BacktestJob F))
      → Occurs j jobs
      → All (IsRun e) jobs
      → IsRun e j
  Occurs-IsRun e j [] o h = absurd o
  Occurs-IsRun e j (k ∷ jobs) (inl same) h = subst (IsRun e) (sym same) h.0
  Occurs-IsRun e j (k ∷ jobs) (inr later) h = Occurs-IsRun e j jobs later h.1

  -- No backtest opens the gate of PAPER: if the complete backtests of a strategy are results of
  -- `run_backtest_task`, the gate of PAPER is closed. This takes rounding to keep nought, noughts to
  -- have the mean nought, and nought to be below 0.8.
  pub paper_gate_closed :
      (e : Engine F) (s : Strategy F)
      → IsNought e
      → All (IsRun e) s.backtest_jobs
      → (check_gate s Stage.paper).0 ≡ false
  paper_gate_closed e s laws runs = elim (Bool-cases (check_gate s Stage.paper).0) [
    | inr closed ↦ closed
    | inl opens ↦
        let (j, latest, ready) = paper_gate s opens in
        let (synthetic, cost, ticks, old, same) =
          Occurs-IsRun e j s.backtest_jobs latest.occurs runs ready.complete in
        let (x, claimed, enough) = ready.sharpe in
        let ratio =
          run_backtest_task-nought e synthetic cost ticks old laws
            (sym (ap (λ k. k.status) same) ∙ ready.complete) in
        let nothing : nought ≡ x =
          some-injective _ _ (sym ratio ∙ sym (ap (λ k. k.sharpe_ratio) same) ∙ claimed) in
        absurd (cc (enough, laws.below_gate, nothing))
  ]
