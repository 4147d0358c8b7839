-- ===== src/Strategy/Evidence.antt =====
-- What an open gate of `_check_gate` proves about the strategy's backtests.
use pios_backend.Prelude.{
  ℕ, ◌≤◌, ◌≡◌, refl, ◌⊎◌, inl, inr, true, false, Option, none, some, List, [], ◌∷◌, arith,
  Bool-cases, All, ltb,
}
use pios_backend.Num.{Num, lt, abs}
use pios_backend.Strategy.{Stage, JobStatus, BacktestJob, Strategy}
use pios_backend.Strategy.Gate.{
  latest_job, paper_failure, backtest_failure, check_gate, drawdown_failure, sharpe_fails, too_few,
}

module _ {F : Type 0} where
  abbrev pub Occurs : BacktestJob F → List (BacktestJob F) → Type 0
  Occurs j [] = ⊥
  Occurs j (k ∷ jobs) = (j ≡ k) ⊎ Occurs j jobs

  -- A job of the list that none of the list was created after.
  pub record IsLatest (jobs : List (BacktestJob F)) (j : BacktestJob F) : Type 0 where
    pub occurs : Occurs j jobs
    pub newest : All (λ k. k.created_at ≤ j.created_at) jobs

  -- Of the jobs the latest is chosen.
  latest_job-IsLatest :
      (j : BacktestJob F) (jobs : List (BacktestJob F)) → IsLatest (j ∷ jobs) (latest_job j jobs)
  unfolding latest_job
  latest_job-IsLatest j [] = record { occurs = inl refl; newest = omega arith }
  latest_job-IsLatest j (k ∷ jobs) = elim (Bool-cases (ltb j.created_at k.created_at)) [
    | inl later ↦ rw later (
        let ih = latest_job-IsLatest k jobs in
        record { occurs = inr ih.occurs; newest = (ground (arith, ih.newest), ih.newest) })
    | inr earlier ↦ rw earlier (
        let ih = latest_job-IsLatest j jobs in
        record {
          occurs = elim ih.occurs [ inl e ↦ inl e | inr o ↦ inr (inr o) ];
          newest = (ih.newest.0, (ground (arith, ih.newest), ih.newest.1));
        })
  ]

trades_ok : (o : Option ℕ) → too_few o ≡ false → (c : ℕ) × (o ≡ some c) × (200 ≤ c)
trades_ok none h = cc
trades_ok (some c) h = (c, refl, ground arith)

module _ {F : Type 0} ⦃n : Num F⦄ where
  -- The evidence that PAPER asks for.
  pub record IsPaperReady (j : BacktestJob F) : Type 0 where
    pub complete : j.status ≡ JobStatus.complete
    pub sharpe : (x : F) × (j.sharpe_ratio ≡ some x) × (lt x (n.lit 8 1) ≡ false)
    pub drawdown :
        (j.max_drawdown ≡ none)
        ⊎ ((x : F) × (j.max_drawdown ≡ some x) × (lt (n.lit 15 0) (abs x) ≡ false))
    pub trades : (c : ℕ) × (j.trade_count ≡ some c) × (200 ≤ c)

  sharpe_ok :
      (o : Option F) → sharpe_fails o ≡ false → (x : F) × (o ≡ some x) × (lt x (n.lit 8 1) ≡ false)
  sharpe_ok none h = cc
  sharpe_ok (some x) h = (x, refl, h)

  drawdown_ok :
      (o : Option F)
      → drawdown_failure o ≡ none
      → (o ≡ none) ⊎ ((x : F) × (o ≡ some x) × (lt (n.lit 15 0) (abs x) ≡ false))
  drawdown_ok none h = inl refl
  drawdown_ok (some x) h = elim (Bool-cases (lt (n.lit 15 0) (abs x))) [
    | inl over ↦ absurd (cc (rw over at h))
    | inr within ↦ inr (x, refl, within)
  ]

  paper_failure-none :
      (j : BacktestJob F) → j.status ≡ JobStatus.complete → paper_failure j ≡ none → IsPaperReady j
  unfolding paper_failure
  paper_failure-none j c e = record {
    complete = c;
    sharpe = sharpe_ok j.sharpe_ratio (ground arith);
    drawdown = drawdown_ok j.max_drawdown (ground arith);
    trades = trades_ok j.trade_count (ground arith);
  }

  -- If the gate of PAPER opens, the strategy has a backtest that none is newer than, and it is
  -- complete, with a Sharpe ratio that is not below 0.8, no drawdown beyond 15 and 200 trades.
  pub paper_gate :
      (s : Strategy F)
      → (check_gate s Stage.paper).0 ≡ true
      → (j : BacktestJob F) × IsLatest s.backtest_jobs j × IsPaperReady j
  unfolding check_gate
  paper_gate s h = from_jobs s.backtest_jobs (ground arith)
    where
      from_jobs :
          (jobs : List (BacktestJob F))
          → backtest_failure jobs Stage.paper ≡ none
          → (j : BacktestJob F) × IsLatest jobs j × IsPaperReady j
      from_jobs [] e = cc
      from_jobs (j ∷ jobs) e = (
        latest_job j jobs,
        latest_job-IsLatest j jobs,
        paper_failure-none (latest_job j jobs) (ground arith) (ground arith),
      )
